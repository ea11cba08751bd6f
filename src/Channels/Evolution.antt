-- ===== src/Channels/Evolution.antt =====
-- The operations on channels, along the steps of the tables.
use october_bus.Base.{ℕ, String, Bool, Option, none, some, [], ◌∷◌, ◌++◌, ◌≡◌, refl, arith, eq_iff}
use october_bus.Protocol.{Principal, CreateChannelInput, PostChannelInput}
use october_bus.World.{Resources, ChannelRow, PostRow}
use october_bus.Rows.{delete}
use october_bus.Evolution.Others.{
  KeepsOthers, KeepsOthers-refl, SameOthers-append, SameOthers-delete,
}
use october_bus.Tx.{Tx}
use october_bus.Tx.Keeps.{Keeps, keeps_rules}
use october_bus.Evolution.{evolution}
use october_bus.Evolution.Statements.{statement_rules}
use october_bus.Events.Evolution.{append_event-Evolves}
use october_bus.Session.{Context}
use october_bus.Session.Evolution.{begin_tx-Evolves}
use october_bus.Delivery.Send.{Sender}
use october_bus.Delivery.Send.Evolution.{send_message_tx-Evolves}
use october_bus.Channels.{
  is_own, channel_author, require_channel, insert_channel, create_channel, join_channel,
  leave_channel, subscribe_channel, check_thread, root_only, notify_target, insert_post,
  accept_post, repost, post_channel,
}

ruleset channel_rules = (keeps_rules, statement_rules, append_event-Evolves, begin_tx-Evolves)

-- Each statement on the shared tables changes rows of its own scope only.
channel-others :
    (s : String) (row : ChannelRow)
    → row.scope_id ≡ s
    → (r : Resources) → KeepsOthers s r (record r { channels = r.channels ++ row ∷ [] })
channel-others s row here r =
    let k = KeepsOthers-refl s r in
    record {
      usage = k.usage;
      channels = SameOthers-append _ s r.channels row here;
      subscriptions = k.subscriptions;
      posts = k.posts;
    }

post-others :
    (s : String) (row : PostRow)
    → row.scope_id ≡ s
    → (r : Resources) → KeepsOthers s r (record r { posts = r.posts ++ row ∷ [] })
post-others s row here r =
    let k = KeepsOthers-refl s r in
    record {
      usage = k.usage;
      channels = k.channels;
      subscriptions = k.subscriptions;
      posts = SameOthers-append _ s r.posts row here;
    }

join-others :
    (p : Principal) (id : String) (now : ℕ) (r : Resources)
    → KeepsOthers p.scope_id r (record r {
      subscriptions =
          r.subscriptions
          ++ record {
            scope_id = p.scope_id;
            channel_id = id;
            agent_id = p.agent_id;
            created_at = now;
          }
            ∷ [];
    })
join-others p id now r =
    let k = KeepsOthers-refl p.scope_id r in
    record {
      usage = k.usage;
      channels = k.channels;
      subscriptions = SameOthers-append _ p.scope_id r.subscriptions _ refl;
      posts = k.posts;
    }

leave-others :
    (p : Principal) (id : String) (r : Resources)
    → KeepsOthers p.scope_id r (record r { subscriptions = delete (is_own p id) r.subscriptions })
leave-others p id r =
    let k = KeepsOthers-refl p.scope_id r in
    record {
      usage = k.usage;
      channels = k.channels;
      subscriptions =
          SameOthers-delete _ p.scope_id (is_own p id)
            (λ x h. (eq_iff x.scope_id p.scope_id).0 (ground (arith, h))) r.subscriptions;
      posts = k.posts;
    }

module _ (s : String) where
  channel_author-Evolves : (c : Context) (o : String) → Keeps (evolution s) (channel_author c o)
  unfolding channel_author
  channel_author-Evolves c o = search keeps_rules

  require_channel-Evolves : (o id : String) → Keeps (evolution s) (require_channel o id)
  unfolding require_channel
  require_channel-Evolves o id = search keeps_rules

  insert_channel-Evolves :
      (row : ChannelRow) → row.scope_id ≡ s → Keeps (evolution s) (insert_channel row)
  unfolding insert_channel
  insert_channel-Evolves row here = search (channel_rules, channel-others s row here) depth 12

  pub create_channel-Evolves :
      (c : Context) (input : CreateChannelInput) → Keeps (evolution s) (create_channel c s input)
  unfolding create_channel
  create_channel-Evolves c input =
      search (channel_rules, channel_author-Evolves, insert_channel-Evolves) depth 32

  root_only-Evolves : (found : Option PostRow) → Keeps (evolution s) (root_only found)
  root_only-Evolves none = search keeps_rules
  root_only-Evolves (some x) = search keeps_rules

  check_thread-Evolves :
      (o : String) (input : PostChannelInput) → Keeps (evolution s) (check_thread o input)
  unfolding check_thread
  check_thread-Evolves o input = search (keeps_rules, root_only-Evolves) depth 12

  notify_target-Evolves :
      (author : Sender) (name channel post target : String)
      → Keeps (evolution s) (notify_target s author name channel post target)
  unfolding notify_target
  notify_target-Evolves author name channel post target =
      search (keeps_rules, send_message_tx-Evolves) depth 12

  insert_post-Evolves : (row : PostRow) → row.scope_id ≡ s → Keeps (evolution s) (insert_post row)
  unfolding insert_post
  insert_post-Evolves row here = search (channel_rules, post-others s row here) depth 12

  accept_post-Evolves :
      (author : Sender) (input : PostChannelInput) (hash name : String)
      → Keeps (evolution s) (accept_post s author input hash name)
  unfolding accept_post
  accept_post-Evolves author input hash name =
      search (channel_rules, insert_post-Evolves, notify_target-Evolves) depth 32

  repost-Evolves :
      (o : Option PostRow) (hash : String) (new : Tx PostRow)
      → Keeps (evolution s) new
      → Keeps (evolution s) (repost o hash new)
  unfolding repost
  repost-Evolves none hash new k = k
  repost-Evolves (some x) hash new k = search keeps_rules

  pub post_channel-Evolves :
      (c : Context) (input : PostChannelInput) → Keeps (evolution s) (post_channel c s input)
  unfolding post_channel
  post_channel-Evolves c input =
      search
        (
          channel_rules, channel_author-Evolves, require_channel-Evolves, check_thread-Evolves,
          repost-Evolves, accept_post-Evolves,
        )
        depth 32

join_channel-Evolves :
    (p : Principal) (id : String) → Keeps (evolution p.scope_id) (join_channel p id)
unfolding join_channel
join_channel-Evolves p id = search (channel_rules, join-others) depth 16

leave_channel-Evolves :
    (p : Principal) (id : String) → Keeps (evolution p.scope_id) (leave_channel p id)
unfolding leave_channel
leave_channel-Evolves p id = search (channel_rules, leave-others p id) depth 12

pub subscribe_channel-Evolves :
    (c : Context) (p : Principal) (id : String) (join : Bool)
    → Keeps (evolution p.scope_id) (subscribe_channel c p id join)
unfolding subscribe_channel
subscribe_channel-Evolves c p id join =
    search (channel_rules, require_channel-Evolves, join_channel-Evolves, leave_channel-Evolves)
      depth 24
