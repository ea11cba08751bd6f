-- ===== src/Outputs/Publish/Frame.antt =====
-- What PublishOutput does before its value is added: the quota and the check of the producer.
use october_bus.Base.{
  true, false, ltb, ◌is◌, ◌&&◌, arith, eq_iff, Bool-cases, inl, inr, ℕ, String, Bool, List, ◌≡◌,
  refl, sym, ap, ◌∙◌,
}
use october_bus.Protocol.{Principal}
use october_bus.World.{World, Resources, StreamRow, UsageRow}
use october_bus.Rows.{delete, exists}
use october_bus.Evolution.Others.{
  KeepsOthers, KeepsOthers-refl, SameOthers, SameOthers-append, SameOthers-delete,
  SameOthers-update,
}
use october_bus.Tx.{alter, now_millis}
use october_bus.Tx.Keeps.{Keeps, ok_world, keeps_rules}
use october_bus.Tx.Frame.{IsApart, still, still-now_millis, still-require_current_execution}
use october_bus.Evolution.{evolution}
use october_bus.Evolution.Statements.{statement_rules}
use october_bus.Events.Evolution.{append_event-Evolves}
use october_bus.Session.{require_current_execution}
use october_bus.Session.Evolution.{begin_tx-Evolves, require_current_execution-Evolves}
use october_bus.Credentials.{authenticate_scoped_credential, ScopedCredentialGrant}
use october_bus.Credentials.Evolution.{authenticate_scoped_credential-Evolves}
use october_bus.Outputs.Publish.{
  count_usage, count_request, is_usage, consume_output_quota, OutputPublisher, producer_of,
}

ruleset publish_rules = (
  keeps_rules, statement_rules, append_event-Evolves, begin_tx-Evolves,
  require_current_execution-Evolves, authenticate_scoped_credential-Evolves,
)

-- The usage that a request counts and drops is that of its own scope.
drop-others :
    (s : String) (limit : ℕ) (r : Resources)
    → KeepsOthers s r
        (record r { usage = delete (λ u. (u.scope_id is s) && ltb u.window_start limit) r.usage })
drop-others s limit r =
    let k = KeepsOthers-refl s r in
    record {
      usage = SameOthers-delete _ s _ (λ u h. (eq_iff u.scope_id s).0 (ground (arith, h))) r.usage;
      channels = k.channels;
      subscriptions = k.subscriptions;
      posts = k.posts;
    }

count-others :
    (s kind id : String) (window : ℕ) (publish : Bool) (r : Resources)
    → KeepsOthers s r (record r { usage = count_usage s kind id window publish r.usage })
unfolding count_usage
count-others s kind id window publish r =
    let k = KeepsOthers-refl s r in
    record {
      usage = counts;
      channels = k.channels;
      subscriptions = k.subscriptions;
      posts = k.posts;
    }
  where
    same : (b : Bool) (u : UsageRow) → (count_request b u).scope_id ≡ u.scope_id
    same true u = refl
    same false u = refl

    counts :
        SameOthers
          (λ (x : UsageRow). x.scope_id)
          s
          r.usage
          (count_usage s kind id window publish r.usage)
    counts = elim (Bool-cases (exists (is_usage s kind id window) r.usage)) [
      | inl e ↦ rw e (
          SameOthers-update _ s (is_usage s kind id window) (count_request publish)
            (λ u h. (eq_iff u.scope_id s).0 (ground (arith, h))) (same publish) r.usage)
      | inr e ↦ rw e (SameOthers-append _ s r.usage _ (same publish _))
    ]

module _ (s : String) where
  pub consume_output_quota-Evolves :
      (kind id : String) (publish : Bool) (now : ℕ)
      → Keeps (evolution s) (consume_output_quota s kind id publish now)
  unfolding consume_output_quota
  consume_output_quota-Evolves kind id publish now =
      search (publish_rules, drop-others, count-others) depth 24

  pub producer_of-Evolves :
      (authority : OutputPublisher) (row : StreamRow)
      → Keeps (evolution s) (producer_of authority row)
  unfolding producer_of
  producer_of-Evolves (OutputPublisher.agent p) row = search publish_rules depth 24
  producer_of-Evolves (OutputPublisher.credential t) row = search publish_rules depth 24

-- What comes before the value is added leaves the streams alone.
abbrev pub stream_table : World → List StreamRow
stream_table w = w.resources.streams

pub stream_table-IsApart : IsApart stream_table
stream_table-IsApart = record {
  clock = λ w c. refl;
  entropy = λ w c. refl;
  scopes = λ w c. refl;
  events = λ w c. refl;
  a2a_tasks = λ w c. refl;
  correlations = λ w c. refl;
  reservations = λ w c. refl;
}

still-alter :
    (f : Resources → Resources)
    → ((r : Resources) → (f r).streams ≡ r.streams)
    → Keeps (still stream_table) (alter f)
unfolding alter
still-alter f same = record {
  at = λ w u w' h. sym (ap stream_table (ok_world h)) ∙ same w.resources;
}

pub still_now : Keeps (still stream_table) now_millis
still_now = still-now_millis stream_table stream_table-IsApart

still_execution :
    (p : Principal) (now : ℕ) → Keeps (still stream_table) (require_current_execution p now)
still_execution p now = still-require_current_execution stream_table stream_table-IsApart p now

still_credential :
    (supplied : String) (g : ScopedCredentialGrant)
    → Keeps (still stream_table) (authenticate_scoped_credential supplied g)
unfolding authenticate_scoped_credential
still_credential supplied g = search keeps_rules depth 24

ruleset still_rules = (keeps_rules, still-alter, still_now, still_execution, still_credential)

pub quota-still :
    (scope kind id : String) (publish : Bool) (now : ℕ)
    → Keeps (still stream_table) (consume_output_quota scope kind id publish now)
unfolding consume_output_quota
quota-still scope kind id publish now = search still_rules depth 24

pub producer_of-still :
    (authority : OutputPublisher) (row : StreamRow)
    → Keeps (still stream_table) (producer_of authority row)
unfolding producer_of
producer_of-still (OutputPublisher.agent p) row = search still_rules depth 24
producer_of-still (OutputPublisher.credential t) row = search still_rules depth 24
