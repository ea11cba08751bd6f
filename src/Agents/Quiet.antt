-- ===== src/Agents/Quiet.antt =====
-- What a registration does after its upsert leaves the agents alone.
use october_bus.Base.{ℕ, String, Bool, List, [], ◌∷◌, refl, sym, ap}
use october_bus.Protocol.{RegisterAgentInput}
use october_bus.World.{World, AgentRow, LinkRow, MessageRow, TaskRow, PublicationRow}
use october_bus.Tx.{now_millis, insert_links, update_messages, update_tasks, update_publications}
use october_bus.Tx.Keeps.{Keeps, Keeps-pure, Keeps-bind, ok_world, keeps_rules}
use october_bus.Tx.Frame.{
  IsApart, still, still-now_millis, still-append_event, still-append_events,
  still-delete_reservations,
}
use october_bus.Peers.{insert_link}
use october_bus.Delivery.{release_reservation}
use october_bus.Tasks.{release_stale_task, release_stale_task_claims}
use october_bus.Agents.{
  release_agent_reservations, touch_publications, peers_to_link, refuse_self, require_agent,
  insert_peer_links, link_registered_peers,
}

abbrev pub table : World → List AgentRow
table w = w.agents

pub table-IsApart : IsApart (λ (w : World). w.agents)
table-IsApart = record {
  clock = λ w c. refl;
  entropy = λ w c. refl;
  scopes = λ w rows. refl;
  events = λ w rows. refl;
  a2a_tasks = λ w rows. refl;
  correlations = λ w rows. refl;
  reservations = λ w rows. refl;
}

still-update_messages :
    (p : MessageRow → Bool) (f : MessageRow → MessageRow)
    → Keeps (still table) (update_messages p f)
unfolding update_messages
still-update_messages p f = record { at = λ w a w' h. sym (ap table (ok_world h)) }

still-update_tasks :
    (p : TaskRow → Bool) (f : TaskRow → TaskRow) → Keeps (still table) (update_tasks p f)
unfolding update_tasks
still-update_tasks p f = record { at = λ w a w' h. sym (ap table (ok_world h)) }

still-update_publications :
    (p : PublicationRow → Bool) (f : PublicationRow → PublicationRow)
    → Keeps (still table) (update_publications p f)
unfolding update_publications
still-update_publications p f = record { at = λ w a w' h. sym (ap table (ok_world h)) }

still-insert_links : (rows : List LinkRow) → Keeps (still table) (insert_links rows)
unfolding insert_links
still-insert_links rows = record { at = λ w a w' h. sym (ap table (ok_world h)) }

clock_still : Keeps (still table) now_millis
clock_still = still-now_millis table table-IsApart

still-release_reservation : (s a r : String) → Keeps (still table) (release_reservation s a r)
unfolding release_reservation
still-release_reservation s a r =
    search
      (
        keeps_rules,
        still-update_messages,
        still-delete_reservations table table-IsApart,
        clock_still,
        still-append_event table table-IsApart,
      )
      depth 12

pub still-release_agent_reservations :
    (s a : String) → Keeps (still table) (release_agent_reservations s a)
unfolding release_agent_reservations
still-release_agent_reservations s a = search (keeps_rules, still-release_reservation)

still-release_stale_task :
    (s : String) (now : ℕ) (t : TaskRow) → Keeps (still table) (release_stale_task s now t)
unfolding release_stale_task
still-release_stale_task s now t =
    search (keeps_rules, still-update_tasks, still-append_event table table-IsApart) depth 12

pub still-release_stale_task_claims :
    (s : String) → Keeps (still table) (release_stale_task_claims s)
unfolding release_stale_task_claims
still-release_stale_task_claims s = search (keeps_rules, clock_still, still-release_stale_task)

pub still-touch_publications :
    (s a : String) (now : ℕ) → Keeps (still table) (touch_publications s a now)
unfolding touch_publications
still-touch_publications s a now = search (keeps_rules, still-update_publications)

pub still-peers_to_link :
    (s a : String) (input : RegisterAgentInput) (now : ℕ)
    → Keeps (still table) (peers_to_link s a input now)
unfolding peers_to_link
still-peers_to_link s a input now = search keeps_rules

still-insert_link :
    (s : String) (peers : String × String) (now : ℕ) → Keeps (still table) (insert_link s peers now)
unfolding insert_link
still-insert_link s (a, b) now = search (keeps_rules, still-insert_links)

still-insert_peer_links :
    (s a : String) (now : ℕ) (peers : List String)
    → Keeps (still table) (insert_peer_links s a now peers)
unfolding insert_peer_links
still-insert_peer_links s a now [] = Keeps-pure (still table) []
still-insert_peer_links s a now (peer ∷ peers) =
    Keeps-bind (still table) _ _ (still-insert_link s _ now) λ created.
      Keeps-bind (still table) _ _ (still-insert_peer_links s a now peers)
        λ rest. Keeps-pure (still table) _

still-require_agent : (s peer : String) → Keeps (still table) (require_agent s peer)
unfolding require_agent
still-require_agent s peer = search keeps_rules

still-refuse_self : (a peer : String) → Keeps (still table) (refuse_self a peer)
unfolding refuse_self
still-refuse_self a peer = search keeps_rules

pub still-link_registered_peers :
    (s a : String) (peers : List String) (now : ℕ)
    → Keeps (still table) (link_registered_peers s a peers now)
unfolding link_registered_peers
still-link_registered_peers s a peers now =
    search
      (
        keeps_rules,
        still-refuse_self,
        still-require_agent,
        still-insert_peer_links,
        still-append_events table table-IsApart,
      )
      depth 12
