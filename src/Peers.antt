-- ===== src/Peers.antt =====
-- The links between agents of bus/store.go: a link is kept once, under its two names in order.
pub mod Laws
use october_bus.Base.{
  ℕ, String, Bool, true, false, not, Option, none, some, List, [], ◌∷◌, ◌&&◌, if◌then◌else◌, ◌is◌,
  text_ltb,
}
use Prim.Native.String.{◌++◌ as ◌+++◌}
use october_bus.Protocol.{ErrorCode}
use october_bus.World.{World, LinkRow, Attribute}
use october_bus.Rows.{exists}
use october_bus.Tx.{Tx, ◌>>=◌, ◌>>◌, pure, gets, ensure, when, now_millis, insert_links}
use october_bus.Events.{append_event}
use october_bus.Session.{Context, begin_tx, is_agent}

unfoldable pub ordered_peers : String → String → String × String
ordered_peers left right = if text_ltb left right then (left, right) else (right, left)

abbrev pub is_link : String → String × String → LinkRow → Bool
is_link scope_id (a, b) l =
    (l.scope_id is scope_id) && ((l.left_agent is a) && (l.right_agent is b))

unfoldable pub linked_agents : World → String → String → String → Bool
linked_agents w scope_id left right = exists (is_link scope_id (ordered_peers left right)) w.links

unfoldable pub agent_exists : World → String → String → Bool
agent_exists w scope_id agent_id = exists (is_agent scope_id agent_id) w.agents

-- INSERT ... ON CONFLICT DO NOTHING; the result says whether the row is new.
unfoldable pub insert_link : String → String × String → ℕ → Tx Bool
insert_link scope_id (a, b) now = do
  present ← gets (λ w. exists (is_link scope_id (a, b)) w.links)
  if present then pure false else (do
    insert_links
        (record { scope_id = scope_id; left_agent = a; right_agent = b; created_at = now } ∷ [])
    pure true)

unfoldable pub link_agents_tx : String → String → String → ℕ → Tx Bool
link_agents_tx scope_id left right now = do
  ensure (not (left is right)) ErrorCode.invalid_argument
  first ← gets (λ w. agent_exists w scope_id left)
  ensure first ErrorCode.not_found
  second ← gets (λ w. agent_exists w scope_id right)
  ensure second ErrorCode.not_found
  insert_link scope_id (ordered_peers left right) now

unfoldable pub link_event : String → String × String → ℕ → Tx (Unit {0})
link_event scope_id (a, b) now =
    append_event scope_id "link.created" (a +++ (":" +++ b))
      (("leftAgent", Attribute.text a) ∷ ("rightAgent", Attribute.text b) ∷ []) now

-- Store.LinkAgents
unfoldable pub link_agents : Context → String → String → String → Tx (Unit {0})
link_agents c scope_id left right = do
  begin_tx c
  now ← now_millis
  created ← link_agents_tx scope_id left right now
  when created (link_event scope_id (ordered_peers left right) now)
