-- ===== src/Agents.antt =====
-- The agents of bus/store.go and bus/retire.go: registering an execution, its heartbeat, and its end.
pub mod Evolution
pub mod Fencing
pub mod Quiet
use october_bus.Base.{
  ℕ, ◌+◌, String, Bool, true, false, not, Option, none, some, List, [], ◌∷◌, ◌++◌, ◌&&◌, ltb, leb,
  ◌==◌, if◌then◌else◌, ◌is◌, take, length, text_ltb, map,
}
use Prim.Native.String.{◌++◌ as ◌+++◌}
use october_bus.Protocol.{
  ErrorCode, AgentLifecycle, Principal, RegisterAgentInput, HeartbeatInput, same_lifecycle,
  lifecycle_text,
}
use october_bus.World.{World, ScopeRow, AgentRow, ReservationRow, PublicationRow, Attribute}
use october_bus.Rows.{select, find, exists, sort_by, unique}
use october_bus.Tx.{
  Tx, ◌>>=◌, ◌>>◌, pure, gets, or_fail, ensure, when, for_each, now_millis, random_id,
  update_agents, insert_agent, update_publications,
}
use october_bus.Events.{PendingEvent, event_attributes, append_event, append_events}
use october_bus.Session.{Context, begin_tx, require_current_execution, is_agent, agent_row}
use october_bus.Peers.{ordered_peers, agent_exists, insert_link}
use october_bus.Delivery.{release_reservation}
use october_bus.Tasks.{release_stale_task_claims}

-- The row that registers an execution: a new credential, starting, not ready, with a fresh lease.
abbrev pub registered_row : RegisterAgentInput → String → String → ℕ → AgentRow → AgentRow
registered_row input execution_id token_hash now a = record a {
  display_name = input.display_name;
  capabilities = input.capabilities;
  execution_id = execution_id;
  token_hash = token_hash;
  lifecycle = AgentLifecycle.starting;
  ready = false;
  lease_expires_at = now + input.lease_ms;
  registered_at = now;
  updated_at = now;
}

unfoldable pub new_agent : String → String → RegisterAgentInput → String → String → ℕ → AgentRow
new_agent scope_id agent_id input execution_id token_hash now = record {
  scope_id = scope_id;
  agent_id = agent_id;
  display_name = input.display_name;
  capabilities = input.capabilities;
  execution_id = execution_id;
  token_hash = token_hash;
  lifecycle = AgentLifecycle.starting;
  ready = false;
  lease_expires_at = now + input.lease_ms;
  registered_at = now;
  updated_at = now;
}

-- INSERT ... ON CONFLICT(scope_id,agent_id) DO UPDATE
unfoldable pub upsert_agent :
    String → String → RegisterAgentInput → String → String → ℕ → Tx (Unit {0})
upsert_agent scope_id agent_id input execution_id token_hash now = do
  present ← gets (λ w. agent_exists w scope_id agent_id)
  if present
      then (do
        update_agents (is_agent scope_id agent_id)
            (registered_row input execution_id token_hash now)
        pure tt)
      else insert_agent (new_agent scope_id agent_id input execution_id token_hash now)

abbrev pub is_reservation_of : String → String → ReservationRow → Bool
is_reservation_of scope_id agent_id r = (r.scope_id is scope_id) && (r.agent_id is agent_id)

-- bus/retire.go: releaseAgentReservations
unfoldable pub release_agent_reservations : String → String → Tx (Unit {0})
release_agent_reservations scope_id agent_id = do
  held ← gets (λ w. select (is_reservation_of scope_id agent_id) w.reservations)
  for_each held (λ r. release_reservation scope_id agent_id r.reservation_id)

unfoldable pub touch_publications : String → String → ℕ → Tx (Unit {0})
touch_publications scope_id agent_id now = do
  update_publications (λ (r : PublicationRow). (r.scope_id is scope_id) && (r.agent_id is agent_id))
      (λ r. record r { updated_at = now })
  pure tt

abbrev pub is_connected : String → String → ℕ → AgentRow → Bool
is_connected scope_id agent_id now a =
    (a.scope_id is scope_id)
    && (not (a.agent_id is agent_id)
        && (ltb now a.lease_expires_at && not (same_lifecycle a.lifecycle AgentLifecycle.offline)))

-- ORDER BY agent_id
abbrev pub agent_order : AgentRow → AgentRow → Bool
agent_order a b = not (text_ltb b.agent_id a.agent_id)

-- The peers of a registration: those it names, and with `connect_workspace` all that are connected.
unfoldable pub peers_to_link : String → String → RegisterAgentInput → ℕ → Tx (List String)
peers_to_link scope_id agent_id input now =
    if input.connect_workspace
    then (do
      connected ← gets (λ w.
          map (λ (a : AgentRow). a.agent_id)
            (take 129 (sort_by agent_order (select (is_connected scope_id agent_id now) w.agents))))
      ensure (leb (length (unique (input.connect_to ++ connected))) 128) ErrorCode.backpressure
      pure (unique (input.connect_to ++ connected)))
    else pure (unique input.connect_to)

unfoldable pub refuse_self : String → String → Tx (Unit {0})
refuse_self agent_id peer = ensure (not (peer is agent_id)) ErrorCode.invalid_argument

unfoldable pub require_agent : String → String → Tx (Unit {0})
require_agent scope_id peer = do
  present ← gets (λ w. agent_exists w scope_id peer)
  ensure present ErrorCode.not_found

abbrev pub link_created : String × String → PendingEvent
link_created (a, b) = record {
  event_type = "link.created";
  subject_id = a +++ (":" +++ b);
  attributes =
      event_attributes (("leftAgent", Attribute.text a) ∷ ("rightAgent", Attribute.text b) ∷ []);
}

-- The rows that are new, each with its event.
unfoldable pub insert_peer_links : String → String → ℕ → List String → Tx (List PendingEvent)
insert_peer_links scope_id agent_id now [] = pure []
insert_peer_links scope_id agent_id now (peer ∷ peers) = do
  created ← insert_link scope_id (ordered_peers agent_id peer) now
  rest ← insert_peer_links scope_id agent_id now peers
  pure (if created then link_created (ordered_peers agent_id peer) ∷ rest else rest)

unfoldable pub link_registered_peers : String → String → List String → ℕ → Tx (Unit {0})
link_registered_peers scope_id agent_id peers now = do
  for_each peers (refuse_self agent_id)
  for_each peers (require_agent scope_id)
  events ← insert_peer_links scope_id agent_id now peers
  append_events scope_id events now

pub record RegisterAgentResult : Type 0 where
  pub identity : Principal
  pub agent_token : String
  pub lease_expires_at : ℕ

unfoldable pub agent_id_for : String → Tx String
agent_id_for id = if id is "" then random_id "agent_" else pure id

-- registerAgentTx
unfoldable pub register_agent_tx : String → RegisterAgentInput → Tx RegisterAgentResult
register_agent_tx scope_id input = do
  agent_id ← agent_id_for input.id
  execution_id ← random_id "exec_"
  agent_token ← random_id ""
  token_hash ← gets (λ w. w.hashes.token_digest agent_token)
  now ← now_millis
  upsert_agent scope_id agent_id input execution_id token_hash now
  release_agent_reservations scope_id agent_id
  release_stale_task_claims scope_id
  touch_publications scope_id agent_id now
  append_event scope_id "agent.registered" agent_id
      (("executionId", Attribute.text execution_id)
        ∷ ("lifecycle", Attribute.text (lifecycle_text AgentLifecycle.starting))
        ∷ ("ready", Attribute.text "false")
        ∷ ("leaseExpiresAt", Attribute.instant (now + input.lease_ms))
        ∷ [])
      now
  peers ← peers_to_link scope_id agent_id input now
  link_registered_peers scope_id agent_id peers now
  pure (record {
    identity = record { scope_id = scope_id; agent_id = agent_id; execution_id = execution_id };
    agent_token = agent_token;
    lease_expires_at = now + input.lease_ms;
  })

-- Store.RegisterAgent
unfoldable pub register_agent : Context → String → RegisterAgentInput → Tx RegisterAgentResult
register_agent c scope_id input = do begin_tx c; register_agent_tx scope_id input

-- CurrentAgentToken: the execution that owns a token now, whatever its lease.
unfoldable pub owner_of_token : World → String → Option AgentRow
owner_of_token w supplied =
    find (λ (a : AgentRow). a.token_hash is w.hashes.token_digest supplied) w.agents

unfoldable pub current_agent_token : String → Tx AgentRow
current_agent_token supplied = do
  found ← gets (λ w. owner_of_token w supplied)
  or_fail found ErrorCode.unauthenticated

-- Store.AuthenticateAgent
unfoldable pub authenticate_agent : String → Tx Principal
authenticate_agent supplied = do
  a ← current_agent_token supplied
  now ← now_millis
  ensure (ltb now a.lease_expires_at) ErrorCode.unauthenticated
  pure (record { scope_id = a.scope_id; agent_id = a.agent_id; execution_id = a.execution_id })

-- Store.AuthenticateScope
unfoldable pub authenticate_scope : String → Tx String
authenticate_scope supplied = do
  found ←
      gets (λ w. find (λ (r : ScopeRow). r.token_hash is w.hashes.token_digest supplied) w.scopes)
  r ← or_fail found ErrorCode.unauthenticated
  pure r.scope_id

-- scanAgent: an agent whose lease has run out is shown offline and not ready.
pub record Agent : Type 0 where
  pub row : AgentRow
  pub lifecycle : AgentLifecycle
  pub ready : Bool
  pub reachable : Bool

unfoldable pub scan_agent : ℕ → AgentRow → Agent
scan_agent now a =
    let reachable : Bool =
      ltb now a.lease_expires_at && not (same_lifecycle a.lifecycle AgentLifecycle.offline) in
    record {
      row = a;
      lifecycle = if reachable then a.lifecycle else AgentLifecycle.offline;
      ready = reachable && a.ready;
      reachable = reachable;
    }

abbrev pub is_execution : Principal → AgentRow → Bool
is_execution p a = is_agent p.scope_id p.agent_id a && (a.execution_id is p.execution_id)

abbrev pub heartbeat_row : HeartbeatInput → ℕ → AgentRow → AgentRow
heartbeat_row input now a = record a {
  lifecycle = input.lifecycle;
  ready = input.ready;
  lease_expires_at = now + input.lease_ms;
  updated_at = now;
}

abbrev same_flag : Bool → Bool → Bool
same_flag true b = b
same_flag false b = not b

-- Store.Heartbeat
unfoldable pub heartbeat : Context → Principal → HeartbeatInput → Tx (Agent × Bool)
heartbeat c p input = do
  begin_tx c
  now ← now_millis
  require_current_execution p now
  found ← gets (λ w. find (is_execution p) w.agents)
  previous ← or_fail found ErrorCode.unauthenticated
  changed ← update_agents (is_execution p) (heartbeat_row input now)
  ensure (changed == 1) ErrorCode.unauthenticated
  let state_changed =
      not
        (same_lifecycle previous.lifecycle input.lifecycle && same_flag previous.ready input.ready)
  when state_changed (
      append_event p.scope_id "agent.lifecycle_changed" p.agent_id
        (("executionId", Attribute.text p.execution_id)
          ∷ ("lifecycle", Attribute.text (lifecycle_text input.lifecycle))
          ∷ ("ready", Attribute.flag input.ready)
          ∷ ("leaseExpiresAt", Attribute.instant (now + input.lease_ms))
          ∷ [])
        now)
  row ← gets (λ w. agent_row w p.scope_id p.agent_id)
  a ← or_fail row ErrorCode.internal
  later ← now_millis
  pure (scan_agent later a, state_changed)

abbrev pub retired_row : ℕ → AgentRow → AgentRow
retired_row now a = record a {
  lifecycle = AgentLifecycle.offline;
  ready = false;
  lease_expires_at = 0;
  updated_at = now;
}

-- The part of RetireAgent for a lease that is not 0.
unfoldable pub end_execution : AgentRow → Tx (Unit {0})
end_execution a = do
  now ← now_millis
  update_agents (is_agent a.scope_id a.agent_id) (retired_row now)
  release_agent_reservations a.scope_id a.agent_id
  release_stale_task_claims a.scope_id
  append_event a.scope_id "agent.lifecycle_changed" a.agent_id
      (("executionId", Attribute.text a.execution_id)
        ∷ ("lifecycle", Attribute.text "offline")
        ∷ ("ready", Attribute.text "false")
        ∷ ("reason", Attribute.text "retired")
        ∷ [])
      now

-- Store.RetireAgent takes an expired token too, but never a replaced one.
unfoldable pub retire_agent : Context → String → Tx Principal
retire_agent c token = do
  current ← current_agent_token token
  begin_tx c
  a ← current_agent_token token
  when (not (a.lease_expires_at == 0)) (end_execution a)
  pure (record { scope_id = a.scope_id; agent_id = a.agent_id; execution_id = a.execution_id })
