-- ===== src/Agents/Evolution.antt =====
-- Registering, keeping alive and retiring an agent, and linking agents, along the steps of the tables.
use october_bus.Base.{ℕ, String, true, List, [], ◌∷◌, ◌≡◌, refl, arith, ◌is◌, ◌&&◌, eq_iff}
use october_bus.Protocol.{Principal, RegisterAgentInput, HeartbeatInput}
use october_bus.World.{AgentRow, PublicationRow}
use october_bus.Tx.Keeps.{Keeps, keeps_rules, Keeps-bind, Keeps-pure}
use october_bus.Evolution.{evolution}
use october_bus.Evolution.Steps.{AgentStep, PublicationStep}
use october_bus.Evolution.Statements.{statement_rules}
use october_bus.Events.Evolution.{append_event-Evolves, append_events-Evolves}
use october_bus.Session.{Context, is_agent}
use october_bus.Session.Evolution.{begin_tx-Evolves, require_current_execution-Evolves}
use october_bus.Peers.{ordered_peers, insert_link, link_agents_tx, link_event, link_agents}
use october_bus.Delivery.Evolution.{release_reservation-Evolves}
use october_bus.Tasks.Evolution.{release_stale_task_claims-Evolves}
use october_bus.Agents.{
  registered_row, new_agent, upsert_agent, release_agent_reservations, touch_publications,
  peers_to_link, refuse_self, require_agent, insert_peer_links, link_registered_peers, agent_id_for,
  register_agent_tx, register_agent, current_agent_token, is_execution, heartbeat_row, heartbeat,
  retired_row, end_execution,
}

agent-here : (s id : String) (a : AgentRow) → is_agent s id a ≡ true → (a.scope_id is s) ≡ true
agent-here s id a h = ground arith

registered-AgentStep :
    (s id : String) (input : RegisterAgentInput) (execution hash : String) (now : ℕ) (a : AgentRow)
    → is_agent s id a ≡ true
    → AgentStep s a (registered_row input execution hash now a)
registered-AgentStep s id input execution hash now a h = record {
  elsewhere = ground (arith, agent-here s id a h, eq_iff a.scope_id s);
  same_scope = refl;
  same_agent = refl;
}

heartbeat-AgentStep :
    (p : Principal) (input : HeartbeatInput) (now : ℕ) (a : AgentRow)
    → is_execution p a ≡ true
    → AgentStep p.scope_id a (heartbeat_row input now a)
heartbeat-AgentStep p input now a h = record {
  elsewhere = ground (arith, eq_iff a.scope_id p.scope_id);
  same_scope = refl;
  same_agent = refl;
}

retired-AgentStep :
    (s id : String) (now : ℕ) (a : AgentRow)
    → is_agent s id a ≡ true
    → AgentStep s a (retired_row now a)
retired-AgentStep s id now a h = record {
  elsewhere = ground (arith, agent-here s id a h, eq_iff a.scope_id s);
  same_scope = refl;
  same_agent = refl;
}

new_agent-here :
    (s id : String) (input : RegisterAgentInput) (execution hash : String) (now : ℕ)
    → (new_agent s id input execution hash now).scope_id ≡ s
unfolding new_agent
new_agent-here s id input execution hash now = refl

ruleset agent_rules = (
  keeps_rules, statement_rules, append_event-Evolves, append_events-Evolves, begin_tx-Evolves,
  require_current_execution-Evolves, release_reservation-Evolves, release_stale_task_claims-Evolves,
  registered-AgentStep, heartbeat-AgentStep, retired-AgentStep, new_agent-here,
)

module _ (s : String) where
  upsert_agent-Evolves :
      (id : String) (input : RegisterAgentInput) (execution hash : String) (now : ℕ)
      → Keeps (evolution s) (upsert_agent s id input execution hash now)
  unfolding upsert_agent
  upsert_agent-Evolves id input execution hash now = search agent_rules depth 12

  release_agent_reservations-Evolves :
      (id : String) → Keeps (evolution s) (release_agent_reservations s id)
  unfolding release_agent_reservations
  release_agent_reservations-Evolves id = search agent_rules

  touched :
      (id : String) (now : ℕ) (r : PublicationRow)
      → ((r.scope_id is s) && (r.agent_id is id)) ≡ true
      → PublicationStep s r (record r { updated_at = now })
  touched id now r h = record { elsewhere = ground (arith, eq_iff r.scope_id s); content = refl }

  touch_publications-Evolves :
      (id : String) (now : ℕ) → Keeps (evolution s) (touch_publications s id now)
  unfolding touch_publications
  touch_publications-Evolves id now = search (agent_rules, touched)

  peers_to_link-Evolves :
      (id : String) (input : RegisterAgentInput) (now : ℕ)
      → Keeps (evolution s) (peers_to_link s id input now)
  unfolding peers_to_link
  peers_to_link-Evolves id input now = search keeps_rules depth 8

  refuse_self-Evolves : (id peer : String) → Keeps (evolution s) (refuse_self id peer)
  unfolding refuse_self
  refuse_self-Evolves id peer = search keeps_rules

  require_agent-Evolves : (peer : String) → Keeps (evolution s) (require_agent s peer)
  unfolding require_agent
  require_agent-Evolves peer = search keeps_rules

  insert_link-Evolves :
      (pair : String × String) (now : ℕ) → Keeps (evolution s) (insert_link s pair now)
  unfolding insert_link
  insert_link-Evolves (a, b) now = search (keeps_rules, statement_rules) depth 8

  insert_peer_links-Evolves :
      (id : String) (now : ℕ) (peers : List String)
      → Keeps (evolution s) (insert_peer_links s id now peers)
  unfolding insert_peer_links
  insert_peer_links-Evolves id now [] = search keeps_rules
  insert_peer_links-Evolves id now (peer ∷ peers) =
      Keeps-bind _ _ _ (insert_link-Evolves (ordered_peers id peer) now)
        λ created. Keeps-bind _ _ _ (insert_peer_links-Evolves id now peers) λ rest. Keeps-pure _ _

  link_registered_peers-Evolves :
      (id : String) (peers : List String) (now : ℕ)
      → Keeps (evolution s) (link_registered_peers s id peers now)
  unfolding link_registered_peers
  link_registered_peers-Evolves id peers now =
      search (agent_rules, refuse_self-Evolves, require_agent-Evolves, insert_peer_links-Evolves)
        depth 12

  agent_id_for-Evolves : (id : String) → Keeps (evolution s) (agent_id_for id)
  unfolding agent_id_for
  agent_id_for-Evolves id = search agent_rules

  register_agent_tx-Evolves :
      (input : RegisterAgentInput) → Keeps (evolution s) (register_agent_tx s input)
  unfolding register_agent_tx
  register_agent_tx-Evolves input =
      search
        (
          agent_rules, agent_id_for-Evolves, upsert_agent-Evolves,
          release_agent_reservations-Evolves, touch_publications-Evolves, peers_to_link-Evolves,
          link_registered_peers-Evolves,
        )
        depth 40

  pub register_agent-Evolves :
      (c : Context) (input : RegisterAgentInput) → Keeps (evolution s) (register_agent c s input)
  unfolding register_agent
  register_agent-Evolves c input = search (agent_rules, register_agent_tx-Evolves)

  link_agents_tx-Evolves : (l r : String) (now : ℕ) → Keeps (evolution s) (link_agents_tx s l r now)
  unfolding link_agents_tx
  link_agents_tx-Evolves l r now = search (keeps_rules, insert_link-Evolves) depth 16

  link_event-Evolves :
      (pair : String × String) (now : ℕ) → Keeps (evolution s) (link_event s pair now)
  unfolding link_event
  link_event-Evolves (a, b) now = search agent_rules

  pub link_agents-Evolves : (c : Context) (l r : String) → Keeps (evolution s) (link_agents c s l r)
  unfolding link_agents
  link_agents-Evolves c l r =
      search (agent_rules, link_agents_tx-Evolves, link_event-Evolves) depth 12

  pub current_agent_token-Evolves : (t : String) → Keeps (evolution s) (current_agent_token t)
  unfolding current_agent_token
  current_agent_token-Evolves t = search keeps_rules

pub heartbeat-Evolves :
    (c : Context) (p : Principal) (input : HeartbeatInput)
    → Keeps (evolution p.scope_id) (heartbeat c p input)
unfolding heartbeat
heartbeat-Evolves c p input = search agent_rules depth 32

pub end_execution-Evolves : (a : AgentRow) → Keeps (evolution a.scope_id) (end_execution a)
unfolding end_execution
end_execution-Evolves a = search (agent_rules, release_agent_reservations-Evolves) depth 16
