-- ===== src/Agents/Fencing.antt =====
-- A new registration of an agent shuts its former executions out.
use october_bus.Base.{
  ℕ, String, Bool, true, false, some, List, [], ◌∷◌, ◌++◌, ◌≡◌, ◌≢◌, refl, sym, ◌∙◌, arith, ap,
  ◌is◌, eq_iff, Bool-cases, inl, inr,
}
use october_bus.Protocol.{ErrorCode, Principal, RegisterAgentInput}
use october_bus.World.{World, AgentRow}
use october_bus.Rows.{find, exists, update}
use october_bus.Rows.Laws.{find-update, find_sound}
use october_bus.Tx.{
  ok, err, ◌>>=◌, gets, or_fail, ensure, now_millis, random_id, update_agents, insert_agent,
}
use october_bus.Tx.Keeps.{ok_world}
use october_bus.Tx.Frame.{still-append_event}
use october_bus.Tx.Success.{through, through_gets, pure-ok}
use october_bus.Events.{append_event}
use october_bus.Session.{
  agent_row, is_agent, holds_agent, require_current_execution, begin_tx, Context,
}
use october_bus.Peers.{agent_exists}
use october_bus.Tasks.{release_stale_task_claims}
use october_bus.Agents.Quiet.{
  table, table-IsApart, still-link_registered_peers, still-peers_to_link, still-touch_publications,
  still-release_stale_task_claims, still-release_agent_reservations,
}
use october_bus.Agents.{
  RegisterAgentResult, upsert_agent, new_agent, registered_row, release_agent_reservations,
  touch_publications, peers_to_link, link_registered_peers, agent_id_for, register_agent_tx,
  register_agent,
}

find-append :
    (p : AgentRow → Bool) (rows : List AgentRow) (r : AgentRow)
    → exists p rows ≡ false
    → p r ≡ true
    → find p (rows ++ r ∷ []) ≡ some r
unfolding find exists
find-append p [] r h k = rw k refl
find-append p (x ∷ rows) r h k = ground (arith, find-append p rows r)

exists-find :
    (p : AgentRow → Bool) (rows : List AgentRow)
    → exists p rows ≡ true
    → (r : AgentRow) × (find p rows ≡ some r)
unfolding find exists
exists-find p [] h = cc
exists-find p (x ∷ rows) h = elim (Bool-cases (p x)) [
  | inl e ↦ (x, rw e refl)
  | inr e ↦ (let (r, f) = exists-find p rows (rw e at h) in (r, rw e f))
]

-- The row of the agent carries the execution `e`.
abbrev pub IsCarriedBy : String → String → String → World → Type 0
IsCarriedBy s id e w = (r : AgentRow) × (agent_row w s id ≡ some r) × (r.execution_id ≡ e)

is_refl : (s : String) → (s is s) ≡ true
is_refl s = (eq_iff s s).1 refl

self : (s id : String) (r : AgentRow) → r.scope_id ≡ s → r.agent_id ≡ id → is_agent s id r ≡ true
self s id r e f = rw (e, f, is_refl s, is_refl id) refl

update_agents-ok :
    (p : AgentRow → Bool) (f : AgentRow → AgentRow) (w : World) (n : ℕ) (w' : World)
    → update_agents p f w ≡ ok n w'
    → w'.agents ≡ update p f w.agents
unfolding update_agents
update_agents-ok p f w n w' h = sym (ap table (ok_world h))

insert_agent-ok :
    (r : AgentRow) (w : World) (u : Unit {0}) (w' : World)
    → insert_agent r w ≡ ok u w'
    → w'.agents ≡ w.agents ++ r ∷ []
unfolding insert_agent
insert_agent-ok r w u w' h = sym (ap table (ok_world h))

upsert_agent-IsCarriedBy :
    (s id : String) (input : RegisterAgentInput) (e hash : String) (now : ℕ) (w : World)
    (u : Unit {0}) (w' : World)
    → upsert_agent s id input e hash now w ≡ ok u w'
    → IsCarriedBy s id e w'
unfolding upsert_agent agent_row agent_exists new_agent
upsert_agent-IsCarriedBy s id input e hash now w u w' h =
    elim (Bool-cases (exists (is_agent s id) w.agents)) [
      | inl k ↦
          through (update_agents (is_agent s id) _) _ (rw k at (through_gets _ _ h)) λ n v e₁ h₁.
            let (r, f) = exists-find (is_agent s id) w.agents k in
            let rows = update_agents-ok (is_agent s id) _ w n v e₁ in
            (
              registered_row input e hash now r,
              ap (λ v. find (is_agent s id) (table v)) (sym (pure-ok h₁).1)
                  ∙ ap (find (is_agent s id)) rows
                  ∙ find-update (is_agent s id) (is_agent s id) _ (λ x q. refl) w.agents r f
                      (find_sound (is_agent s id) w.agents r f),
              refl,
            )
      | inr k ↦ (
        new_agent s id input e hash now,
        ap (find (is_agent s id)) (insert_agent-ok _ w u w' (rw k at (through_gets _ _ h)))
            ∙ find-append (is_agent s id) w.agents (new_agent s id input e hash now) k
                (self s id (new_agent s id input e hash now) refl refl),
        refl,
      )
    ]

carried_on :
    (s id e : String) (v w : World) (row : AgentRow) (r : RegisterAgentResult) (token : String)
    (lease : ℕ)
    → agent_row v s id ≡ some row
    → row.execution_id ≡ e
    → w.agents ≡ v.agents
    → record {
      identity = record { scope_id = s; agent_id = id; execution_id = e };
      agent_token = token;
      lease_expires_at = lease;
    }
      ≡ r
    → IsCarriedBy s r.identity.agent_id r.identity.execution_id w × (r.identity.scope_id ≡ s)
unfolding agent_row
carried_on s id e v w row r token lease found carried same result = (
  (
    row,
    ap (find (is_agent s r.identity.agent_id)) same
        ∙ ap (λ (x : RegisterAgentResult). find (is_agent s x.identity.agent_id) v.agents)
            (sym result)
        ∙ found,
    carried ∙ ap (λ (x : RegisterAgentResult). x.identity.execution_id) result,
  ),
  ap (λ (x : RegisterAgentResult). x.identity.scope_id) (sym result),
)

-- From the upsert on, a registration leaves the agents alone, so the row keeps the new execution.
pub register_agent-IsCarriedBy :
    (c : Context) (s : String) (input : RegisterAgentInput) (w : World) (r : RegisterAgentResult)
    (w' : World)
    → register_agent c s input w ≡ ok r w'
    → IsCarriedBy s r.identity.agent_id r.identity.execution_id w' × (r.identity.scope_id ≡ s)
unfolding register_agent register_agent_tx
register_agent-IsCarriedBy c s input w r w' h = through (begin_tx c) _ h λ u₁ w₁ e₁ h₁.
    through (agent_id_for input.id) _ h₁ λ id w₂ e₂ h₂.
      through (random_id "exec_") _ h₂ λ e w₃ e₃ h₃. through (random_id "") _ h₃ λ token w₄ e₄ h₄.
        through now_millis _ (through_gets _ _ h₄) λ now w₅ e₅ h₅.
          through (upsert_agent s id input e _ now) _ h₅ λ u₆ w₆ e₆ h₆.
            through (release_agent_reservations s id) _ h₆ λ u₇ w₇ e₇ h₇.
              through (release_stale_task_claims s) _ h₇ λ u₈ w₈ e₈ h₈.
                through (touch_publications s id now) _ h₈ λ u₉ w₉ e₉ h₉.
                  through (append_event s _ id _ now) _ h₉ λ u₁₀ w₁₀ e₁₀ h₁₀.
                    through (peers_to_link s id input now) _ h₁₀ λ peers w₁₁ e₁₁ h₁₁.
                      through (link_registered_peers s id peers now) _ h₁₁ λ u₁₂ w₁₂ e₁₂ h₁₂.
                        let (row, found, carried) =
                          upsert_agent-IsCarriedBy s id input e _ now w₅ u₆ w₆ e₆ in
                        let (f, g) = pure-ok h₁₂ in
                        let same : w₁₂.agents ≡ w₆.agents =
                          (still-link_registered_peers s id peers now).at w₁₁ u₁₂ w₁₂ e₁₂
                          ∙ (still-peers_to_link s id input now).at w₁₀ peers w₁₁ e₁₁
                          ∙ (still-append_event table table-IsApart s _ id _ now).at w₉ u₁₀ w₁₀ e₁₀
                          ∙ (still-touch_publications s id now).at w₈ u₉ w₉ e₉
                          ∙ (still-release_stale_task_claims s).at w₇ u₈ w₈ e₈
                          ∙ (still-release_agent_reservations s id).at w₆ u₇ w₇ e₇ in
                        carried_on s id e w₆ w' row r _ _ found carried (ap table (sym g) ∙ same) f

-- An execution that does not carry the agent any more is refused, at any time.
replaced :
    (p : Principal) (e : String) (now : ℕ) (w : World)
    → IsCarriedBy p.scope_id p.agent_id e w
    → p.execution_id ≢ e
    → require_current_execution p now w ≡ err ErrorCode.unauthenticated
unfolding require_current_execution ◌>>=◌ gets or_fail ensure holds_agent
replaced p e now w (row, found, carried) other =
    rw (found, carried) (ground (arith, eq_iff e p.execution_id))

-- Once an agent is registered anew, every other execution of it is refused, at any time.
pub register_agent-replaces :
    (c : Context) (s : String) (input : RegisterAgentInput) (w : World) (r : RegisterAgentResult)
    (w' : World) (execution_id : String) (now : ℕ)
    → register_agent c s input w ≡ ok r w'
    → execution_id ≢ r.identity.execution_id
    → require_current_execution
        (record { scope_id = s; agent_id = r.identity.agent_id; execution_id = execution_id })
        now
        w'
      ≡ err ErrorCode.unauthenticated
register_agent-replaces c s input w r w' execution_id now h other =
    replaced (record { scope_id = s; agent_id = r.identity.agent_id; execution_id = execution_id })
      r.identity.execution_id now w' (register_agent-IsCarriedBy c s input w r w' h).0 other
