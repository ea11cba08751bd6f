-- ===== src/Session.antt =====
-- bus/scope_authority.go and the execution check of bus/store.go: by what authority a transaction
-- runs, on the local engine, where the hosted checks return at once.
pub mod Evolution
pub mod Reads
pub mod Frame
pub mod Current
use october_bus.Base.{ℕ, String, Bool, true, false, Option, none, some, ◌&&◌, ltb, ◌is◌}
use october_bus.Protocol.{ErrorCode, Principal}
use october_bus.World.{World, AgentRow, ScopeRow}
use october_bus.Rows.{find, exists}
use october_bus.Tx.{Tx, ◌>>=◌, ◌>>◌, pure, gets, or_fail, ensure, now_millis}

-- The values that the request's context carries: the digest of a scope's token, and an execution.
pub record Context : Type 0 where
  pub scope_credential : Option String
  pub execution : Option Principal

abbrev pub is_agent : String → String → AgentRow → Bool
is_agent scope_id agent_id a = (a.scope_id is scope_id) && (a.agent_id is agent_id)

unfoldable pub agent_row : World → String → String → Option AgentRow
agent_row w scope_id agent_id = find (is_agent scope_id agent_id) w.agents

-- The execution holds the agent, and its lease has not run out.
unfoldable pub holds_agent : Principal → ℕ → AgentRow → Bool
holds_agent p now a = (a.execution_id is p.execution_id) && ltb now a.lease_expires_at

unfoldable pub require_current_execution : Principal → ℕ → Tx (Unit {0})
require_current_execution p now = do
  found ← gets (λ w. agent_row w p.scope_id p.agent_id)
  a ← or_fail found ErrorCode.unauthenticated
  ensure (holds_agent p now a) ErrorCode.unauthenticated

check_credential : Option String → Tx (Unit {0})
check_credential none = pure tt
check_credential (some digest) = do
  known ← gets (λ w. exists (λ (r : ScopeRow). r.token_hash is digest) w.scopes)
  ensure known ErrorCode.unauthenticated

check_execution : Option Principal → Tx (Unit {0})
check_execution none = pure tt
check_execution (some p) = do now ← now_millis; require_current_execution p now

unfoldable pub begin_tx : Context → Tx (Unit {0})
unfolding check_credential check_execution
begin_tx c = do check_credential c.scope_credential; check_execution c.execution
