-- ===== src/Session/Current.antt =====
-- What an operation that runs for an execution has checked before it starts its work.
use october_bus.Base.{
  ℕ, zero, suc, ◌+◌, ◌<◌, String, true, Option, none, some, ◌≡◌, refl, sym, ap, ◌∙◌, subst, arith,
  eq_iff,
}
use october_bus.Protocol.{Principal}
use october_bus.World.{World, AgentRow}
use october_bus.Tx.{ok, now_millis}
use october_bus.Tx.Keeps.{Guarantee, Keeps, keeps_rules, ok_world}
use october_bus.Tx.Success.{through_gets, through_or_fail, ensure-ok}
use october_bus.Session.{
  Context, agent_row, holds_agent, require_current_execution, check_credential, check_execution,
  begin_tx,
}

-- The world after `n` readings of the clock: everything but the clock is as before.
abbrev pub later : ℕ → World → World
later zero w = w
later (suc n) w = later n (record w { clock = λ k. w.clock (suc k) })

later_trans : (m n : ℕ) (w : World) → later n (later m w) ≡ later (m + n) w
later_trans zero n w = let same : n ≡ 0 + n = omega arith in ap (λ k. later k w) same
later_trans (suc m) n w =
    let same : suc (m + n) ≡ suc m + n = omega arith in
    later_trans m n (record w { clock = λ k. w.clock (suc k) }) ∙ ap (λ k. later k w) same

abbrev WaitedFor : World → World → Type 0
WaitedFor v w = (n : ℕ) × (w ≡ later n v)

abbrev waiting : Guarantee
waiting = record {
  Rel = WaitedFor;
  rel_refl = λ w. (0, refl);
  rel_trans = λ u v w g h. (g.0 + h.0, h.1 ∙ ap (later h.0) g.1 ∙ later_trans g.0 h.0 u);
}

now_millis-waits : Keeps waiting now_millis
unfolding now_millis
now_millis-waits = record { at = λ w a w' h. (1, sym (ok_world h)) }

require_current_execution-waits :
    (p : Principal) (now : ℕ) → Keeps waiting (require_current_execution p now)
unfolding require_current_execution
require_current_execution-waits p now = search keeps_rules

check_credential-waits : (c : Option String) → Keeps waiting (check_credential c)
unfolding check_credential
check_credential-waits none = search keeps_rules
check_credential-waits (some d) = search keeps_rules

check_execution-waits : (p : Option Principal) → Keeps waiting (check_execution p)
unfolding check_execution
check_execution-waits none = search keeps_rules
check_execution-waits (some p) =
    search (keeps_rules, now_millis-waits, require_current_execution-waits)

begin_tx-waits : (c : Context) → Keeps waiting (begin_tx c)
unfolding begin_tx
begin_tx-waits c = search (keeps_rules, check_credential-waits, check_execution-waits)

-- What does not depend on the clock is the same later.
pub later_same :
    {A : Type 0} (get : World → A)
    → ((w : World) (c : ℕ → ℕ) → get (record w { clock = c }) ≡ get w)
    → (n : ℕ) (w : World) → get (later n w) ≡ get w
later_same get same zero w = refl
later_same get same (suc n) w =
    later_same get same n (record w { clock = λ k. w.clock (suc k) }) ∙ same w _

-- The row of the agent carries the execution, and its lease lasts beyond a reading of the clock.
pub record IsCurrent (p : Principal) (w : World) : Type 0 where
  pub agent : AgentRow
  pub found : agent_row w p.scope_id p.agent_id ≡ some agent
  pub executes : agent.execution_id ≡ p.execution_id
  pub readings : ℕ
  pub in_time : (later readings w).clock 0 < agent.lease_expires_at

holds_agent-ok :
    (p : Principal) (now : ℕ) (a : AgentRow)
    → holds_agent p now a ≡ true
    → (a.execution_id ≡ p.execution_id) × (now < a.lease_expires_at)
unfolding holds_agent
holds_agent-ok p now a h =
    ((eq_iff a.execution_id p.execution_id).0 (ground (arith, h)), ground (arith, h))

now_millis-ok : (w : World) (t : ℕ) (w' : World) → now_millis w ≡ ok t w' → t ≡ w.clock 0
unfolding now_millis
now_millis-ok w t w' h = cc

agent_row_later :
    (p : Principal) (v : World) (k : ℕ → ℕ)
    → agent_row (record v { clock = k }) p.scope_id p.agent_id ≡ agent_row v p.scope_id p.agent_id
unfolding agent_row
agent_row_later p v k = refl

-- An operation that has begun, read the clock and checked its execution runs for a current one, and
-- nothing but the clock has changed.
pub begun :
    (c : Context) (p : Principal) (w : World) (u : Unit {0}) (w₁ : World) (now : ℕ) (w₂ : World)
    (x : Unit {0}) (w₃ : World)
    → begin_tx c w ≡ ok u w₁
    → now_millis w₁ ≡ ok now w₂
    → require_current_execution p now w₂ ≡ ok x w₃
    → IsCurrent p w × (n : ℕ) × (w₃ ≡ later n w)
unfolding require_current_execution
begun c p w u w₁ now w₂ x w₃ e₁ e₂ e₃ =
    let began = (begin_tx-waits c).at w u w₁ e₁ in
    let read = now_millis-waits.at w₁ now w₂ e₂ in
    let there = waiting.rel_trans w w₁ w₂ began read in
    through_or_fail _ _ _ (through_gets _ _ e₃) λ a found h.
      let (held, same) = ensure-ok _ (holds_agent p now a) h in
      let (mine, lease) = holds_agent-ok p now a held in
      (
        record {
          agent = a;
          found =
              sym
                (later_same (λ v. agent_row v p.scope_id p.agent_id) (agent_row_later p) there.0 w)
              ∙ ap (λ v. agent_row v p.scope_id p.agent_id) (sym there.1)
              ∙ found;
          executes = mine;
          readings = began.0;
          in_time =
              subst (λ t. t < a.lease_expires_at)
                (now_millis-ok w₁ now w₂ e₂ ∙ ap (λ (v : World). v.clock 0) began.1) lease;
        },
        there.0,
        sym same ∙ there.1,
      )
