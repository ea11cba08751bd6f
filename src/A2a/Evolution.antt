-- ===== src/A2a/Evolution.antt =====
-- Moving a remote principal's task never takes it out of a terminal state.
use october_bus.Base.{
  ℕ, String, Bool, true, false, not, Option, none, some, ◌≡◌, refl, arith, ◌&&◌, ◌||◌, ◌is◌, eq_iff,
}
use october_bus.Protocol.{A2aTaskState, same_a2a_state}
use october_bus.World.{A2aTaskRow}
use october_bus.Tx.Keeps.{Keeps, keeps_rules}
use october_bus.Evolution.{evolution}
use october_bus.Evolution.Steps.{A2aTaskStep}
use october_bus.Evolution.Statements.{statement_rules}
use october_bus.Events.Evolution.{append_event-Evolves}
use october_bus.A2a.States.{a2a_task_terminal}
use october_bus.A2a.{
  apply_transition, transition_found, transition_a2a_task_for_message, fail_unfinished,
  complete_answered, start_submitted,
}

-- `next` moves only tasks that are not terminal.
abbrev pub SparesTerminal : (A2aTaskState → A2aTaskState × Bool) → Type 0
SparesTerminal next =
    (state : A2aTaskState) → (next state).1 ≡ true → a2a_task_terminal state ≡ false

pub fail_unfinished-SparesTerminal : SparesTerminal fail_unfinished
unfolding fail_unfinished
fail_unfinished-SparesTerminal state h = ground arith

pub complete_answered-SparesTerminal : SparesTerminal complete_answered
unfolding complete_answered
complete_answered-SparesTerminal state h = ground arith

pub start_submitted-SparesTerminal : SparesTerminal start_submitted
unfolding start_submitted a2a_task_terminal
start_submitted-SparesTerminal state h = ground arith

moved :
    (s : String) (t u : A2aTaskRow) (state : A2aTaskState) (now : ℕ)
    → a2a_task_terminal t.state ≡ false
    → ((u.scope_id is s) && ((u.task_id is t.task_id) && same_a2a_state u.state t.state)) ≡ true
    → A2aTaskStep s u (record u { state = state; updated_at = now })
unfolding a2a_task_terminal
moved s t u state now alive h = record {
  elsewhere = ground (arith, eq_iff u.scope_id s);
  content = refl;
  final = ground arith;
}

module _ (s : String) (t : A2aTaskRow) (state : A2aTaskState) (changed : Bool) (now : ℕ) where
  apply_transition-Evolves :
      (changed ≡ true → a2a_task_terminal t.state ≡ false)
      → Keeps (evolution s) (apply_transition s t (state, changed) now)
  unfolding apply_transition
  apply_transition-Evolves alive = search (
    keeps_rules,
    statement_rules,
    append_event-Evolves,
    λ (u : A2aTaskRow) (h : not changed || same_a2a_state state t.state ≡ false).
        moved s t u state now (alive (ground arith)),
  )

transition_found-Evolves :
    (s : String) (next : A2aTaskState → A2aTaskState × Bool) (now : ℕ)
    → SparesTerminal next
    → (found : Option A2aTaskRow) → Keeps (evolution s) (transition_found s next now found)
unfolding transition_found
transition_found-Evolves s next now spares none = search keeps_rules
transition_found-Evolves s next now spares (some t) =
    apply_transition-Evolves s t (next t.state).0 (next t.state).1 now (spares t.state)

pub transition-Evolves :
    (s message_id : String) (next : A2aTaskState → A2aTaskState × Bool) (now : ℕ)
    → SparesTerminal next
    → Keeps (evolution s) (transition_a2a_task_for_message s message_id next now)
unfolding transition_a2a_task_for_message
transition-Evolves s message_id next now spares =
    search (keeps_rules, transition_found-Evolves s next now spares)
