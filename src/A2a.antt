-- ===== src/A2a.antt =====
-- bus/a2a_tasks.go: how messages move the task of a remote principal.
pub mod States
pub mod Transitions
pub mod Evolution
unfoldable pub use States.{a2a_task_terminal, valid_a2a_task_transition}
use october_bus.Base.{
  ℕ, String, Bool, true, false, not, Option, none, some, List, [], ◌∷◌, ◌&&◌, ◌||◌, ◌==◌, ◌is◌,
  if◌then◌else◌,
}
use october_bus.Protocol.{ErrorCode, A2aTaskState, same_a2a_state, a2a_state_text}
use october_bus.World.{World, A2aTaskRow, CorrelationRow, Attribute}
use october_bus.Rows.{find, exists}
use october_bus.Tx.{Tx, ◌>>=◌, ◌>>◌, pure, gets, ensure, update_a2a_tasks}
use october_bus.Events.{append_event}

-- transitionA2ATaskForMessage: the task that a message belongs to moves on, unless `next` says no.
abbrev pub carries_message : World → String → String → A2aTaskRow → Bool
carries_message w scope_id message_id t =
    (t.scope_id is scope_id)
    && exists
        (λ (c : CorrelationRow).
          (c.task_id is t.task_id) && (c.bus_request_message_id is message_id))
        w.correlations

unfoldable pub apply_transition : String → A2aTaskRow → A2aTaskState × Bool → ℕ → Tx (Unit {0})
apply_transition scope_id t (state, changed) now =
    if not changed || same_a2a_state state t.state then pure tt else do
      n ←
          update_a2a_tasks
            (λ u.
              (u.scope_id is scope_id)
              && ((u.task_id is t.task_id) && same_a2a_state u.state t.state))
            (λ u. record u { state = state; updated_at = now })
      ensure (n == 1) ErrorCode.conflict
      append_event scope_id "a2a.task_state_changed" t.task_id
          (("publicationId", Attribute.text t.publication_id)
            ∷ ("state", Attribute.text (a2a_state_text state))
            ∷ [])
          now

unfoldable pub transition_found :
    String → (A2aTaskState → A2aTaskState × Bool) → ℕ → Option A2aTaskRow → Tx (Unit {0})
transition_found scope_id next now none = pure tt
transition_found scope_id next now (some t) = apply_transition scope_id t (next t.state) now

unfoldable pub transition_a2a_task_for_message :
    String → String → (A2aTaskState → A2aTaskState × Bool) → ℕ → Tx (Unit {0})
transition_a2a_task_for_message scope_id message_id next now = do
  found ← gets (λ w. find (carries_message w scope_id message_id) w.a2a_tasks)
  transition_found scope_id next now found

-- The three transitions that messages bring about.
unfoldable pub fail_unfinished : A2aTaskState → A2aTaskState × Bool
unfolding a2a_task_terminal
fail_unfinished state = (A2aTaskState.failed, not (a2a_task_terminal state))

unfoldable pub complete_answered : A2aTaskState → A2aTaskState × Bool
unfolding a2a_task_terminal
complete_answered state = (
  A2aTaskState.completed,
  not (same_a2a_state state A2aTaskState.input_required) && not (a2a_task_terminal state),
)

unfoldable pub start_submitted : A2aTaskState → A2aTaskState × Bool
start_submitted state = (A2aTaskState.working, same_a2a_state state A2aTaskState.submitted)
