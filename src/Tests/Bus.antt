-- ===== src/Tests/Bus.antt =====
-- The statements on requests and histories, in the scene.
use october_bus.Base.{
  List, [], eq_iff, false, length, refl, subst, sym, true, ◌++◌, ◌+◌, ◌is◌, ◌∷◌, ◌≡◌, ◌≢◌,
}
use october_bus.Bus.{Request, after, claim_task, complete_task, run, scope_of, send_message}
use october_bus.Bus.Isolation.{after-Evolves}
use october_bus.Bus.Lives.{
  A2aTaskLife, EscalationLife, MessageLife, TaskLife, run-a2a_tasks, run-escalations, run-events,
  run-messages, run-tasks,
}
use october_bus.Bus.Numbering.{run-IsNumbered}
use october_bus.Bus.View.{after-view, view}
use october_bus.Events.{PendingEvent, append_events, append_rounds}
use october_bus.Events.Fuel.{append_rounds-append_events}
use october_bus.Evolution.{Evolves}
use october_bus.Evolution.Numbering.{IsNumbered, revisions}
use october_bus.Evolution.Steps.{IsSoundMessage, IsSoundTask}
use october_bus.Rows.{select}
use october_bus.Rows.Laws.{All-find, Grows}
use october_bus.Rows.Numbers.{numbers}
use october_bus.Tests.Scene.{a, b, letter, nobody, scene}
use october_bus.World.{EventRow, ScopeRow}

-- Agent a completes its task, b takes the one that is open, and a writes to b.
abbrev history : List Request
history =
    complete_task nobody a "c" "ok"
    ∷ claim_task nobody b "o"
    ∷ send_message nobody a (letter "k")
    ∷ []

apart : scope_of (complete_task nobody a "c" "ok") scene ≢ "other"
unfolding scope_of
apart = λ e. absurd (not_true ((eq_iff "s" "other").1 e))
  where
    not_true : false ≡ true → ⊥
    not_true h = cc

after-view_example :
    view "other" (after (complete_task nobody a "c" "ok") scene) ≡ view "other" scene
after-view_example = after-view (complete_task nobody a "c" "ok") scene "other" apart

after-Evolves_example :
    Evolves
      (scope_of (complete_task nobody a "c" "ok") scene)
      scene
      (after (complete_task nobody a "c" "ok") scene)
after-Evolves_example = after-Evolves (complete_task nobody a "c" "ok") scene

run-messages_example : Grows MessageLife IsSoundMessage scene.messages (run scene history).messages
run-messages_example = run-messages history scene

run-tasks_example : Grows TaskLife IsSoundTask scene.tasks (run scene history).tasks
run-tasks_example = run-tasks history scene

run-escalations_example :
    Grows EscalationLife (λ _. Unit {0}) scene.escalations (run scene history).escalations
run-escalations_example = run-escalations history scene

run-a2a_tasks_example :
    Grows A2aTaskLife (λ _. Unit {0}) scene.a2a_tasks (run scene history).a2a_tasks
run-a2a_tasks_example = run-a2a_tasks history scene

scene-IsNumbered : IsNumbered scene.scopes scene.events
unfolding IsNumbered revisions select
scene-IsNumbered s r h =
    subst (λ n. [] ≡ numbers 1 n)
      (sym (
        All-find (λ (x : ScopeRow). x.event_revision ≡ 0) (λ (x : ScopeRow). x.scope_id is s)
          scene.scopes r h (refl, tt)))
      refl

run-IsNumbered_example : IsNumbered (run scene history).scopes (run scene history).events
run-IsNumbered_example = run-IsNumbered history scene scene-IsNumbered

abbrev pending : List PendingEvent
pending = record { event_type = "t"; subject_id = "x"; attributes = [] } ∷ []

append_rounds-append_events_example :
    append_rounds (length pending + 5) "s" pending 100 ≡ append_events "s" pending 100
append_rounds-append_events_example = append_rounds-append_events "s" 100 5 pending

run-events_example : (new : List EventRow) × ((run scene history).events ≡ scene.events ++ new)
run-events_example = run-events history scene
