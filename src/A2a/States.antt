-- ===== src/A2a/States.antt =====
-- bus/a2a_tasks.go: the states of a task that a remote principal opened, and their transitions.
use october_bus.Base.{Bool, true, false, ◌||◌, if◌then◌else◌}
use october_bus.Protocol.{A2aTaskState, same_a2a_state}

unfoldable pub a2a_task_terminal : A2aTaskState → Bool
a2a_task_terminal A2aTaskState.completed = true
a2a_task_terminal A2aTaskState.failed = true
a2a_task_terminal A2aTaskState.canceled = true
a2a_task_terminal A2aTaskState.rejected = true
a2a_task_terminal _ = false

-- The `switch` on the state that is left.
abbrev leaves_for : A2aTaskState → A2aTaskState → Bool
leaves_for A2aTaskState.submitted to =
    same_a2a_state to A2aTaskState.working
    || (same_a2a_state to A2aTaskState.input_required || a2a_task_terminal to)
leaves_for A2aTaskState.working to =
    same_a2a_state to A2aTaskState.input_required || a2a_task_terminal to
leaves_for A2aTaskState.input_required to =
    same_a2a_state to A2aTaskState.working || a2a_task_terminal to
leaves_for _ to = false

unfoldable pub valid_a2a_task_transition : A2aTaskState → A2aTaskState → Bool
unfolding a2a_task_terminal
valid_a2a_task_transition from to =
    if same_a2a_state from to
    then true
    else if a2a_task_terminal from
    then false
    else leaves_for from to
