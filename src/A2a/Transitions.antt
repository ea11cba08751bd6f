-- ===== src/A2a/Transitions.antt =====
-- The transitions that messages bring about against the table of allowed ones.
use october_bus.Base.{Bool, true, false, ◌≡◌, arith}
use october_bus.Protocol.{A2aTaskState, same_a2a_state}
use october_bus.A2a.States.{a2a_task_terminal, valid_a2a_task_transition}
use october_bus.A2a.{fail_unfinished, complete_answered, start_submitted}

-- A transition that `next` makes is one that the table allows.
abbrev pub IsAllowed : (A2aTaskState → A2aTaskState × Bool) → Type 0
IsAllowed next =
    (state : A2aTaskState)
    → (next state).1 ≡ true
    → valid_a2a_task_transition state (next state).0 ≡ true

fail_unfinished-IsAllowed : IsAllowed fail_unfinished
unfolding fail_unfinished valid_a2a_task_transition a2a_task_terminal
fail_unfinished-IsAllowed state h = ground arith

complete_answered-IsAllowed : IsAllowed complete_answered
unfolding complete_answered valid_a2a_task_transition a2a_task_terminal
complete_answered-IsAllowed state h = ground arith

start_submitted-IsAllowed : IsAllowed start_submitted
unfolding start_submitted valid_a2a_task_transition a2a_task_terminal
start_submitted-IsAllowed state h = ground arith

-- The three changes of state that messages bring about, on expiry, on an answer and on delivery,
-- are all allowed by the table of transitions.
pub message_transitions-IsAllowed :
    IsAllowed fail_unfinished × IsAllowed complete_answered × IsAllowed start_submitted
message_transitions-IsAllowed =
    (fail_unfinished-IsAllowed, complete_answered-IsAllowed, start_submitted-IsAllowed)

-- A task in a terminal state may only stay in it, and a task in another state may always end: its
-- table allows every terminal state.
pub terminal-transitions :
    (from to : A2aTaskState)
    → (a2a_task_terminal from ≡ true → valid_a2a_task_transition from to ≡ same_a2a_state from to)
      × (a2a_task_terminal from ≡ false
          → a2a_task_terminal to ≡ true
          → valid_a2a_task_transition from to ≡ true)
unfolding valid_a2a_task_transition a2a_task_terminal
terminal-transitions from to = (λ h. ground arith, λ h k. ground arith)
