-- ===== src/Tasks/Progress.antt =====
-- bus/task_progress.go: the bounded progress log of a task, written by the execution that holds it.
pub mod Caps
use Prim.Native.String.{len}
use october_bus.Base.{
  ℕ, ◌+◌, String, Bool, true, false, Option, none, some, List, [], ◌∷◌, ◌&&◌, ltb, leb,
  if◌then◌else◌, ◌is◌, not,
}
use october_bus.Protocol.{ErrorCode, Principal, AddTaskProgressInput, is_claimed}
use october_bus.World.{World, TaskRow, ProgressRow, Attribute}
use october_bus.Rows.{select, exists, sort_by, holds}
use october_bus.Tx.{Tx, ◌>>=◌, ◌>>◌, pure, gets, or_fail, ensure, now_millis, insert_progress}
use october_bus.Events.{append_event}
use october_bus.Session.{Context, begin_tx, require_current_execution}
use october_bus.Tasks.{is_task, task_row, is_progress_of}

abbrev pub max_task_progress_events : ℕ
max_task_progress_events = 1000

abbrev pub max_task_progress_bytes : ℕ
max_task_progress_bytes = 1048576

-- COUNT(*), SUM(octet_length(text)) and MAX(sequence) over the entries of a task.
unfoldable pub entries : String → List ProgressRow → ℕ
entries task_id [] = 0
entries task_id (r ∷ rows) =
    let rest = entries task_id rows in if r.task_id is task_id then rest + 1 else rest

unfoldable pub total_bytes : String → List ProgressRow → ℕ
total_bytes task_id [] = 0
total_bytes task_id (r ∷ rows) =
    let rest = total_bytes task_id rows in if r.task_id is task_id then rest + len r.text else rest

abbrev pub larger : ℕ → ℕ → ℕ
larger a b = if ltb a b then b else a

unfoldable pub last_sequence : String → List ProgressRow → ℕ
last_sequence task_id [] = 0
last_sequence task_id (r ∷ rows) =
    let rest = last_sequence task_id rows in
    if r.task_id is task_id then larger rest r.sequence else rest

abbrev pub is_held_by : Principal → TaskRow → Bool
is_held_by p t =
    is_claimed t.status
    && (holds t.claimed_by p.agent_id && holds t.claimed_execution_id p.execution_id)

abbrev pub has_room : String → String → List ProgressRow → Bool
has_room task_id text rows =
    ltb (entries task_id rows) max_task_progress_events
    && leb (total_bytes task_id rows + len text) max_task_progress_bytes

-- Store.AddTaskProgress
unfoldable pub add_task_progress :
    Context → Principal → String → AddTaskProgressInput → Tx ProgressRow
add_task_progress c p task_id input = do
  begin_tx c
  now ← now_millis
  require_current_execution p now
  found ← gets (λ w. task_row w p.scope_id task_id)
  t ← or_fail found ErrorCode.not_found
  ensure (is_held_by p t) ErrorCode.conflict
  room ← gets (λ w. has_room task_id input.text w.progress)
  ensure room ErrorCode.backpressure
  last ← gets (λ w. last_sequence task_id w.progress)
  let row : ProgressRow = record {
    task_id = task_id;
    scope_id = p.scope_id;
    sequence = last + 1;
    agent_id = p.agent_id;
    execution_id = p.execution_id;
    kind = input.kind;
    text = input.text;
    created_at = now;
  }
  insert_progress row
  append_event p.scope_id "task.progress_added" task_id
      (("agentId", Attribute.text p.agent_id)
        ∷ ("executionId", Attribute.text p.execution_id)
        ∷ ("kind", Attribute.text input.kind)
        ∷ ("sequence", Attribute.number (last + 1))
        ∷ [])
      now
  pure row

-- ORDER BY sequence
abbrev pub oldest_first : ProgressRow → ProgressRow → Bool
oldest_first a b = leb a.sequence b.sequence

-- Store.ListTaskProgress
unfoldable pub list_task_progress : String → String → Tx (List ProgressRow)
list_task_progress scope_id task_id = do
  present ← gets (λ w. exists (is_task scope_id task_id) w.tasks)
  ensure present ErrorCode.not_found
  gets (λ w. sort_by oldest_first (select (is_progress_of scope_id task_id) w.progress))
