-- ===== src/Tasks.antt =====
-- The shared tasks of bus/store.go: added open, claimed by one execution at a time, then released or
-- completed. A claim lasts as long as the lease of its execution.
pub mod Progress
pub mod Listing
pub mod Evolution
pub mod Claims
pub mod HandIns
use october_bus.Base.{
  ℕ, ◌+◌, String, Bool, true, false, not, Option, none, some, List, [], ◌∷◌, ◌&&◌, ltb, ◌==◌,
  if◌then◌else◌, ◌is◌, take, text_ltb,
}
use mathlib.Core.List.{reverse}
use october_bus.Protocol.{
  ErrorCode, TaskStatus, Principal, AddTaskInput, is_open, is_claimed, is_done,
}
use october_bus.World.{World, AgentRow, TaskRow, ProgressRow, Attribute}
use october_bus.Rows.{
  select, find, exists, count, sort_by, holds, nullable_string, text_or_empty, unique,
}
use october_bus.Tx.{
  Tx, ◌>>=◌, ◌>>◌, pure, gets, or_fail, ensure, when, for_each, now_millis, random_id, update_tasks,
  insert_task,
}
use october_bus.Events.{append_event}
use october_bus.Session.{Context, begin_tx, require_current_execution}

abbrev pub active_task_cap : ℕ
active_task_cap = 5000

abbrev pub recent_task_progress : ℕ
recent_task_progress = 20

abbrev pub is_task : String → String → TaskRow → Bool
is_task scope_id task_id t = (t.scope_id is scope_id) && (t.task_id is task_id)

unfoldable pub task_row : World → String → String → Option TaskRow
task_row w scope_id task_id = find (is_task scope_id task_id) w.tasks

-- The agent's row still carries the execution of the claim, and its lease has not run out.
unfoldable pub is_holder : ℕ → TaskRow → AgentRow → Bool
is_holder now t a =
    (a.scope_id is t.scope_id)
    && (holds t.claimed_by a.agent_id
        && (holds t.claimed_execution_id a.execution_id && ltb now a.lease_expires_at))

unfoldable pub is_stale : String → ℕ → List AgentRow → TaskRow → Bool
is_stale scope_id now agents t =
    (t.scope_id is scope_id) && (is_claimed t.status && not (exists (is_holder now t) agents))

abbrev pub release_task_row : ℕ → TaskRow → TaskRow
release_task_row now t = record t {
  status = TaskStatus.opened;
  claimed_by = none;
  claimed_execution_id = none;
  updated_at = now;
}

abbrev pub is_claimed_task : String → String → TaskRow → Bool
is_claimed_task scope_id task_id t =
    (t.scope_id is scope_id) && ((t.task_id is task_id) && is_claimed t.status)

unfoldable pub release_stale_task : String → ℕ → TaskRow → Tx (Unit {0})
release_stale_task scope_id now v = do
  changed ← update_tasks (is_claimed_task scope_id v.task_id) (release_task_row now)
  when (changed == 1) (
      append_event scope_id "task.released" v.task_id
        (("previousClaimedBy", Attribute.text (text_or_empty v.claimed_by))
          ∷ ("reason", Attribute.text "execution_expired")
          ∷ ("status", Attribute.text "open")
          ∷ [])
        now)

-- ORDER BY task_id
abbrev pub task_order : TaskRow → TaskRow → Bool
task_order t u = not (text_ltb u.task_id t.task_id)

unfoldable pub release_stale_task_claims : String → Tx (Unit {0})
release_stale_task_claims scope_id = do
  now ← now_millis
  stale ← gets (λ w. sort_by task_order (select (is_stale scope_id now w.agents) w.tasks))
  for_each stale (release_stale_task scope_id now)

-- What a caller sees of a task: the row, whether it can be claimed, and its latest progress.
pub record Task : Type 0 where
  pub row : TaskRow
  pub ready : Bool
  pub recent_progress : List ProgressRow

-- ORDER BY sequence DESC
abbrev newest_first : ProgressRow → ProgressRow → Bool
newest_first a b = not (ltb a.sequence b.sequence)

abbrev pub is_progress_of : String → String → ProgressRow → Bool
is_progress_of scope_id task_id r = (r.scope_id is scope_id) && (r.task_id is task_id)

unfoldable pub recent_progress_for_task : World → String → String → List ProgressRow
recent_progress_for_task w scope_id task_id = reverse (
    take recent_task_progress
      (sort_by newest_first (select (is_progress_of scope_id task_id) w.progress)))

-- The loop over the dependencies stops at the first that is not done.
unfoldable pub dependencies_done : String → List String → Tx Bool
dependencies_done scope_id [] = pure true
dependencies_done scope_id (d ∷ dependencies) = do
  found ← gets (λ w. task_row w scope_id d)
  t ← or_fail found ErrorCode.internal
  if is_done t.status then dependencies_done scope_id dependencies else pure false

unfoldable pub is_ready : String → TaskRow → Tx Bool
is_ready scope_id t =
    if is_open t.status then dependencies_done scope_id t.dependencies else pure false

unfoldable pub task_from : String → String → Tx Task
task_from scope_id task_id = do
  found ← gets (λ w. task_row w scope_id task_id)
  t ← or_fail found ErrorCode.not_found
  ready ← is_ready scope_id t
  recent ← gets (λ w. recent_progress_for_task w scope_id task_id)
  pure (record { row = t; ready = ready; recent_progress = recent })

unfoldable pub require_task : String → String → Tx (Unit {0})
require_task scope_id task_id = do
  found ← gets (λ w. task_row w scope_id task_id)
  t ← or_fail found ErrorCode.not_found
  pure tt

abbrev pub is_unfinished_task : String → TaskRow → Bool
is_unfinished_task scope_id t = (t.scope_id is scope_id) && not (is_done t.status)

unfoldable pub check_task_cap : String → Tx (Unit {0})
check_task_cap scope_id = do
  active ← gets (λ w. count (is_unfinished_task scope_id) w.tasks)
  ensure (ltb active active_task_cap) ErrorCode.backpressure

-- Store.addTask behind AddTask, by the scope's authority, and AddAgentTask, by an execution.
unfoldable pub check_creator : Option Principal → Tx (Unit {0})
check_creator none = pure tt
check_creator (some p) = do now ← now_millis; require_current_execution p now

unfoldable pub new_task : String → String → AddTaskInput → String → ℕ → TaskRow
new_task scope_id created_by input task_id now = record {
  task_id = task_id;
  scope_id = scope_id;
  title = input.title;
  description = input.description;
  created_by = nullable_string created_by;
  claimed_by = none;
  claimed_execution_id = none;
  status = TaskStatus.opened;
  dependencies = unique input.dependencies;
  note = none;
  created_at = now;
  updated_at = now;
}

unfoldable pub add_task : Context → String → String → Option Principal → AddTaskInput → Tx Task
add_task c scope_id created_by principal input = do
  begin_tx c
  check_creator principal
  check_task_cap scope_id
  for_each (unique input.dependencies) (require_task scope_id)
  task_id ← random_id "task_"
  now ← now_millis
  insert_task (new_task scope_id created_by input task_id now)
  append_event scope_id "task.created" task_id
      (("createdBy", Attribute.text created_by) ∷ ("status", Attribute.text "open") ∷ []) now
  task_from scope_id task_id

-- A dependency that is missing or not done blocks the claim.
abbrev pub done_task : Option TaskRow → Bool
done_task none = false
done_task (some t) = is_done t.status

unfoldable pub require_done : String → String → Tx (Unit {0})
require_done scope_id task_id = do
  found ← gets (λ w. task_row w scope_id task_id)
  ensure (done_task found) ErrorCode.conflict

abbrev pub is_open_task : String → String → TaskRow → Bool
is_open_task scope_id task_id t =
    (t.task_id is task_id) && ((t.scope_id is scope_id) && is_open t.status)

abbrev pub claim_task_row : Principal → ℕ → TaskRow → TaskRow
claim_task_row p now t = record t {
  status = TaskStatus.claimed;
  claimed_by = some p.agent_id;
  claimed_execution_id = some p.execution_id;
  updated_at = now;
}

-- Store.ClaimTask from the check of the task on.
unfoldable pub claim_open_task : Principal → String → Tx Task
claim_open_task p task_id = do
  task ← task_from p.scope_id task_id
  ensure (is_open task.row.status) ErrorCode.conflict
  for_each task.row.dependencies (require_done p.scope_id)
  now ← now_millis
  changed ← update_tasks (is_open_task p.scope_id task_id) (claim_task_row p now)
  ensure (changed == 1) ErrorCode.conflict
  append_event p.scope_id "task.claimed" task_id
      (("claimedBy", Attribute.text p.agent_id)
        ∷ ("executionId", Attribute.text p.execution_id)
        ∷ ("status", Attribute.text "claimed")
        ∷ [])
      now
  task_from p.scope_id task_id

unfoldable pub claim_task : Context → Principal → String → Tx Task
claim_task c p task_id = do
  begin_tx c
  t ← now_millis
  require_current_execution p t
  release_stale_task_claims p.scope_id
  claim_open_task p task_id

-- status='claimed' AND claimed_by=? AND claimed_execution_id=?
abbrev pub is_claimed_by : Principal → String → TaskRow → Bool
is_claimed_by p task_id t =
    (t.task_id is task_id)
    && ((t.scope_id is p.scope_id)
        && (is_claimed t.status
            && (holds t.claimed_by p.agent_id && holds t.claimed_execution_id p.execution_id)))

abbrev pub complete_task_row : String → ℕ → TaskRow → TaskRow
complete_task_row note now t = record t {
  status = TaskStatus.done;
  note = nullable_string note;
  updated_at = now;
}

-- Store.CompleteTask
unfoldable pub complete_task : Context → Principal → String → String → Tx Task
complete_task c p task_id note = do
  begin_tx c
  t ← now_millis
  require_current_execution p t
  now ← now_millis
  changed ← update_tasks (is_claimed_by p task_id) (complete_task_row note now)
  ensure (changed == 1) ErrorCode.conflict
  append_event p.scope_id "task.completed" task_id
      (("claimedBy", Attribute.text p.agent_id)
        ∷ ("executionId", Attribute.text p.execution_id)
        ∷ ("status", Attribute.text "done")
        ∷ [])
      now
  task_from p.scope_id task_id

-- Store.ReleaseTask
unfoldable pub release_task : Context → Principal → String → Tx Task
release_task c p task_id = do
  begin_tx c
  t ← now_millis
  require_current_execution p t
  now ← now_millis
  changed ← update_tasks (is_claimed_by p task_id) (release_task_row now)
  ensure (changed == 1) ErrorCode.conflict
  append_event p.scope_id "task.released" task_id
      (("previousClaimedBy", Attribute.text p.agent_id)
        ∷ ("executionId", Attribute.text p.execution_id)
        ∷ ("reason", Attribute.text "released")
        ∷ ("status", Attribute.text "open")
        ∷ [])
      now
  task_from p.scope_id task_id
