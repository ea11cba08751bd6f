-- ===== src/Tasks/Listing.antt =====
-- ListTasks of bus/store.go and bus/task_page.go: the tasks of a scope, at once or page by page.
use october_bus.Base.{
  ℕ, ◌+◌, String, Bool, true, false, not, Option, none, some, List, [], ◌∷◌, ◌&&◌, ◌||◌, ltb, leb,
  if◌then◌else◌, ◌is◌, take, length, text_ltb,
}
use october_bus.Protocol.{ErrorCode, is_open, is_done}
use october_bus.World.{World, TaskRow, ProgressRow}
use october_bus.Rows.{select, count, find, sort_by}
use october_bus.Tx.{Tx, ◌>>=◌, ◌>>◌, pure, gets, ensure}
use october_bus.Session.{Context, begin_tx}
use october_bus.Tasks.{
  Task, task_order, is_progress_of, recent_task_progress, release_stale_task_claims, task_from,
}
use october_bus.Tasks.Progress.{last_sequence, oldest_first}

abbrev pub max_listed_tasks : ℕ
max_listed_tasks = 10000

-- recentProgressForScope: the entries whose sequence is within 20 of the last, in order.
unfoldable pub recent_progress_for_scope : World → String → String → List ProgressRow
recent_progress_for_scope w scope_id task_id = sort_by oldest_first (
    select
      (λ r.
        is_progress_of scope_id task_id r
        && ltb (last_sequence task_id w.progress) (r.sequence + recent_task_progress))
      w.progress)

-- statuses[dependency]: a task that is not listed is not done.
abbrev status_done : Option TaskRow → Bool
status_done none = false
status_done (some t) = is_done t.status

unfoldable pub all_done : List TaskRow → List String → Bool
all_done tasks [] = true
all_done tasks (d ∷ dependencies) =
    status_done (find (λ (t : TaskRow). t.task_id is d) tasks) && all_done tasks dependencies

unfoldable pub listed_task : World → String → List TaskRow → TaskRow → Task
listed_task w scope_id tasks t = record {
  row = t;
  ready = is_open t.status && all_done tasks t.dependencies;
  recent_progress = recent_progress_for_scope w scope_id t.task_id;
}

unfoldable pub listed : World → String → Bool → List TaskRow → List TaskRow → List Task
listed w scope_id ready_only tasks [] = []
listed w scope_id ready_only tasks (t ∷ rest) =
    let task = listed_task w scope_id tasks t in
    let others = listed w scope_id ready_only tasks rest in
    if not ready_only || task.ready then task ∷ others else others

-- ORDER BY created_at
abbrev pub earlier : TaskRow → TaskRow → Bool
earlier t u = leb t.created_at u.created_at

-- Store.ListTasks
unfoldable pub list_tasks : Context → String → Bool → Tx (List Task)
list_tasks c scope_id ready_only = do
  begin_tx c
  total ← gets (λ w. count (λ (t : TaskRow). t.scope_id is scope_id) w.tasks)
  ensure (leb total max_listed_tasks) ErrorCode.backpressure
  release_stale_task_claims scope_id
  gets (λ w.
      let tasks = sort_by earlier (select (λ (t : TaskRow). t.scope_id is scope_id) w.tasks) in
      listed w scope_id ready_only tasks tasks)

unfoldable pub tasks_from : String → List TaskRow → Tx (List Task)
tasks_from scope_id [] = pure []
tasks_from scope_id (t ∷ rest) = do
  task ← task_from scope_id t.task_id
  others ← tasks_from scope_id rest
  pure (task ∷ others)

pub record TaskPage : Type 0 where
  pub tasks : List Task
  pub next_cursor : String

abbrev pub last_id : List TaskRow → String
last_id [] = ""
last_id (t ∷ []) = t.task_id
last_id (t ∷ u ∷ rest) = last_id (u ∷ rest)

abbrev pub is_after : String → String → TaskRow → Bool
is_after scope_id after t = (t.scope_id is scope_id) && text_ltb after t.task_id

-- Store.TaskPage: one row more than the limit is read, which tells whether a page follows.
unfoldable pub task_page : Context → String → String → ℕ → Tx TaskPage
task_page c scope_id after limit = do
  begin_tx c
  release_stale_task_claims scope_id
  rows ←
      gets (λ w. take (limit + 1) (sort_by task_order (select (is_after scope_id after) w.tasks)))
  tasks ← tasks_from scope_id (take limit rows)
  pure (record {
    tasks = tasks;
    next_cursor = if ltb limit (length rows) then last_id (take limit rows) else "";
  })
