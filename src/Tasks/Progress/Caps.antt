-- ===== src/Tasks/Progress/Caps.antt =====
-- The log of a task behind task_progress.go: its number of entries, its bytes, and who appends to it.
use Prim.Native.String.{len}
use october_bus.Base.{
  ℕ, ◌+◌, ◌≤◌, String, true, some, List, [], ◌∷◌, ◌++◌, ◌≡◌, refl, sym, ◌∙◌, arith, ap, subst, ◌is◌,
  eq_iff, Bool-cases, inl, inr,
}
use october_bus.Protocol.{Principal, TaskStatus, AddTaskProgressInput}
use october_bus.World.{World, TaskRow, ProgressRow}
use october_bus.Tx.{ok, now_millis, insert_progress}
use october_bus.Tx.Keeps.{ok_world}
use october_bus.Tx.Frame.{IsApart, still-append_event}
use october_bus.Tx.Success.{through, through_gets, through_or_fail, through_ensure, pure-ok}
use october_bus.Events.{append_event}
use october_bus.Session.{Context, begin_tx, require_current_execution}
use october_bus.Session.Current.{IsCurrent, begun, later_same}
use october_bus.Rows.{find}
use october_bus.Tasks.Claims.{is_claimed-eq}
use october_bus.Rows.Laws.{holds-eq}
use october_bus.Tasks.{task_row, is_task}
use october_bus.Tasks.Progress.{
  entries, total_bytes, last_sequence, larger, has_room, is_held_by, add_task_progress,
  max_task_progress_events, max_task_progress_bytes,
}

abbrev table : World → List ProgressRow
table w = w.progress

table-IsApart : IsApart (λ (w : World). w.progress)
table-IsApart = record {
  clock = λ w c. refl;
  entropy = λ w c. refl;
  scopes = λ w rows. refl;
  events = λ w rows. refl;
  a2a_tasks = λ w rows. refl;
  correlations = λ w rows. refl;
  reservations = λ w rows. refl;
}

is_refl : (s : String) → (s is s) ≡ true
is_refl s = (eq_iff s s).1 refl

module _ (r : ProgressRow) where
  entries-append :
      (rows : List ProgressRow) → entries r.task_id (rows ++ r ∷ []) ≡ entries r.task_id rows + 1
  unfolding entries
  entries-append [] = rw (is_refl r.task_id) refl
  entries-append (x ∷ rows) = elim (Bool-cases (x.task_id is r.task_id)) [
    | inl e ↦ rw e (ap (λ n. n + 1) (entries-append rows))
    | inr e ↦ rw e (entries-append rows)
  ]

  total_bytes-append :
      (rows : List ProgressRow)
      → total_bytes r.task_id (rows ++ r ∷ []) ≡ total_bytes r.task_id rows + len r.text
  unfolding total_bytes
  total_bytes-append [] = rw (is_refl r.task_id) (omega arith)
  total_bytes-append (x ∷ rows) = elim (Bool-cases (x.task_id is r.task_id)) [
    | inl e ↦ rw e (omega (arith, total_bytes-append rows))
    | inr e ↦ rw e (total_bytes-append rows)
  ]

  larger-right : (a b : ℕ) → a ≤ b → larger b a ≡ b
  larger-right a b h = ground arith

  larger-le-right : (a b : ℕ) → b ≤ larger a b
  larger-le-right a b = ground arith

  larger-le-left : (a b : ℕ) → a ≤ larger a b
  larger-le-left a b = ground arith

  last_sequence-append :
      (rows : List ProgressRow)
      → last_sequence r.task_id rows ≤ r.sequence
      → last_sequence r.task_id (rows ++ r ∷ []) ≡ r.sequence
  unfolding last_sequence
  last_sequence-append [] h = rw (is_refl r.task_id) (ground arith)
  last_sequence-append (x ∷ rows) h = elim (Bool-cases (x.task_id is r.task_id)) [
    | inl e ↦
        (let k : larger (last_sequence r.task_id rows) x.sequence ≤ r.sequence = rw e at h in
          let a = larger-le-left (last_sequence r.task_id rows) x.sequence in
          let b = larger-le-right (last_sequence r.task_id rows) x.sequence in
          rw (e, last_sequence-append rows (omega arith))
            (larger-right x.sequence r.sequence (omega arith)))
    | inr e ↦ rw e (last_sequence-append rows (rw e at h))
  ]

-- An entry was written for a task that `p` holds: it is the next one, and the log has its bounds.
pub record IsLogged (p : Principal) (id : String) (w : World) (row : ProgressRow) (w' : World)
    : Type 0 where
  pub task : TaskRow
  pub found : task_row w p.scope_id id ≡ some task
  pub status : task.status ≡ TaskStatus.claimed
  pub agent : task.claimed_by ≡ some p.agent_id
  pub execution : task.claimed_execution_id ≡ some p.execution_id
  pub progress : w'.progress ≡ w.progress ++ row ∷ []
  pub next : row.sequence ≡ last_sequence id w.progress + 1
  pub last : last_sequence id w'.progress ≡ row.sequence
  pub events_bound : entries id w'.progress ≤ max_task_progress_events
  pub bytes_bound : total_bytes id w'.progress ≤ max_task_progress_bytes

insert_progress-ok :
    (r : ProgressRow) (w : World) (u : Unit {0}) (w' : World)
    → insert_progress r w ≡ ok u w'
    → w'.progress ≡ w.progress ++ r ∷ []
unfolding insert_progress
insert_progress-ok r w u w' h = sym (ap table (ok_world h))

room_entries :
    (id text : String) (rows : List ProgressRow)
    → has_room id text rows ≡ true
    → entries id rows + 1 ≤ max_task_progress_events
room_entries id text rows h = ground arith

room_bytes :
    (id text : String) (rows : List ProgressRow)
    → has_room id text rows ≡ true
    → total_bytes id rows + len text ≤ max_task_progress_bytes
room_bytes id text rows h = ground arith

logged :
    (p : Principal) (w w' : World) (task : TaskRow) (row : ProgressRow)
    → task_row w p.scope_id row.task_id ≡ some task
    → is_held_by p task ≡ true
    → has_room row.task_id row.text w.progress ≡ true
    → row.sequence ≡ last_sequence row.task_id w.progress + 1
    → w'.progress ≡ w.progress ++ row ∷ []
    → IsLogged p row.task_id w row w'
logged p w w' task row found held room next grown = record {
  task = task;
  found = found;
  status = is_claimed-eq task.status (ground (arith, held));
  agent = holds-eq task.claimed_by p.agent_id (ground (arith, held));
  execution = holds-eq task.claimed_execution_id p.execution_id (ground (arith, held));
  progress = grown;
  next = next;
  last = ap (last_sequence row.task_id) grown ∙ last_sequence-append row w.progress (omega arith);
  events_bound =
      subst (λ rows. entries row.task_id rows ≤ max_task_progress_events) (sym grown)
        (let a = entries-append row w.progress in
          let b = room_entries row.task_id row.text w.progress room in omega arith);
  bytes_bound =
      subst (λ rows. total_bytes row.task_id rows ≤ max_task_progress_bytes) (sym grown)
        (let a = total_bytes-append row w.progress in
          let b = room_bytes row.task_id row.text w.progress room in omega arith);
}

logged_before :
    (p : Principal) (id : String) (v w : World) (row : ProgressRow) (w' : World)
    → w.tasks ≡ v.tasks
    → w.progress ≡ v.progress
    → IsLogged p id w row w'
    → IsLogged p id v row w'
unfolding task_row
logged_before p id v w row w' tasks rows h = record {
  task = h.task;
  found = ap (find (is_task p.scope_id id)) (sym tasks) ∙ h.found;
  status = h.status;
  agent = h.agent;
  execution = h.execution;
  progress = h.progress ∙ ap (λ rs. rs ++ row ∷ []) rows;
  next = h.next ∙ ap (λ rs. last_sequence id rs + 1) rows;
  last = h.last;
  events_bound = h.events_bound;
  bytes_bound = h.bytes_bound;
}

-- AddTaskProgress succeeds only for an execution that is current and holds the task; the new entry
-- is added behind the others with the number after the last one of the task, and is the last from
-- then on; and the log of the task then has at most 1000 entries and 1048576 bytes.
pub add_task_progress-IsLogged :
    (c : Context) (p : Principal) (id : String) (input : AddTaskProgressInput) (w : World)
    (row : ProgressRow) (w' : World)
    → add_task_progress c p id input w ≡ ok row w'
    → IsCurrent p w × IsLogged p id w row w'
unfolding add_task_progress
add_task_progress-IsLogged c p id input w row w' h = through (begin_tx c) _ h λ u₁ w₁ e₁ h₁.
    through now_millis _ h₁ λ now w₂ e₂ h₂.
      through (require_current_execution p now) _ h₂ λ u₃ w₃ e₃ h₃.
        let (current, n, same) = begun c p w u₁ w₁ now w₂ u₃ w₃ e₁ e₂ e₃ in
        let rows = ap table same ∙ later_same table (λ v k. refl) n w in
        let tasks =
          ap (λ (v : World). v.tasks) same
          ∙ later_same (λ (v : World). v.tasks) (λ v k. refl) n w in
        through_or_fail _ _ (task_row w₃ p.scope_id id) (through_gets _ _ h₃) λ task found h₄.
          through_ensure _ _ (is_held_by p task) h₄ λ held h₅.
            through_ensure _ _ (has_room id input.text w₃.progress) (through_gets _ _ h₅) λ room h₆.
              through (insert_progress _) _ (through_gets (λ w. last_sequence id w.progress) _ h₆)
                λ u₇ w₇ e₇ h₇. through (append_event p.scope_id _ id _ now) _ h₇ λ u₈ w₈ e₈ h₈.
                  let (f, g) = pure-ok h₈ in
                  let grown = insert_progress-ok _ w₃ u₇ w₇ e₇ in
                  let log =
                    (still-append_event table table-IsApart p.scope_id _ id _ now).at w₇ u₈ w₈ e₈ in
                  (
                    current,
                    logged_before p id w w₃ row w' tasks rows (
                        subst (λ r. IsLogged p id w₃ r w') f
                          (logged p w₃ w' task _ found held room refl
                            (ap table (sym g) ∙ log ∙ grown))),
                  )
