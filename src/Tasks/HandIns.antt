-- ===== src/Tasks/HandIns.antt =====
-- What a successful completion or release of a task means: the holder hands it in.
use october_bus.Base.{
  ℕ, String, true, none, arith, [], ◌∷◌, eq_iff, some, List, ◌≡◌, refl, sym, ◌∙◌, ◌==◌, ap, subst,
}
use october_bus.Protocol.{Principal, ErrorCode, TaskStatus}
use october_bus.World.{World, TaskRow, Attribute}
use october_bus.Rows.{count, update, select, nullable_string}
use october_bus.Rows.Laws.{one_selected}
use october_bus.Tx.{ok, ◌>>=◌, ensure, now_millis, update_tasks}
use october_bus.Tx.Frame.{still-now_millis, still-append_event}
use october_bus.Tx.Success.{through, through_ensure, through_update_tasks}
use october_bus.Events.{append_event}
use october_bus.Session.{Context, begin_tx, require_current_execution}
use october_bus.Session.Current.{IsCurrent, begun, later_same}
use october_bus.Tasks.{
  Task, task_row, is_claimed_by, complete_task_row, release_task_row, task_from, complete_task,
  release_task,
}
use october_bus.Tasks.Claims.{table, table-IsApart, task_from-ok, eq-one, is_claimed-eq}
use october_bus.Rows.Laws.{holds-eq}

-- The row is claimed by the agent under this very execution.
pub record IsHolding (p : Principal) (id : String) (t : TaskRow) : Type 0 where
  pub named : t.task_id ≡ id
  pub scope : t.scope_id ≡ p.scope_id
  pub status : t.status ≡ TaskStatus.claimed
  pub agent : t.claimed_by ≡ some p.agent_id
  pub execution : t.claimed_execution_id ≡ some p.execution_id

is_claimed_by-IsHolding :
    (p : Principal) (id : String) (t : TaskRow) → is_claimed_by p id t ≡ true → IsHolding p id t
is_claimed_by-IsHolding p id t h = record {
  named = (eq_iff t.task_id id).0 (ground (arith, h));
  scope = (eq_iff t.scope_id p.scope_id).0 (ground (arith, h));
  status = is_claimed-eq t.status (ground (arith, h));
  agent = holds-eq t.claimed_by p.agent_id (ground (arith, h));
  execution = holds-eq t.claimed_execution_id p.execution_id (ground (arith, h));
}

-- What a completion or a release means: the execution is current, it holds exactly one row of this
-- name, that row became `f` of it, and no other row changed.
pub record IsHandedIn (p : Principal) (id : String) (f : ℕ → TaskRow → TaskRow) (w : World)
    (row : TaskRow) (w' : World) : Type 0 where
  pub current : IsCurrent p w
  pub now : ℕ
  pub before : TaskRow
  pub held : IsHolding p id before
  pub only : select (is_claimed_by p id) w.tasks ≡ before ∷ []
  pub tasks : w'.tasks ≡ update (is_claimed_by p id) (f now) w.tasks
  pub answer : task_row w' p.scope_id id ≡ some row

-- The common part of a completion and a release, from the update on.
hand_in :
    (p : Principal) (id : String) (now : ℕ) (f : ℕ → TaskRow → TaskRow) (kind : String)
    (values : List (String × Attribute)) (code : ErrorCode) (v w : World) (task : Task) (w' : World)
    → IsCurrent p v
    → w.tasks ≡ v.tasks
    → (update_tasks (is_claimed_by p id) (f now) >>= λ changed. ensure (changed == 1) code >>= λ _.
          append_event p.scope_id kind id values now >>= λ _. task_from p.scope_id id)
        w
      ≡ ok task w'
    → IsHandedIn p id f v task.row w'
hand_in p id now f kind values code v w task w' current same h =
    through_update_tasks (is_claimed_by p id) (f now) _ w h λ w₄ updated h₅.
      through_ensure _ _ (count (is_claimed_by p id) w.tasks == 1) h₅ λ one h₆.
        through (append_event p.scope_id kind id values now) _ h₆ λ u₅ w₅ e₅ h₇.
          let (f₆, g₆) = task_from-ok p.scope_id id w₅ task w' h₇ in
          let (x, only, held) =
            one_selected (is_claimed_by p id) v.tasks
              (ap (count (is_claimed_by p id)) (sym same) ∙ eq-one _ one) in
          record {
            current = current;
            now = now;
            before = x;
            held = is_claimed_by-IsHolding p id x held;
            only = only;
            tasks =
                ap table g₆
                ∙ (still-append_event table table-IsApart p.scope_id kind id values now).at w₄ u₅ w₅
                    e₅
                ∙ updated
                ∙ ap (update (is_claimed_by p id) (f now)) same;
            answer = subst (λ x. task_row x p.scope_id id ≡ some task.row) (sym g₆) f₆;
          }

-- The checks before the update leave the tasks alone.
module _ (c : Context) (p : Principal) (w : World) (u : Unit {0}) (w₁ w₂ w₃ w₄ : World) (t now : ℕ)
    (x : Unit {0}) (e₁ : begin_tx c w ≡ ok u w₁) (e₂ : now_millis w₁ ≡ ok t w₂)
    (e₃ : require_current_execution p t w₂ ≡ ok x w₃) (e₄ : now_millis w₃ ≡ ok now w₄) where
  authorized : IsCurrent p w × (w₄.tasks ≡ w.tasks)
  authorized =
      let (current, n, same) = begun c p w u w₁ t w₂ x w₃ e₁ e₂ e₃ in
      (
        current,
        (still-now_millis table table-IsApart).at w₃ now w₄ e₄
            ∙ ap table same
            ∙ later_same table (λ v k. refl) n w,
      )

-- CompleteTask succeeds only for an execution that is current and holds exactly one row of this
-- name; that row becomes done with the note and keeps the rest, and no other row changes.
pub complete_task-IsHandedIn :
    (c : Context) (p : Principal) (id note : String) (w : World) (task : Task) (w' : World)
    → complete_task c p id note w ≡ ok task w'
    → IsHandedIn p id
        (λ now t. record t {
          status = TaskStatus.done;
          note = nullable_string note;
          updated_at = now;
        })
        w
        task.row
        w'
unfolding complete_task
complete_task-IsHandedIn c p id note w task w' h = through (begin_tx c) _ h λ u₁ w₁ e₁ h₁.
    through now_millis _ h₁ λ t w₂ e₂ h₂.
      through (require_current_execution p t) _ h₂ λ u₃ w₃ e₃ h₃.
        through now_millis _ h₃ λ now w₄ e₄ h₄.
          let (current, same) = authorized c p w u₁ w₁ w₂ w₃ w₄ t now u₃ e₁ e₂ e₃ e₄ in
          hand_in p id now (complete_task_row note) _ _ _ w w₄ task w' current same h₄

-- ReleaseTask succeeds only for an execution that is current and holds exactly one row of this
-- name; that row is open again without a holder and keeps the rest, and no other row changes.
pub release_task-IsHandedIn :
    (c : Context) (p : Principal) (id : String) (w : World) (task : Task) (w' : World)
    → release_task c p id w ≡ ok task w'
    → IsHandedIn p id
        (λ now t. record t {
          status = TaskStatus.opened;
          claimed_by = none;
          claimed_execution_id = none;
          updated_at = now;
        })
        w
        task.row
        w'
unfolding release_task
release_task-IsHandedIn c p id w task w' h = through (begin_tx c) _ h λ u₁ w₁ e₁ h₁.
    through now_millis _ h₁ λ t w₂ e₂ h₂.
      through (require_current_execution p t) _ h₂ λ u₃ w₃ e₃ h₃.
        through now_millis _ h₃ λ now w₄ e₄ h₄.
          let (current, same) = authorized c p w u₁ w₁ w₂ w₃ w₄ t now u₃ e₁ e₂ e₃ e₄ in
          hand_in p id now release_task_row _ _ _ w w₄ task w' current same h₄
