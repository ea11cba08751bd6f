-- ===== src/Tasks/Claims.antt =====
-- What a successful claim of a task means.
use october_bus.Base.{
  ℕ, String, true, false, some, List, [], ◌∷◌, ◌≡◌, refl, sym, ◌∙◌, arith, ◌==◌, All, ap, subst,
}
use october_bus.Protocol.{Principal, TaskStatus, is_open, is_claimed}
use october_bus.World.{World, TaskRow}
use october_bus.Rows.{find, count, update}
use october_bus.Rows.Laws.{find-update, find_sound}
use october_bus.Tx.{ok, for_each, now_millis}
use october_bus.Tx.Keeps.{
  Guarantee, Keeps, Keeps-pure, Keeps-bind, Keeps-gets, Keeps-or_fail, Keeps-if, keeps_rules,
}
use october_bus.Tx.Frame.{IsApart, still, still-now_millis, still-append_event}
use october_bus.Tx.Success.{
  through, through_gets, through_or_fail, through_ensure, through_update_tasks, pure-ok, ensure-ok,
  for_each-checks,
}
use october_bus.Events.{append_event}
use october_bus.Session.{Context, begin_tx, require_current_execution}
use october_bus.Session.Current.{IsCurrent, begun, later}
use october_bus.Tasks.{
  Task, task_row, is_task, is_open_task, claim_task_row, done_task, require_done, dependencies_done,
  is_ready, task_from, claim_open_task, claim_task, release_stale_task_claims,
}

abbrev pub table : World → List TaskRow
table w = w.tasks

pub table-IsApart : IsApart (λ (w : World). w.tasks)
table-IsApart = record {
  clock = λ w c. refl;
  entropy = λ w c. refl;
  scopes = λ w rows. refl;
  events = λ w rows. refl;
  a2a_tasks = λ w rows. refl;
  correlations = λ w rows. refl;
  reservations = λ w rows. refl;
}

require_done-ok :
    (s d : String) (w : World) (u : Unit {0}) (w' : World)
    → require_done s d w ≡ ok u w'
    → (done_task (task_row w s d) ≡ true) × (w ≡ w')
unfolding require_done
require_done-ok s d w u w' h =
    ensure-ok _ (done_task (task_row w s d)) (through_gets (λ w. task_row w s d) _ h)

abbrev unchanged : Guarantee
unchanged = still (λ w. w)

-- Reading a task changes nothing.
dependencies_done-unchanged :
    (s : String) (ds : List String) → Keeps unchanged (dependencies_done s ds)
unfolding dependencies_done
dependencies_done-unchanged s [] = Keeps-pure unchanged true
dependencies_done-unchanged s (d ∷ ds) = Keeps-bind unchanged _ _ (Keeps-gets unchanged _) λ found.
    Keeps-bind unchanged _ _ (Keeps-or_fail unchanged found _) λ t.
      Keeps-if unchanged _ _ _ (λ _. dependencies_done-unchanged s ds)
        (λ _. Keeps-pure unchanged false)

is_ready-unchanged : (s : String) (t : TaskRow) → Keeps unchanged (is_ready s t)
unfolding is_ready
is_ready-unchanged s t = search (keeps_rules, dependencies_done-unchanged)

-- A task that is read is the row of the table.
pub task_from-ok :
    (s id : String) (w : World) (task : Task) (w' : World)
    → task_from s id w ≡ ok task w'
    → (task_row w s id ≡ some task.row) × (w' ≡ w)
unfolding task_from
task_from-ok s id w task w' h =
    through_or_fail _ _ (task_row w s id) (through_gets (λ w. task_row w s id) _ h) λ t found h₁.
      through (is_ready s t) _ h₁ λ b w₁ e₁ h₂.
        let h₃ = through_gets _ _ h₂ in
        let (f, g) = pure-ok h₃ in
        (found ∙ ap (λ (k : Task). some k.row) f, sym g ∙ (is_ready-unchanged s t).at w b w₁ e₁)

is_open-eq : (s : TaskStatus) → is_open s ≡ true → s ≡ TaskStatus.opened
is_open-eq TaskStatus.opened h = refl
is_open-eq TaskStatus.claimed h = cc
is_open-eq TaskStatus.done h = cc

pub is_claimed-eq : (s : TaskStatus) → is_claimed s ≡ true → s ≡ TaskStatus.claimed
is_claimed-eq TaskStatus.claimed h = refl
is_claimed-eq TaskStatus.opened h = cc
is_claimed-eq TaskStatus.done h = cc

-- What a claim makes of a row.
abbrev pub taken : Principal → ℕ → TaskRow → TaskRow
taken p now t = record t {
  status = TaskStatus.claimed;
  claimed_by = some p.agent_id;
  claimed_execution_id = some p.execution_id;
  updated_at = now;
}

-- What a claim means: the row `t` was open with its dependencies done, and is now the caller's.
pub record IsWon (p : Principal) (id : String) (w : World) (row : TaskRow) (w' : World)
    : Type 0 where
  pub t : TaskRow
  pub now : ℕ
  pub found : task_row w p.scope_id id ≡ some t
  pub was_open : t.status ≡ TaskStatus.opened
  pub ready : All (λ d. done_task (task_row w p.scope_id d) ≡ true) t.dependencies
  pub claimed : row ≡ taken p now t
  pub one : count (is_open_task p.scope_id id) w.tasks ≡ 1
  pub tasks : w'.tasks ≡ update (is_open_task p.scope_id id) (taken p now) w.tasks

pub eq-one : (n : ℕ) → (n == 1) ≡ true → n ≡ 1
eq-one n h = ground arith

some_injective : {A : Type 0} {a b : A} → some a ≡ some b → a ≡ b
some_injective h = cc

-- The row that a claim leaves is found under the same name.
claimed-row :
    (p : Principal) (id : String) (now : ℕ) (w w' : World) (t row : TaskRow)
    → task_row w p.scope_id id ≡ some t
    → is_open t.status ≡ true
    → w'.tasks ≡ update (is_open_task p.scope_id id) (claim_task_row p now) w.tasks
    → task_row w' p.scope_id id ≡ some row
    → row ≡ claim_task_row p now t
unfolding task_row
claimed-row p id now w w' t row found opened same read = some_injective (
    sym read
    ∙ ap (find (is_task p.scope_id id)) same
    ∙ find-update (is_task p.scope_id id) (is_open_task p.scope_id id) (claim_task_row p now)
        (λ x k. refl) w.tasks t found
        (let e = find_sound (is_task p.scope_id id) w.tasks t found in ground arith))

won :
    (p : Principal) (id : String) (now : ℕ) (w w' : World) (t row : TaskRow)
    → task_row w p.scope_id id ≡ some t
    → is_open t.status ≡ true
    → All (λ d. done_task (task_row w p.scope_id d) ≡ true) t.dependencies
    → count (is_open_task p.scope_id id) w.tasks ≡ 1
    → w'.tasks ≡ update (is_open_task p.scope_id id) (claim_task_row p now) w.tasks
    → task_row w' p.scope_id id ≡ some row
    → IsWon p id w row w'
won p id now w w' t row found opened ready one tasks read = record {
  t = t;
  now = now;
  found = found;
  was_open = is_open-eq t.status opened;
  ready = ready;
  claimed = claimed-row p id now w w' t row found opened tasks read;
  one = one;
  tasks = tasks;
}

-- A claim that succeeds took a task that was open, alone under its name, with every dependency
-- done; the caller gets the row with its agent and execution as the holder, and the table of tasks
-- is changed in that row only.
pub claim_open_task-IsWon :
    (p : Principal) (id : String) (w : World) (task : Task) (w' : World)
    → claim_open_task p id w ≡ ok task w'
    → IsWon p id w task.row w'
unfolding claim_open_task
claim_open_task-IsWon p id w task w' h = through (task_from p.scope_id id) _ h λ k w₁ e₁ h₁.
    through_ensure _ _ (is_open k.row.status) h₁ λ opened h₂.
      through (for_each k.row.dependencies (require_done p.scope_id)) _ h₂ λ u₂ w₂ e₂ h₃.
        through now_millis _ h₃ λ now w₃ e₃ h₄.
          through_update_tasks (is_open_task p.scope_id id) (claim_task_row p now) _ w₃ h₄
            λ w₄ updated h₅.
              through_ensure _ _ (count (is_open_task p.scope_id id) w₃.tasks == 1) h₅ λ one h₆.
                through (append_event p.scope_id _ id _ now) _ h₆ λ u₅ w₅ e₅ h₇.
                  let (f₁, g₁) = task_from-ok p.scope_id id w k w₁ e₁ in
                  let (f₂, g₂) =
                    for_each-checks (require_done p.scope_id)
                      (λ v d. done_task (task_row v p.scope_id d) ≡ true)
                      (require_done-ok p.scope_id) k.row.dependencies w₁ u₂ w₂ e₂ in
                  let (f₆, g₆) = task_from-ok p.scope_id id w₅ task w' h₇ in
                  let before : w₃.tasks ≡ w.tasks =
                    (still-now_millis table table-IsApart).at w₂ now w₃ e₃
                    ∙ ap table (sym g₂ ∙ g₁) in
                  let last : w'.tasks ≡ w₄.tasks =
                    ap table g₆
                    ∙ (still-append_event table table-IsApart p.scope_id _ id _ now).at w₄ u₅ w₅
                        e₅ in
                  won p id now w w' k.row task.row f₁ opened
                    (subst
                      (λ v.
                        All (λ d. done_task (task_row v p.scope_id d) ≡ true) k.row.dependencies)
                      g₁ f₂)
                    (ap (count (is_open_task p.scope_id id)) (sym before) ∙ eq-one _ one)
                    (last
                      ∙ updated
                      ∙ ap (update (is_open_task p.scope_id id) (claim_task_row p now)) before)
                    (subst (λ v. task_row v p.scope_id id ≡ some task.row) (sym g₆) f₆)

-- ClaimTask succeeds only for an execution that is current; it releases the stale claims of the
-- scope first, in the world of the caller with the clock read on, and then claims a task that is
-- open, alone under its name, with every dependency done: the row gets the agent and the execution
-- as its holder, and no other row changes in the claim.
pub claim_task-IsWon :
    (c : Context) (p : Principal) (id : String) (w : World) (task : Task) (w' : World)
    → claim_task c p id w ≡ ok task w'
    → IsCurrent p w
      × (n : ℕ) × (v : World) × (release_stale_task_claims p.scope_id (later n w) ≡ ok tt v)
      × IsWon p id v task.row w'
unfolding claim_task
claim_task-IsWon c p id w task w' h = through (begin_tx c) _ h λ u₁ w₁ e₁ h₁.
    through now_millis _ h₁ λ now w₂ e₂ h₂.
      through (require_current_execution p now) _ h₂ λ u₃ w₃ e₃ h₃.
        through (release_stale_task_claims p.scope_id) _ h₃ λ u₄ w₄ e₄ h₄.
          let (current, n, same) = begun c p w u₁ w₁ now w₂ u₃ w₃ e₁ e₂ e₃ in
          (
            current,
            n,
            w₄,
            ap (release_stale_task_claims p.scope_id) (sym same) ∙ e₄,
            claim_open_task-IsWon p id w₄ task w' h₄,
          )
