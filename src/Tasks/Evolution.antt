-- ===== src/Tasks/Evolution.antt =====
-- Every operation on tasks moves them along their steps.
use october_bus.Base.{
  ℕ, String, Bool, true, false, Option, none, some, List, [], ◌∷◌, ◌≡◌, refl, arith, eq_iff,
}
use october_bus.Protocol.{Principal, AddTaskInput, AddTaskProgressInput, is_done}
use october_bus.World.{TaskRow}
use october_bus.Tx.{pure}
use october_bus.Tx.Keeps.{
  Keeps, keeps_rules, Keeps-bind, Keeps-pure, Keeps-gets, Keeps-or_fail, Keeps-if,
}
use october_bus.Evolution.{evolution}
use october_bus.Evolution.Steps.{TaskStep, IsNewTask}
use october_bus.Evolution.Statements.{statement_rules}
use october_bus.Events.Evolution.{append_event-Evolves}
use october_bus.Session.{Context}
use october_bus.Session.Evolution.{begin_tx-Evolves, require_current_execution-Evolves}
use october_bus.Tasks.{
  is_claimed_task, release_task_row, release_stale_task, release_stale_task_claims,
  dependencies_done, is_ready, task_from, require_task, check_task_cap, check_creator, new_task,
  add_task, require_done, is_open_task, claim_task_row, claim_open_task, claim_task, is_claimed_by,
  complete_task_row, complete_task, release_task,
}
use october_bus.Tasks.Progress.{add_task_progress}
use october_bus.Tasks.Listing.{list_tasks, tasks_from, task_page}

release_stale-TaskStep :
    (s id : String) (now : ℕ) (t : TaskRow)
    → is_claimed_task s id t ≡ true
    → TaskStep s t (release_task_row now t)
release_stale-TaskStep s id now t h = record {
  elsewhere = ground (arith, eq_iff t.scope_id s);
  content = refl;
  final = ground arith;
  sound = λ k. record { claimed_by_some = refl; claimed_execution_some = refl };
}

release-TaskStep :
    (p : Principal) (id : String) (now : ℕ) (t : TaskRow)
    → is_claimed_by p id t ≡ true
    → TaskStep p.scope_id t (release_task_row now t)
release-TaskStep p id now t h = record {
  elsewhere = ground (arith, eq_iff t.scope_id p.scope_id);
  content = refl;
  final = ground arith;
  sound = λ k. record { claimed_by_some = refl; claimed_execution_some = refl };
}

complete-TaskStep :
    (p : Principal) (id note : String) (now : ℕ) (t : TaskRow)
    → is_claimed_by p id t ≡ true
    → TaskStep p.scope_id t (complete_task_row note now t)
complete-TaskStep p id note now t h = record {
  elsewhere = ground (arith, eq_iff t.scope_id p.scope_id);
  content = refl;
  final = ground arith;
  sound = λ k. record {
    claimed_by_some = ground (arith, k.claimed_by_some);
    claimed_execution_some = ground (arith, k.claimed_execution_some);
  };
}

claim-TaskStep :
    (p : Principal) (id : String) (now : ℕ) (t : TaskRow)
    → is_open_task p.scope_id id t ≡ true
    → TaskStep p.scope_id t (claim_task_row p now t)
claim-TaskStep p id now t h = record {
  elsewhere = ground (arith, eq_iff t.scope_id p.scope_id);
  content = refl;
  final = ground arith;
  sound = λ k. record { claimed_by_some = refl; claimed_execution_some = refl };
}

new_task-IsNewTask :
    (s created_by : String) (input : AddTaskInput) (id : String) (now : ℕ)
    → IsNewTask s (new_task s created_by input id now)
unfolding new_task
new_task-IsNewTask s created_by input id now = record {
  here = refl;
  sound = record { claimed_by_some = refl; claimed_execution_some = refl };
}

ruleset task_rules = (
  keeps_rules, statement_rules, append_event-Evolves, begin_tx-Evolves,
  require_current_execution-Evolves, release_stale-TaskStep, release-TaskStep, complete-TaskStep,
  claim-TaskStep, new_task-IsNewTask,
)

module _ (s : String) where
  release_stale_task-Evolves :
      (now : ℕ) (v : TaskRow) → Keeps (evolution s) (release_stale_task s now v)
  unfolding release_stale_task
  release_stale_task-Evolves now v = search task_rules depth 12

  pub release_stale_task_claims-Evolves : Keeps (evolution s) (release_stale_task_claims s)
  unfolding release_stale_task_claims
  release_stale_task_claims-Evolves = search (task_rules, release_stale_task-Evolves) depth 12

  dependencies_done-Evolves : (ds : List String) → Keeps (evolution s) (dependencies_done s ds)
  unfolding dependencies_done
  dependencies_done-Evolves [] = search keeps_rules
  dependencies_done-Evolves (d ∷ ds) = Keeps-bind _ _ _ (Keeps-gets _ _) λ found.
      Keeps-bind _ _ _ (Keeps-or_fail _ _ _) λ t.
        Keeps-if _ (is_done t.status) (dependencies_done s ds) (pure false)
          (λ _. dependencies_done-Evolves ds) (λ _. Keeps-pure _ false)

  is_ready-Evolves : (t : TaskRow) → Keeps (evolution s) (is_ready s t)
  unfolding is_ready
  is_ready-Evolves t = search (keeps_rules, dependencies_done-Evolves)

  pub task_from-Evolves : (id : String) → Keeps (evolution s) (task_from s id)
  unfolding task_from
  task_from-Evolves id = search (keeps_rules, is_ready-Evolves) depth 12

  require_task-Evolves : (id : String) → Keeps (evolution s) (require_task s id)
  unfolding require_task
  require_task-Evolves id = search keeps_rules

  require_done-Evolves : (id : String) → Keeps (evolution s) (require_done s id)
  unfolding require_done
  require_done-Evolves id = search keeps_rules

  check_task_cap-Evolves : Keeps (evolution s) (check_task_cap s)
  unfolding check_task_cap
  check_task_cap-Evolves = search keeps_rules

  check_creator-Evolves : (p : Option Principal) → Keeps (evolution s) (check_creator p)
  unfolding check_creator
  check_creator-Evolves none = search keeps_rules
  check_creator-Evolves (some p) = search task_rules

  pub add_task-Evolves :
      (c : Context) (created_by : String) (p : Option Principal) (input : AddTaskInput)
      → Keeps (evolution s) (add_task c s created_by p input)
  unfolding add_task
  add_task-Evolves c created_by p input =
      search
        (
          task_rules, check_creator-Evolves, check_task_cap-Evolves, require_task-Evolves,
          task_from-Evolves,
        )
        depth 24

  tasks_from-Evolves : (ts : List TaskRow) → Keeps (evolution s) (tasks_from s ts)
  unfolding tasks_from
  tasks_from-Evolves [] = search keeps_rules
  tasks_from-Evolves (t ∷ ts) =
      Keeps-bind _ _ _ (task_from-Evolves t.task_id)
        λ task. Keeps-bind _ _ _ (tasks_from-Evolves ts) λ others. Keeps-pure _ _

  pub list_tasks-Evolves :
      (c : Context) (ready_only : Bool) → Keeps (evolution s) (list_tasks c s ready_only)
  unfolding list_tasks
  list_tasks-Evolves c ready_only = search (task_rules, release_stale_task_claims-Evolves) depth 16

  pub task_page-Evolves :
      (c : Context) (after : String) (limit : ℕ) → Keeps (evolution s) (task_page c s after limit)
  unfolding task_page
  task_page-Evolves c after limit =
      search (task_rules, release_stale_task_claims-Evolves, tasks_from-Evolves) depth 16

module _ (p : Principal) where
  claim_open_task-Evolves : (id : String) → Keeps (evolution p.scope_id) (claim_open_task p id)
  unfolding claim_open_task
  claim_open_task-Evolves id = search (task_rules, task_from-Evolves, require_done-Evolves) depth 24

module _ (c : Context) (p : Principal) (id : String) where
  pub claim_task-Evolves : Keeps (evolution p.scope_id) (claim_task c p id)
  unfolding claim_task
  claim_task-Evolves =
      search (task_rules, release_stale_task_claims-Evolves, claim_open_task-Evolves) depth 16

  pub complete_task-Evolves :
      (note : String) → Keeps (evolution p.scope_id) (complete_task c p id note)
  unfolding complete_task
  complete_task-Evolves note = search (task_rules, task_from-Evolves) depth 20

  pub release_task-Evolves : Keeps (evolution p.scope_id) (release_task c p id)
  unfolding release_task
  release_task-Evolves = search (task_rules, task_from-Evolves) depth 20

  pub add_task_progress-Evolves :
      (input : AddTaskProgressInput) → Keeps (evolution p.scope_id) (add_task_progress c p id input)
  unfolding add_task_progress
  add_task_progress-Evolves input = search task_rules depth 24
