-- ===== src/Tests/Work.antt =====
-- The statements on tasks, agents, links and remote tasks, in the scene.
use october_bus.A2a.States.{a2a_task_terminal, valid_a2a_task_transition}
use october_bus.A2a.Transitions.{terminal-transitions}
use october_bus.Agents.{
  RegisterAgentResult, agent_id_for, insert_peer_links, link_registered_peers, new_agent,
  peers_to_link, refuse_self, register_agent, register_agent_tx, release_agent_reservations,
  require_agent, touch_publications, upsert_agent,
}
use october_bus.Agents.Fencing.{register_agent-replaces}
use october_bus.Base.{ℕ, String, [], eq_iff, false, none, refl, text_ltb, true, ◌∙◌, ◌∷◌, ◌≡◌, ◌≢◌}
use october_bus.Escalations.{ask_human, check_escalation_caps, escalation_from}
use october_bus.Escalations.Caps.{IsWithinCaps, ask_human-IsWithinCaps}
use october_bus.Events.{
  append_batch, append_event, append_events, append_rounds, event_attributes, number_events,
}
use october_bus.Peers.{agent_exists, insert_link, linked_agents, ordered_peers}
use october_bus.Peers.Laws.{linked_agents_comm}
use october_bus.Protocol.{
  A2aTaskState, AddTaskProgressInput, AskHumanInput, ErrorCode, EscalationStatus,
  RegisterAgentInput, TaskStatus, lifecycle_text, same_a2a_state,
}
use october_bus.Rows.{
  nullable_string, count, exists, find, insert_by, select, sort_by, unique, unique_from, update,
}
use october_bus.Session.Current.{IsCurrent, later}
use october_bus.Session.{agent_row, begin_tx, holds_agent, require_current_execution}
use october_bus.Tasks.{
  Task, claim_open_task, claim_task, complete_task, dependencies_done, is_holder, is_ready,
  is_stale, recent_progress_for_task, release_stale_task, release_stale_task_claims, release_task,
  require_done, task_from, task_row,
}
use october_bus.Tasks.Claims.{IsWon, claim_task-IsWon}
use october_bus.Tasks.HandIns.{IsHandedIn, complete_task-IsHandedIn, release_task-IsHandedIn}
use october_bus.Tasks.Progress.{add_task_progress, entries, last_sequence, total_bytes}
use october_bus.Tasks.Progress.Caps.{IsLogged, add_task_progress-IsLogged}
use october_bus.Tests.Scene.{a, b, left, nobody, scene, task}
use october_bus.Tx.{
  Outcome, ensure, err, for_each, gets, insert_escalation, insert_events, insert_links,
  insert_progress, now_millis, ok, or_fail, pure, random_id, update_agents, update_publications,
  update_scopes, update_tasks, when, ◌>>=◌,
}
use october_bus.World.{EscalationRow, ProgressRow, World}

abbrev task_of : Outcome Task → Task
task_of (ok t w) = t
task_of (err c) = record {
  row = task "" TaskStatus.opened none [];
  ready = false;
  recent_progress = [];
}

abbrev entry_of : Outcome ProgressRow → ProgressRow
entry_of (ok r w) = r
entry_of (err c) = record {
  task_id = "";
  scope_id = "";
  sequence = 0;
  agent_id = "";
  execution_id = "";
  kind = "";
  text = "";
  created_at = 0;
}

abbrev result_of : Outcome RegisterAgentResult → RegisterAgentResult
result_of (ok r w) = r
result_of (err c) = record { identity = a; agent_token = ""; lease_expires_at = 0 }

abbrev step : AddTaskProgressInput
step = record { kind = "note"; text = "half" }

abbrev entry : RegisterAgentInput
entry = record {
  id = "a";
  display_name = "again";
  capabilities = [];
  lease_ms = 60000;
  connect_to = "b" ∷ [];
  connect_workspace = false;
}

claim_task_runs :
    claim_task nobody b "o" scene
    ≡ ok (task_of (claim_task nobody b "o" scene)) (left (claim_task nobody b "o" scene))
unfolding ◌>>=◌ pure gets or_fail ensure when now_millis random_id for_each begin_tx agent_row
    holds_agent require_current_execution find exists count select update sort_by insert_by
    event_attributes number_events append_batch append_rounds append_events append_event
    update_scopes insert_events task_row task_from is_ready dependencies_done
    recent_progress_for_task update_tasks claim_task claim_open_task require_done
    release_stale_task_claims release_stale_task is_stale is_holder
claim_task_runs = refl

claim_task_example :
    IsCurrent b scene
    × (n : ℕ) × (v : World) × (release_stale_task_claims b.scope_id (later n scene) ≡ ok tt v)
    × IsWon b "o" v
        (task_of (claim_task nobody b "o" scene)).row
        (left (claim_task nobody b "o" scene))
claim_task_example =
    claim_task-IsWon nobody b "o" scene (task_of (claim_task nobody b "o" scene))
      (left (claim_task nobody b "o" scene)) claim_task_runs

complete_task_runs :
    complete_task nobody a "c" "ok" scene
    ≡ ok
        (task_of (complete_task nobody a "c" "ok" scene))
        (left (complete_task nobody a "c" "ok" scene))
unfolding ◌>>=◌ pure gets or_fail ensure when now_millis random_id for_each begin_tx agent_row
    holds_agent require_current_execution find exists count select update sort_by insert_by
    event_attributes number_events append_batch append_rounds append_events append_event
    update_scopes insert_events task_row task_from is_ready dependencies_done
    recent_progress_for_task update_tasks complete_task
complete_task_runs = refl

complete_task_example :
    IsHandedIn a "c"
      (λ now t. record t {
        status = TaskStatus.done;
        note = nullable_string "ok";
        updated_at = now;
      })
      scene
      (task_of (complete_task nobody a "c" "ok" scene)).row
      (left (complete_task nobody a "c" "ok" scene))
complete_task_example =
    complete_task-IsHandedIn nobody a "c" "ok" scene
      (task_of (complete_task nobody a "c" "ok" scene))
      (left (complete_task nobody a "c" "ok" scene)) complete_task_runs

release_task_runs :
    release_task nobody a "c" scene
    ≡ ok (task_of (release_task nobody a "c" scene)) (left (release_task nobody a "c" scene))
unfolding ◌>>=◌ pure gets or_fail ensure when now_millis random_id for_each begin_tx agent_row
    holds_agent require_current_execution find exists count select update sort_by insert_by
    event_attributes number_events append_batch append_rounds append_events append_event
    update_scopes insert_events task_row task_from is_ready dependencies_done
    recent_progress_for_task update_tasks release_task
release_task_runs = refl

release_task_example :
    IsHandedIn a "c"
      (λ now t. record t {
        status = TaskStatus.opened;
        claimed_by = none;
        claimed_execution_id = none;
        updated_at = now;
      })
      scene
      (task_of (release_task nobody a "c" scene)).row
      (left (release_task nobody a "c" scene))
release_task_example =
    release_task-IsHandedIn nobody a "c" scene (task_of (release_task nobody a "c" scene))
      (left (release_task nobody a "c" scene)) release_task_runs

add_task_progress_runs :
    add_task_progress nobody a "c" step scene
    ≡ ok
        (entry_of (add_task_progress nobody a "c" step scene))
        (left (add_task_progress nobody a "c" step scene))
unfolding ◌>>=◌ pure gets or_fail ensure when now_millis random_id for_each begin_tx agent_row
    holds_agent require_current_execution find exists count select update sort_by insert_by
    event_attributes number_events append_batch append_rounds append_events append_event
    update_scopes insert_events task_row add_task_progress entries total_bytes last_sequence
    insert_progress
add_task_progress_runs = refl

add_task_progress_example :
    IsCurrent a scene
    × IsLogged a "c" scene
        (entry_of (add_task_progress nobody a "c" step scene))
        (left (add_task_progress nobody a "c" step scene))
add_task_progress_example =
    add_task_progress-IsLogged nobody a "c" step scene
      (entry_of (add_task_progress nobody a "c" step scene))
      (left (add_task_progress nobody a "c" step scene)) add_task_progress_runs

register_agent_runs :
    register_agent nobody "s" entry scene
    ≡ ok
        (result_of (register_agent nobody "s" entry scene))
        (left (register_agent nobody "s" entry scene))
unfolding ◌>>=◌ pure gets or_fail ensure when now_millis random_id for_each begin_tx agent_row
    holds_agent require_current_execution find exists count select update sort_by insert_by
    event_attributes number_events append_batch append_rounds append_events append_event
    update_scopes insert_events register_agent register_agent_tx agent_id_for upsert_agent new_agent
    release_agent_reservations touch_publications peers_to_link link_registered_peers
    insert_peer_links refuse_self require_agent release_stale_task_claims release_stale_task
    is_stale is_holder update_agents update_publications insert_link agent_exists ordered_peers
    text_ltb unique unique_from update_tasks lifecycle_text insert_links
register_agent_runs = refl

abbrev former : String
former = "a"

differ : former ≢ "exec_x"
differ = λ e. absurd (not_true ((eq_iff "a" "exec_x").1 e))
  where
    not_true : false ≡ true → ⊥
    not_true h = cc

same_execution :
    (result_of (register_agent nobody "s" entry scene)).identity.execution_id ≡ "exec_x"
unfolding ◌>>=◌ pure gets or_fail ensure when now_millis random_id for_each begin_tx agent_row
    holds_agent require_current_execution find exists count select update sort_by insert_by
    event_attributes number_events append_batch append_rounds append_events append_event
    update_scopes insert_events register_agent register_agent_tx agent_id_for upsert_agent new_agent
    release_agent_reservations touch_publications peers_to_link link_registered_peers
    insert_peer_links refuse_self require_agent release_stale_task_claims release_stale_task
    is_stale is_holder update_agents update_publications insert_link agent_exists ordered_peers
    text_ltb unique unique_from update_tasks lifecycle_text insert_links
same_execution = refl

register_agent-replaces_example :
    require_current_execution
      (record {
        scope_id = "s";
        agent_id = (result_of (register_agent nobody "s" entry scene)).identity.agent_id;
        execution_id = "a";
      })
      200
      (left (register_agent nobody "s" entry scene))
    ≡ err ErrorCode.unauthenticated
register_agent-replaces_example =
    register_agent-replaces nobody "s" entry scene
      (result_of (register_agent nobody "s" entry scene))
      (left (register_agent nobody "s" entry scene)) "a" 200 register_agent_runs
      (λ e. differ (e ∙ same_execution))

linked_agents_comm_example : linked_agents scene "s" "a" "b" ≡ linked_agents scene "s" "b" "a"
linked_agents_comm_example = linked_agents_comm scene "s" "a" "b"

terminal-transitions_example :
    (a2a_task_terminal A2aTaskState.failed ≡ true
      → valid_a2a_task_transition A2aTaskState.failed A2aTaskState.working
        ≡ same_a2a_state A2aTaskState.failed A2aTaskState.working)
    × (a2a_task_terminal A2aTaskState.failed ≡ false
        → a2a_task_terminal A2aTaskState.working ≡ true
        → valid_a2a_task_transition A2aTaskState.failed A2aTaskState.working ≡ true)
terminal-transitions_example = terminal-transitions A2aTaskState.failed A2aTaskState.working

abbrev question : AskHumanInput
question = record { question = "may I?"; options = "yes" ∷ "no" ∷ [] }

abbrev escalation_of : Outcome EscalationRow → EscalationRow
escalation_of (ok e w) = e
escalation_of (err c) = record {
  escalation_id = "";
  scope_id = "";
  agent_id = "";
  question = "";
  options = [];
  status = EscalationStatus.pending;
  answer = none;
  created_at = 0;
  resolved_at = none;
}

ask_human_runs :
    ask_human nobody a question scene
    ≡ ok
        (escalation_of (ask_human nobody a question scene))
        (left (ask_human nobody a question scene))
unfolding ◌>>=◌ pure gets or_fail ensure when now_millis random_id for_each begin_tx agent_row
    holds_agent require_current_execution find exists count select update sort_by insert_by
    event_attributes number_events append_batch append_rounds append_events append_event
    update_scopes insert_events ask_human check_escalation_caps escalation_from insert_escalation
ask_human_runs = refl

ask_human_example : IsWithinCaps a (left (ask_human nobody a question scene)).escalations
ask_human_example =
    ask_human-IsWithinCaps nobody a question scene
      (escalation_of (ask_human nobody a question scene)) (left (ask_human nobody a question scene))
      ask_human_runs
