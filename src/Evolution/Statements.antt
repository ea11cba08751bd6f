-- ===== src/Evolution/Statements.antt =====
-- What each statement of a transaction does to the tables, under a condition on the rows that it
-- changes or adds.
use october_bus.Base.{
  String, Bool, true, List, [], ◌∷◌, ◌≡◌, subst, All, ◌is◌, Bool-cases, inl, inr,
}
use october_bus.World.{
  Resources, AgentRow, LinkRow, MessageRow, ReservationRow, TaskRow, ProgressRow, EscalationRow,
  PublicationRow, A2aTaskRow, CorrelationRow,
}
use october_bus.Rows.{exists}
use october_bus.Tx.{
  alter, now_millis, random_id, update_agents, insert_agent, insert_links, update_messages,
  insert_message, insert_reservation, delete_reservations, update_tasks, insert_task,
  insert_progress, update_escalations, insert_escalation, update_publications, update_a2a_tasks,
  update_correlations,
}
use october_bus.Tx.Keeps.{Keeps, ok_world}
use october_bus.Evolution.{
  message_rule, task_rule, agent_rule, escalation_rule, a2a_task_rule, append_rule,
  publication_rule, Evolves, evolution,
}
use october_bus.Evolution.Unlogged.{
  Evolves-clock, Evolves-entropy, Evolves-reservations, Evolves-publications, Evolves-correlations,
  Evolves-resources,
}
use october_bus.Evolution.Tables.{
  Along-update, Along-append, Evolves-agents, Evolves-links, Evolves-messages, Evolves-tasks,
  Evolves-progress, Evolves-escalations, Evolves-a2a_tasks,
}
use october_bus.Evolution.Windows.{IsWindowed}
use october_bus.Evolution.Others.{KeepsOthers, KeepsOthers-apart}
use october_bus.Evolution.Steps.{IsNewMessage, IsNewTask}

module _ (s : String) where
  pub now_millis-Evolves : Keeps (evolution s) (now_millis)
  unfolding now_millis
  now_millis-Evolves = record {
    at = λ w a w' h. subst (Evolves s w) (ok_world h) (Evolves-clock s w _);
  }

  pub random_id-Evolves : (prefix : String) → Keeps (evolution s) (random_id prefix)
  unfolding random_id
  random_id-Evolves prefix = record {
    at = λ w a w' h. subst (Evolves s w) (ok_world h) (Evolves-entropy s w _);
  }

  pub delete_reservations-Evolves :
      (p : ReservationRow → Bool) → Keeps (evolution s) (delete_reservations p)
  unfolding delete_reservations
  delete_reservations-Evolves p = record {
    at = λ w a w' h. subst (Evolves s w) (ok_world h) (Evolves-reservations s w _);
  }

  pub update_publications-Evolves :
      (p : PublicationRow → Bool) (f : PublicationRow → PublicationRow)
      → ((x : PublicationRow) → p x ≡ true → (publication_rule s).Step x (f x))
      → Keeps (evolution s) (update_publications p f)
  unfolding update_publications
  update_publications-Evolves p f step = record {
    at = λ w a w' h.
        subst (Evolves s w) (ok_world h)
          (Evolves-publications s w _ (Along-update (publication_rule s) p f step w.publications));
  }

  pub update_correlations-Evolves :
      (p : CorrelationRow → Bool) (f : CorrelationRow → CorrelationRow)
      → Keeps (evolution s) (update_correlations p f)
  unfolding update_correlations
  update_correlations-Evolves p f = record {
    at = λ w a w' h. subst (Evolves s w) (ok_world h) (Evolves-correlations s w _);
  }

  pub update_agents-Evolves :
      (p : AgentRow → Bool) (f : AgentRow → AgentRow)
      → ((x : AgentRow) → p x ≡ true → (agent_rule s).Step x (f x))
      → Keeps (evolution s) (update_agents p f)
  unfolding update_agents
  update_agents-Evolves p f step = record {
    at = λ w a w' h.
        subst (Evolves s w) (ok_world h)
          (Evolves-agents s w _ (Along-update (agent_rule s) p f step w.agents));
  }

  pub update_messages-Evolves :
      (p : MessageRow → Bool) (f : MessageRow → MessageRow)
      → ((x : MessageRow) → p x ≡ true → (message_rule s).Step x (f x))
      → Keeps (evolution s) (update_messages p f)
  unfolding update_messages
  update_messages-Evolves p f step = record {
    at = λ w a w' h.
        subst (Evolves s w) (ok_world h)
          (Evolves-messages s w _ (Along-update (message_rule s) p f step w.messages));
  }

  pub update_tasks-Evolves :
      (p : TaskRow → Bool) (f : TaskRow → TaskRow)
      → ((x : TaskRow) → p x ≡ true → (task_rule s).Step x (f x))
      → Keeps (evolution s) (update_tasks p f)
  unfolding update_tasks
  update_tasks-Evolves p f step = record {
    at = λ w a w' h.
        subst (Evolves s w) (ok_world h)
          (Evolves-tasks s w _ (Along-update (task_rule s) p f step w.tasks));
  }

  pub update_escalations-Evolves :
      (p : EscalationRow → Bool) (f : EscalationRow → EscalationRow)
      → ((x : EscalationRow) → p x ≡ true → (escalation_rule s).Step x (f x))
      → Keeps (evolution s) (update_escalations p f)
  unfolding update_escalations
  update_escalations-Evolves p f step = record {
    at = λ w a w' h.
        subst (Evolves s w) (ok_world h)
          (Evolves-escalations s w _ (Along-update (escalation_rule s) p f step w.escalations));
  }

  pub update_a2a_tasks-Evolves :
      (p : A2aTaskRow → Bool) (f : A2aTaskRow → A2aTaskRow)
      → ((x : A2aTaskRow) → p x ≡ true → (a2a_task_rule s).Step x (f x))
      → Keeps (evolution s) (update_a2a_tasks p f)
  unfolding update_a2a_tasks
  update_a2a_tasks-Evolves p f step = record {
    at = λ w a w' h.
        subst (Evolves s w) (ok_world h)
          (Evolves-a2a_tasks s w _ (Along-update (a2a_task_rule s) p f step w.a2a_tasks));
  }

  pub insert_agent-Evolves :
      (row : AgentRow) → row.scope_id ≡ s → Keeps (evolution s) (insert_agent row)
  unfolding insert_agent
  insert_agent-Evolves row new = record {
    at = λ w a w' h.
        subst (Evolves s w) (ok_world h)
          (Evolves-agents s w _ (Along-append (agent_rule s) w.agents (row ∷ []) (new, tt)));
  }

  pub insert_progress-Evolves :
      (row : ProgressRow) → row.scope_id ≡ s → Keeps (evolution s) (insert_progress row)
  unfolding insert_progress
  insert_progress-Evolves row new = record {
    at = λ w a w' h. subst (Evolves s w) (ok_world h) (
        Evolves-progress s w _ (
          Along-append (append_rule (λ (r : ProgressRow). r.scope_id) s) w.progress (row ∷ [])
            (new, tt)));
  }

  pub insert_links-Evolves :
      (rows : List LinkRow)
      → All (λ (r : LinkRow). r.scope_id ≡ s) rows
      → Keeps (evolution s) (insert_links rows)
  unfolding insert_links
  insert_links-Evolves rows new = record {
    at = λ w a w' h. subst (Evolves s w) (ok_world h) (
        Evolves-links s w _
          (Along-append (append_rule (λ (r : LinkRow). r.scope_id) s) w.links rows new));
  }

  pub insert_message-Evolves :
      (row : MessageRow) → IsNewMessage s row → Keeps (evolution s) (insert_message row)
  unfolding insert_message
  insert_message-Evolves row new = record {
    at = λ w a w' h.
        elim (Bool-cases (exists (λ (x : MessageRow). x.message_id is row.message_id) w.messages)) [
          | inl e ↦ cc (rw e at h)
          | inr e ↦ subst (Evolves s w) (ok_world (rw e at h)) (
              Evolves-messages s w _
                (Along-append (message_rule s) w.messages (row ∷ []) (new, tt)))
        ];
  }

  pub insert_task-Evolves :
      (row : TaskRow) → IsNewTask s row → Keeps (evolution s) (insert_task row)
  unfolding insert_task
  insert_task-Evolves row new = record {
    at = λ w a w' h.
        elim (Bool-cases (exists (λ (x : TaskRow). x.task_id is row.task_id) w.tasks)) [
          | inl e ↦ cc (rw e at h)
          | inr e ↦
              subst (Evolves s w) (ok_world (rw e at h))
                (Evolves-tasks s w _ (Along-append (task_rule s) w.tasks (row ∷ []) (new, tt)))
        ];
  }

  pub insert_escalation-Evolves :
      (row : EscalationRow) → row.scope_id ≡ s → Keeps (evolution s) (insert_escalation row)
  unfolding insert_escalation
  insert_escalation-Evolves row new = record {
    at = λ w a w' h.
        elim (Bool-cases
          (exists (λ (x : EscalationRow). x.escalation_id is row.escalation_id) w.escalations)) [
            | inl e ↦ cc (rw e at h)
            | inr e ↦ subst (Evolves s w) (ok_world (rw e at h)) (
                Evolves-escalations s w _
                  (Along-append (escalation_rule s) w.escalations (row ∷ []) (new, tt)))
          ];
  }

  pub insert_reservation-Evolves :
      (row : ReservationRow) → Keeps (evolution s) (insert_reservation row)
  unfolding insert_reservation
  insert_reservation-Evolves row = record {
    at = λ w a w' h.
        elim (Bool-cases (
          exists (λ (x : ReservationRow). x.reservation_id is row.reservation_id) w.reservations)) [
            | inl e ↦ cc (rw e at h)
            | inr e ↦ subst (Evolves s w) (ok_world (rw e at h)) (Evolves-reservations s w _)
          ];
  }

  pub insert_link-Evolves :
      (row : LinkRow) → row.scope_id ≡ s → Keeps (evolution s) (insert_links (row ∷ []))
  insert_link-Evolves row new = insert_links-Evolves (row ∷ []) (new, tt)

  pub alter-Evolves :
      (f : Resources → Resources)
      → ((r : Resources) → IsWindowed r.streams r.values → IsWindowed (f r).streams (f r).values)
      → ((r : Resources) → KeepsOthers s r (f r))
      → Keeps (evolution s) (alter f)
  unfolding alter
  alter-Evolves f keeps others = record {
    at = λ w a w' h.
        subst (Evolves s w) (ok_world h)
          (Evolves-resources s w _ (keeps w.resources) (others w.resources));
  }

pub ruleset statement_rules = (
  KeepsOthers-apart, alter-Evolves, now_millis-Evolves, random_id-Evolves,
  delete_reservations-Evolves, update_publications-Evolves, update_correlations-Evolves,
  update_agents-Evolves, update_messages-Evolves, update_tasks-Evolves, update_escalations-Evolves,
  update_a2a_tasks-Evolves, insert_agent-Evolves, insert_progress-Evolves, insert_links-Evolves,
  insert_link-Evolves, insert_message-Evolves, insert_task-Evolves, insert_escalation-Evolves,
  insert_reservation-Evolves,
)
