-- ===== src/Evolution/Tables.antt =====
-- A world with one table replaced, for each table, and the ways in which a table grows.
use october_bus.Base.{String, Bool, true, List, ◌++◌, ◌≡◌, All}
use october_bus.World.{
  World, AgentRow, LinkRow, MessageRow, TaskRow, ProgressRow, EscalationRow, A2aTaskRow,
}
use october_bus.Rows.{update}
use october_bus.Rows.Laws.{Grows-append, Grows-update}
use october_bus.Evolution.{
  RowRule, Along, message_rule, task_rule, agent_rule, escalation_rule, a2a_task_rule, append_rule,
  Evolves, Evolves-refl,
}

module _ {A : Type 0} (r : RowRule A) where
  pub Along-update :
      (p : A → Bool) (f : A → A)
      → ((x : A) → p x ≡ true → r.Step x (f x))
      → (xs : List A) → Along r xs (update p f xs)
  Along-update p f = Grows-update r.Step r.New p f r.step_refl

  pub Along-append : (xs new : List A) → All r.New new → Along r xs (xs ++ new)
  Along-append = Grows-append r.Step r.New r.step_refl

module _ (s : String) (w : World) where
  pub Evolves-agents :
      (rows : List AgentRow)
      → Along (agent_rule s) w.agents rows
      → Evolves s w (record w { agents = rows })
  Evolves-agents rows h =
      let e = Evolves-refl s w in
      record {
        scopes = e.scopes;
        agents = h;
        links = e.links;
        messages = e.messages;
        tasks = e.tasks;
        progress = e.progress;
        escalations = e.escalations;
        events = e.events;
        a2a_tasks = e.a2a_tasks;
        publications = e.publications;
        others = e.others;
        hashes = e.hashes;
        numbered = e.numbered;
        windowed = e.windowed;
      }

  pub Evolves-links :
      (rows : List LinkRow)
      → Along (append_rule (λ (r : LinkRow). r.scope_id) s) w.links rows
      → Evolves s w (record w { links = rows })
  Evolves-links rows h =
      let e = Evolves-refl s w in
      record {
        scopes = e.scopes;
        agents = e.agents;
        links = h;
        messages = e.messages;
        tasks = e.tasks;
        progress = e.progress;
        escalations = e.escalations;
        events = e.events;
        a2a_tasks = e.a2a_tasks;
        publications = e.publications;
        others = e.others;
        hashes = e.hashes;
        numbered = e.numbered;
        windowed = e.windowed;
      }

  pub Evolves-messages :
      (rows : List MessageRow)
      → Along (message_rule s) w.messages rows
      → Evolves s w (record w { messages = rows })
  Evolves-messages rows h =
      let e = Evolves-refl s w in
      record {
        scopes = e.scopes;
        agents = e.agents;
        links = e.links;
        messages = h;
        tasks = e.tasks;
        progress = e.progress;
        escalations = e.escalations;
        events = e.events;
        a2a_tasks = e.a2a_tasks;
        publications = e.publications;
        others = e.others;
        hashes = e.hashes;
        numbered = e.numbered;
        windowed = e.windowed;
      }

  pub Evolves-tasks :
      (rows : List TaskRow)
      → Along (task_rule s) w.tasks rows
      → Evolves s w (record w { tasks = rows })
  Evolves-tasks rows h =
      let e = Evolves-refl s w in
      record {
        scopes = e.scopes;
        agents = e.agents;
        links = e.links;
        messages = e.messages;
        tasks = h;
        progress = e.progress;
        escalations = e.escalations;
        events = e.events;
        a2a_tasks = e.a2a_tasks;
        publications = e.publications;
        others = e.others;
        hashes = e.hashes;
        numbered = e.numbered;
        windowed = e.windowed;
      }

  pub Evolves-progress :
      (rows : List ProgressRow)
      → Along (append_rule (λ (r : ProgressRow). r.scope_id) s) w.progress rows
      → Evolves s w (record w { progress = rows })
  Evolves-progress rows h =
      let e = Evolves-refl s w in
      record {
        scopes = e.scopes;
        agents = e.agents;
        links = e.links;
        messages = e.messages;
        tasks = e.tasks;
        progress = h;
        escalations = e.escalations;
        events = e.events;
        a2a_tasks = e.a2a_tasks;
        publications = e.publications;
        others = e.others;
        hashes = e.hashes;
        numbered = e.numbered;
        windowed = e.windowed;
      }

  pub Evolves-escalations :
      (rows : List EscalationRow)
      → Along (escalation_rule s) w.escalations rows
      → Evolves s w (record w { escalations = rows })
  Evolves-escalations rows h =
      let e = Evolves-refl s w in
      record {
        scopes = e.scopes;
        agents = e.agents;
        links = e.links;
        messages = e.messages;
        tasks = e.tasks;
        progress = e.progress;
        escalations = h;
        events = e.events;
        a2a_tasks = e.a2a_tasks;
        publications = e.publications;
        others = e.others;
        hashes = e.hashes;
        numbered = e.numbered;
        windowed = e.windowed;
      }

  pub Evolves-a2a_tasks :
      (rows : List A2aTaskRow)
      → Along (a2a_task_rule s) w.a2a_tasks rows
      → Evolves s w (record w { a2a_tasks = rows })
  Evolves-a2a_tasks rows h =
      let e = Evolves-refl s w in
      record {
        scopes = e.scopes;
        agents = e.agents;
        links = e.links;
        messages = e.messages;
        tasks = e.tasks;
        progress = e.progress;
        escalations = e.escalations;
        events = e.events;
        a2a_tasks = h;
        publications = e.publications;
        others = e.others;
        hashes = e.hashes;
        numbered = e.numbered;
        windowed = e.windowed;
      }
