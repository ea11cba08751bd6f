-- ===== src/Evolution.antt =====
-- How a successful transaction of one scope may change the tables: in ten of them rows stay in their
-- places and follow the steps of Evolution/Steps, and new rows come behind them; for the shared tables
-- see Evolution/Others and Evolution/Windows.
pub mod Steps
pub mod Numbering
pub mod Windows
pub mod Others
pub mod Tables
pub mod Unlogged
pub mod Statements
use october_bus.Base.{String, Bool, true, List, [], ◌∷◌, ◌++◌, ◌≡◌, ◌≢◌, refl, ap, ◌∙◌}
use october_bus.World.{
  World, ScopeRow, AgentRow, LinkRow, MessageRow, TaskRow, ProgressRow, EscalationRow, EventRow,
  PublicationRow, A2aTaskRow, Hashes,
}
use october_bus.Rows.{update}
use october_bus.Rows.Laws.{Grows, Grows-refl, Grows-trans, Grows-append, Grows-update}
use october_bus.Tx.Keeps.{Guarantee}
use Numbering.{IsNumbered}
use Windows.{IsWindowed}
use Others.{KeepsOthers, KeepsOthers-refl, KeepsOthers-trans}
use Steps.{
  MessageStep, MessageStep-refl, MessageStep-trans, IsNewMessage, IsNewMessage-step, TaskStep,
  TaskStep-refl, TaskStep-trans, IsNewTask, IsNewTask-step, AgentStep, AgentStep-refl,
  AgentStep-trans, EscalationStep, EscalationStep-refl, EscalationStep-trans, A2aTaskStep,
  A2aTaskStep-refl, A2aTaskStep-trans, ScopeStep, ScopeStep-refl, ScopeStep-trans, PublicationStep,
  PublicationStep-refl, PublicationStep-trans,
}

-- What may happen to the rows of a table.
pub record RowRule (A : Type 0) : Type 1 where
  pub Step : A → A → Type 0
  pub New : A → Type 0
  pub step_refl : (x : A) → Step x x
  pub step_trans : (x y z : A) → Step x y → Step y z → Step x z
  pub new_step : (x y : A) → New x → Step x y → New y

abbrev pub Along : {A : Type 0} → RowRule A → List A → List A → Type 0
Along r xs ys = Grows r.Step r.New xs ys

module _ {A : Type 0} (r : RowRule A) where
  pub Along-refl : (xs : List A) → Along r xs xs
  Along-refl = Grows-refl r.Step r.New r.step_refl

  pub Along-trans : (xs ys zs : List A) → Along r xs ys → Along r ys zs → Along r xs zs
  Along-trans = Grows-trans r.Step r.New r.step_trans r.new_step

abbrev pub message_rule : String → RowRule MessageRow
message_rule s = record {
  Step = MessageStep s;
  New = IsNewMessage s;
  step_refl = MessageStep-refl s;
  step_trans = MessageStep-trans s;
  new_step = IsNewMessage-step s;
}

abbrev pub task_rule : String → RowRule TaskRow
task_rule s = record {
  Step = TaskStep s;
  New = IsNewTask s;
  step_refl = TaskStep-refl s;
  step_trans = TaskStep-trans s;
  new_step = IsNewTask-step s;
}

abbrev pub agent_rule : String → RowRule AgentRow
agent_rule s = record {
  Step = AgentStep s;
  New = λ a. a.scope_id ≡ s;
  step_refl = AgentStep-refl s;
  step_trans = AgentStep-trans s;
  new_step = λ a b h g. g.same_scope ∙ h;
}

abbrev pub escalation_rule : String → RowRule EscalationRow
escalation_rule s = record {
  Step = EscalationStep s;
  New = λ e. e.scope_id ≡ s;
  step_refl = EscalationStep-refl s;
  step_trans = EscalationStep-trans s;
  new_step = λ e f h g. ap (λ (r : EscalationRow). r.scope_id) g.content ∙ h;
}

abbrev pub a2a_task_rule : String → RowRule A2aTaskRow
a2a_task_rule s = record {
  Step = A2aTaskStep s;
  New = λ t. t.scope_id ≡ s;
  step_refl = A2aTaskStep-refl s;
  step_trans = A2aTaskStep-trans s;
  new_step = λ t u h g. ap (λ (r : A2aTaskRow). r.scope_id) g.content ∙ h;
}

abbrev pub publication_rule : String → RowRule PublicationRow
publication_rule s = record {
  Step = PublicationStep s;
  New = λ a. a.scope_id ≡ s;
  step_refl = PublicationStep-refl s;
  step_trans = PublicationStep-trans s;
  new_step = λ a b h g. ap (λ (r : PublicationRow). r.scope_id) g.content ∙ h;
}

abbrev pub scope_rule : String → RowRule ScopeRow
scope_rule s = record {
  Step = ScopeStep s;
  New = λ a. a.scope_id ≡ s;
  step_refl = ScopeStep-refl s;
  step_trans = ScopeStep-trans s;
  new_step = λ a b h g. ap (λ (r : ScopeRow). r.scope_id) g.content ∙ h;
}

-- A table whose rows never change; `scope` is the scope of a row.
abbrev pub append_rule : {A : Type 0} → (A → String) → String → RowRule A
append_rule scope s = record {
  Step = λ x y. y ≡ x;
  New = λ x. scope x ≡ s;
  step_refl = λ x. refl;
  step_trans = λ x y z g h. h ∙ g;
  new_step = λ x y h g. ap scope g ∙ h;
}

pub record Evolves (s : String) (v w : World) : Type 0 where
  pub scopes : Along (scope_rule s) v.scopes w.scopes
  pub agents : Along (agent_rule s) v.agents w.agents
  pub links : Along (append_rule (λ (r : LinkRow). r.scope_id) s) v.links w.links
  pub messages : Along (message_rule s) v.messages w.messages
  pub tasks : Along (task_rule s) v.tasks w.tasks
  pub progress : Along (append_rule (λ (r : ProgressRow). r.scope_id) s) v.progress w.progress
  pub escalations : Along (escalation_rule s) v.escalations w.escalations
  pub events : Along (append_rule (λ (r : EventRow). r.scope_id) s) v.events w.events
  pub a2a_tasks : Along (a2a_task_rule s) v.a2a_tasks w.a2a_tasks
  pub publications : Along (publication_rule s) v.publications w.publications
  pub others : KeepsOthers s v.resources w.resources
  pub hashes : w.hashes ≡ v.hashes
  pub numbered : IsNumbered v.scopes v.events → IsNumbered w.scopes w.events
  pub windowed :
      IsWindowed v.resources.streams v.resources.values
      → IsWindowed w.resources.streams w.resources.values

pub Evolves-refl : (s : String) (w : World) → Evolves s w w
Evolves-refl s w = record {
  scopes = Along-refl (scope_rule s) w.scopes;
  agents = Along-refl (agent_rule s) w.agents;
  links = Along-refl (append_rule _ s) w.links;
  messages = Along-refl (message_rule s) w.messages;
  tasks = Along-refl (task_rule s) w.tasks;
  progress = Along-refl (append_rule _ s) w.progress;
  escalations = Along-refl (escalation_rule s) w.escalations;
  events = Along-refl (append_rule _ s) w.events;
  a2a_tasks = Along-refl (a2a_task_rule s) w.a2a_tasks;
  publications = Along-refl (publication_rule s) w.publications;
  others = KeepsOthers-refl s w.resources;
  hashes = refl;
  numbered = λ n. n;
  windowed = λ n. n;
}

pub Evolves-trans : (s : String) (u v w : World) → Evolves s u v → Evolves s v w → Evolves s u w
Evolves-trans s u v w g h = record {
  scopes = Along-trans (scope_rule s) u.scopes v.scopes w.scopes g.scopes h.scopes;
  agents = Along-trans (agent_rule s) u.agents v.agents w.agents g.agents h.agents;
  links = Along-trans (append_rule _ s) u.links v.links w.links g.links h.links;
  messages = Along-trans (message_rule s) u.messages v.messages w.messages g.messages h.messages;
  tasks = Along-trans (task_rule s) u.tasks v.tasks w.tasks g.tasks h.tasks;
  progress = Along-trans (append_rule _ s) u.progress v.progress w.progress g.progress h.progress;
  escalations =
      Along-trans (escalation_rule s) u.escalations v.escalations w.escalations g.escalations
        h.escalations;
  events = Along-trans (append_rule _ s) u.events v.events w.events g.events h.events;
  a2a_tasks =
      Along-trans (a2a_task_rule s) u.a2a_tasks v.a2a_tasks w.a2a_tasks g.a2a_tasks h.a2a_tasks;
  publications =
      Along-trans (publication_rule s) u.publications v.publications w.publications g.publications
        h.publications;
  others = KeepsOthers-trans s u.resources v.resources w.resources g.others h.others;
  hashes = h.hashes ∙ g.hashes;
  numbered = λ n. h.numbered (g.numbered n);
  windowed = λ n. h.windowed (g.windowed n);
}

abbrev pub evolution : String → Guarantee
evolution s = record { Rel = Evolves s; rel_refl = Evolves-refl s; rel_trans = Evolves-trans s }
