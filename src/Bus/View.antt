-- ===== src/Bus/View.antt =====
-- What a scope can see of fourteen tables, and requests of other scopes.
use october_bus.Base.{
  String, false, List, [], ◌∷◌, ◌≡◌, ◌≢◌, refl, ap, sym, ◌∙◌, arith, ◌is◌, All, Bool-cases, inl,
  inr, eq_iff,
}
use october_bus.World.{
  World, ScopeRow, AgentRow, LinkRow, MessageRow, TaskRow, ProgressRow, EscalationRow, EventRow,
  PublicationRow, A2aTaskRow, UsageRow, ChannelRow, SubscriptionRow, PostRow,
}
use october_bus.Rows.{select}
use october_bus.Evolution.{
  RowRule, Along, message_rule, task_rule, agent_rule, escalation_rule, a2a_task_rule, scope_rule,
  publication_rule, append_rule, Evolves,
}
use october_bus.Evolution.Others.{SameOthers}
use october_bus.Bus.{Request, scope_of, after}
use october_bus.Bus.Isolation.{after-Evolves}

-- The rows of a scope in the tables whose rows the statements address by their scope. The others are
-- addressed by an identifier alone: streams, publishers, values, credentials, grants, reservations
-- and correlations.
pub record View : Type 0 where
  pub scopes : List ScopeRow
  pub agents : List AgentRow
  pub links : List LinkRow
  pub messages : List MessageRow
  pub tasks : List TaskRow
  pub progress : List ProgressRow
  pub escalations : List EscalationRow
  pub events : List EventRow
  pub publications : List PublicationRow
  pub a2a_tasks : List A2aTaskRow
  pub usage : List UsageRow
  pub channels : List ChannelRow
  pub subscriptions : List SubscriptionRow
  pub posts : List PostRow

unfoldable pub view : String → World → View
view s w = record {
  scopes = select (λ r. r.scope_id is s) w.scopes;
  agents = select (λ r. r.scope_id is s) w.agents;
  links = select (λ r. r.scope_id is s) w.links;
  messages = select (λ r. r.scope_id is s) w.messages;
  tasks = select (λ r. r.scope_id is s) w.tasks;
  progress = select (λ r. r.scope_id is s) w.progress;
  escalations = select (λ r. r.scope_id is s) w.escalations;
  events = select (λ r. r.scope_id is s) w.events;
  publications = select (λ r. r.scope_id is s) w.publications;
  a2a_tasks = select (λ r. r.scope_id is s) w.a2a_tasks;
  usage = select (λ r. r.scope_id is s) w.resources.usage;
  channels = select (λ r. r.scope_id is s) w.resources.channels;
  subscriptions = select (λ r. r.scope_id is s) w.resources.subscriptions;
  posts = select (λ r. r.scope_id is s) w.resources.posts;
}

is-refute : (a b : String) → a ≢ b → (a is b) ≡ false
is-refute a b h = ground (arith, eq_iff a b)

-- A table whose rows of the scope `o` neither change nor come along.
module _ {A : Type 0} (scope : A → String) (o : String) (r : RowRule A)
    (keep : (x y : A) → r.Step x y → scope x ≡ o → y ≡ x)
    (other : (x y : A) → r.Step x y → scope y ≡ scope x)
    (fresh : (x : A) → r.New x → scope x ≢ o) where
  none_new : (xs : List A) → All r.New xs → select (λ x. scope x is o) xs ≡ []
  unfolding select
  none_new [] h = refl
  none_new (x ∷ xs) h = rw (is-refute (scope x) o (fresh x h.0)) (none_new xs h.1)

  same_rows :
      (xs ys : List A)
      → Along r xs ys
      → select (λ x. scope x is o) ys ≡ select (λ x. scope x is o) xs
  unfolding select
  same_rows [] ys g = none_new ys g
  same_rows (x ∷ xs) [] g = absurd g
  same_rows (x ∷ xs) (y ∷ ys) g = elim (Bool-cases (scope x is o)) [
    | inl e ↦ rw (keep x y g.0 (ground (arith, eq_iff (scope x) o)), e, same_rows xs ys g.1) refl
    | inr e ↦ rw (other x y g.0, e) (same_rows xs ys g.1)
  ]

module _ (s o : String) (apart : s ≢ o) (v w : World) (e : Evolves s v w) where
  same_scopes : select (λ r. r.scope_id is o) w.scopes ≡ select (λ r. r.scope_id is o) v.scopes
  same_scopes =
      same_rows (λ (r : ScopeRow). r.scope_id) o (scope_rule s)
        (λ x y g here. g.elsewhere (λ there. apart (sym there ∙ here)))
        (λ x y g. ap (λ (r : ScopeRow). r.scope_id) g.content) (λ x h here. apart (sym h ∙ here))
        v.scopes w.scopes e.scopes

  same_agents : select (λ r. r.scope_id is o) w.agents ≡ select (λ r. r.scope_id is o) v.agents
  same_agents =
      same_rows (λ (r : AgentRow). r.scope_id) o (agent_rule s)
        (λ x y g here. g.elsewhere (λ there. apart (sym there ∙ here))) (λ x y g. g.same_scope)
        (λ x h here. apart (sym h ∙ here)) v.agents w.agents e.agents

  same_links : select (λ r. r.scope_id is o) w.links ≡ select (λ r. r.scope_id is o) v.links
  same_links =
      same_rows (λ (r : LinkRow). r.scope_id) o (append_rule (λ (r : LinkRow). r.scope_id) s)
        (λ x y g here. g) (λ x y g. ap (λ (r : LinkRow). r.scope_id) g)
        (λ x h here. apart (sym h ∙ here)) v.links w.links e.links

  same_messages :
      select (λ r. r.scope_id is o) w.messages ≡ select (λ r. r.scope_id is o) v.messages
  same_messages =
      same_rows (λ (r : MessageRow). r.scope_id) o (message_rule s)
        (λ x y g here. g.elsewhere (λ there. apart (sym there ∙ here)))
        (λ x y g. ap (λ (r : MessageRow). r.scope_id) g.content)
        (λ x h here. apart (sym h.here ∙ here)) v.messages w.messages e.messages

  same_tasks : select (λ r. r.scope_id is o) w.tasks ≡ select (λ r. r.scope_id is o) v.tasks
  same_tasks =
      same_rows (λ (r : TaskRow). r.scope_id) o (task_rule s)
        (λ x y g here. g.elsewhere (λ there. apart (sym there ∙ here)))
        (λ x y g. ap (λ (r : TaskRow). r.scope_id) g.content)
        (λ x h here. apart (sym h.here ∙ here)) v.tasks w.tasks e.tasks

  same_progress :
      select (λ r. r.scope_id is o) w.progress ≡ select (λ r. r.scope_id is o) v.progress
  same_progress =
      same_rows (λ (r : ProgressRow). r.scope_id) o
        (append_rule (λ (r : ProgressRow). r.scope_id) s) (λ x y g here. g)
        (λ x y g. ap (λ (r : ProgressRow). r.scope_id) g) (λ x h here. apart (sym h ∙ here))
        v.progress w.progress e.progress

  same_escalations :
      select (λ r. r.scope_id is o) w.escalations ≡ select (λ r. r.scope_id is o) v.escalations
  same_escalations =
      same_rows (λ (r : EscalationRow). r.scope_id) o (escalation_rule s)
        (λ x y g here. g.elsewhere (λ there. apart (sym there ∙ here)))
        (λ x y g. ap (λ (r : EscalationRow). r.scope_id) g.content)
        (λ x h here. apart (sym h ∙ here)) v.escalations w.escalations e.escalations

  same_events : select (λ r. r.scope_id is o) w.events ≡ select (λ r. r.scope_id is o) v.events
  same_events =
      same_rows (λ (r : EventRow). r.scope_id) o (append_rule (λ (r : EventRow). r.scope_id) s)
        (λ x y g here. g) (λ x y g. ap (λ (r : EventRow). r.scope_id) g)
        (λ x h here. apart (sym h ∙ here)) v.events w.events e.events

  same_a2a_tasks :
      select (λ r. r.scope_id is o) w.a2a_tasks ≡ select (λ r. r.scope_id is o) v.a2a_tasks
  same_a2a_tasks =
      same_rows (λ (r : A2aTaskRow). r.scope_id) o (a2a_task_rule s)
        (λ x y g here. g.elsewhere (λ there. apart (sym there ∙ here)))
        (λ x y g. ap (λ (r : A2aTaskRow). r.scope_id) g.content) (λ x h here. apart (sym h ∙ here))
        v.a2a_tasks w.a2a_tasks e.a2a_tasks

  same_publications :
      select (λ r. r.scope_id is o) w.publications ≡ select (λ r. r.scope_id is o) v.publications
  same_publications =
      same_rows (λ (r : PublicationRow). r.scope_id) o (publication_rule s)
        (λ x y g here. g.elsewhere (λ there. apart (sym there ∙ here)))
        (λ x y g. ap (λ (r : PublicationRow). r.scope_id) g.content)
        (λ x h here. apart (sym h ∙ here)) v.publications w.publications e.publications

  Evolves-view : view o w ≡ view o v
  unfolding view SameOthers
  Evolves-view =
      rw
        (
          same_scopes,
          same_agents,
          same_links,
          same_messages,
          same_tasks,
          same_progress,
          same_escalations,
          same_events,
          same_publications,
          same_a2a_tasks,
          e.others.usage o apart,
          e.others.channels o apart,
          e.others.subscriptions o apart,
          e.others.posts o apart,
        )
        refl

-- A request of one scope leaves the view of every other scope as it is: the rows of that scope in the
-- tables of scopes, agents, links, messages, tasks, progress, escalations, events, publications,
-- remote tasks, usage, channels, subscriptions and posts are the same, with none added or lost.
pub after-view :
    (r : Request) (w : World) (o : String) → scope_of r w ≢ o → view o (after r w) ≡ view o w
after-view r w o apart = Evolves-view (scope_of r w) o apart w (after r w) (after-Evolves r w)
