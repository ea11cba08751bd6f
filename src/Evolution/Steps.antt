-- ===== src/Evolution/Steps.antt =====
-- What may happen to a row of each table in a transaction of the scope `s`, and what a new row is
-- like. A row of another scope does not change.
use october_bus.Base.{String, true, false, none, ◌≡◌, ◌≢◌, ◌≤◌, refl, ap, arith, ◌&&◌, not}
use october_bus.Protocol.{
  DeliveryState, is_active, is_reserved, is_delivered, is_done, is_open, is_pending,
}
use october_bus.World.{
  PublicationRow, AgentRow, MessageRow, TaskRow, EscalationRow, A2aTaskRow, ScopeRow,
}
use october_bus.A2a.States.{a2a_task_terminal}
use october_bus.Rows.{is_some}

-- The columns of a message agree with its state.
pub record IsSoundMessage (m : MessageRow) : Type 0 where
  pub reserved_held : is_reserved m.state ≡ is_some m.reservation_id
  pub delivered_timed : is_delivered m.state ≡ true → is_some m.delivered_at ≡ true
  pub acknowledged_timed :
      m.state ≡ DeliveryState.acknowledged
      → (is_some m.delivered_at && is_some m.acknowledged_at) ≡ true
  pub queued_new : m.state ≡ DeliveryState.queued → m.delivered_at ≡ none

pub record MessageStep (s : String) (m n : MessageRow) : Type 0 where
  pub elsewhere : m.scope_id ≢ s → n ≡ m
  pub content : n ≡ record m {
    state = n.state;
    reservation_id = n.reservation_id;
    delivered_at = n.delivered_at;
    acknowledged_at = n.acknowledged_at;
    replied_at = n.replied_at;
    response_message_id = n.response_message_id;
  }
  pub final : is_active m.state ≡ false → n.state ≡ m.state
  pub delivered_once : is_some m.delivered_at ≡ true → n.delivered_at ≡ m.delivered_at
  pub replied_once :
      is_some m.replied_at ≡ true
      → (n.replied_at ≡ m.replied_at) × (n.response_message_id ≡ m.response_message_id)
  pub sound : IsSoundMessage m → IsSoundMessage n

pub MessageStep-refl : (s : String) (m : MessageRow) → MessageStep s m m
MessageStep-refl s m = record {
  elsewhere = λ _. refl;
  content = refl;
  final = λ _. refl;
  delivered_once = λ _. refl;
  replied_once = λ _. (refl, refl);
  sound = λ h. h;
}

pub MessageStep-trans :
    (s : String) (l m n : MessageRow) → MessageStep s l m → MessageStep s m n → MessageStep s l n
MessageStep-trans s l m n g h = record {
  elsewhere = ground (arith, g.elsewhere, h.elsewhere);
  content = cc (g.content, h.content);
  final = ground arith;
  delivered_once = ground arith;
  replied_once = ground arith;
  sound = λ k. h.sound (g.sound k);
}

pub record IsNewMessage (s : String) (m : MessageRow) : Type 0 where
  pub here : m.scope_id ≡ s
  pub sound : IsSoundMessage m

pub IsNewMessage-step :
    (s : String) (m n : MessageRow) → IsNewMessage s m → MessageStep s m n → IsNewMessage s n
IsNewMessage-step s m n h g = record {
  here = cc (h.here, ap (λ (r : MessageRow). r.scope_id) g.content);
  sound = g.sound h.sound;
}

-- A task is open or has a claim, as the CHECK of the table says.
pub record IsSoundTask (t : TaskRow) : Type 0 where
  pub claimed_by_some : not (is_open t.status) ≡ is_some t.claimed_by
  pub claimed_execution_some : not (is_open t.status) ≡ is_some t.claimed_execution_id

pub record TaskStep (s : String) (t u : TaskRow) : Type 0 where
  pub elsewhere : t.scope_id ≢ s → u ≡ t
  pub content : u ≡ record t {
    claimed_by = u.claimed_by;
    claimed_execution_id = u.claimed_execution_id;
    status = u.status;
    note = u.note;
    updated_at = u.updated_at;
  }
  pub final : is_done t.status ≡ true → u ≡ t
  pub sound : IsSoundTask t → IsSoundTask u

pub TaskStep-refl : (s : String) (t : TaskRow) → TaskStep s t t
TaskStep-refl s t = record {
  elsewhere = λ _. refl;
  content = refl;
  final = λ _. refl;
  sound = λ h. h;
}

pub TaskStep-trans :
    (s : String) (t u v : TaskRow) → TaskStep s t u → TaskStep s u v → TaskStep s t v
TaskStep-trans s t u v g h = record {
  elsewhere = ground (arith, g.elsewhere, h.elsewhere);
  content = cc (g.content, h.content);
  final = ground (arith, g.final, h.final);
  sound = λ k. h.sound (g.sound k);
}

pub record IsNewTask (s : String) (t : TaskRow) : Type 0 where
  pub here : t.scope_id ≡ s
  pub sound : IsSoundTask t

pub IsNewTask-step : (s : String) (t u : TaskRow) → IsNewTask s t → TaskStep s t u → IsNewTask s u
IsNewTask-step s t u h g = record {
  here = cc (h.here, ap (λ (r : TaskRow). r.scope_id) g.content);
  sound = g.sound h.sound;
}

-- An agent keeps its name; its execution, credential, state and lease change.
pub record AgentStep (s : String) (a b : AgentRow) : Type 0 where
  pub elsewhere : a.scope_id ≢ s → b ≡ a
  pub same_scope : b.scope_id ≡ a.scope_id
  pub same_agent : b.agent_id ≡ a.agent_id

pub AgentStep-refl : (s : String) (a : AgentRow) → AgentStep s a a
AgentStep-refl s a = record { elsewhere = λ _. refl; same_scope = refl; same_agent = refl }

pub AgentStep-trans :
    (s : String) (a b c : AgentRow) → AgentStep s a b → AgentStep s b c → AgentStep s a c
AgentStep-trans s a b c g h = record {
  elsewhere = ground (arith, g.elsewhere, h.elsewhere);
  same_scope = cc (g.same_scope, h.same_scope);
  same_agent = cc (g.same_agent, h.same_agent);
}

pub record EscalationStep (s : String) (e f : EscalationRow) : Type 0 where
  pub elsewhere : e.scope_id ≢ s → f ≡ e
  pub content : f ≡ record e { status = f.status; answer = f.answer; resolved_at = f.resolved_at }
  pub final : is_pending e.status ≡ false → f ≡ e

pub EscalationStep-refl : (s : String) (e : EscalationRow) → EscalationStep s e e
EscalationStep-refl s e = record { elsewhere = λ _. refl; content = refl; final = λ _. refl }

pub EscalationStep-trans :
    (s : String) (e f g : EscalationRow)
    → EscalationStep s e f
    → EscalationStep s f g
    → EscalationStep s e g
EscalationStep-trans s e f g h k = record {
  elsewhere = ground (arith, h.elsewhere, k.elsewhere);
  content = cc (h.content, k.content);
  final = ground (arith, h.final, k.final);
}

pub record A2aTaskStep (s : String) (t u : A2aTaskRow) : Type 0 where
  pub elsewhere : t.scope_id ≢ s → u ≡ t
  pub content : u ≡ record t { state = u.state; updated_at = u.updated_at }
  pub final : a2a_task_terminal t.state ≡ true → u.state ≡ t.state

pub A2aTaskStep-refl : (s : String) (t : A2aTaskRow) → A2aTaskStep s t t
A2aTaskStep-refl s t = record { elsewhere = λ _. refl; content = refl; final = λ _. refl }

pub A2aTaskStep-trans :
    (s : String) (t u v : A2aTaskRow) → A2aTaskStep s t u → A2aTaskStep s u v → A2aTaskStep s t v
A2aTaskStep-trans s t u v g h = record {
  elsewhere = ground (arith, g.elsewhere, h.elsewhere);
  content = cc (g.content, h.content);
  final = ground (arith, g.final, h.final);
}

pub record ScopeStep (s : String) (a b : ScopeRow) : Type 0 where
  pub elsewhere : a.scope_id ≢ s → b ≡ a
  pub content : b ≡ record a { event_revision = b.event_revision }
  pub grows : a.event_revision ≤ b.event_revision

pub ScopeStep-refl : (s : String) (a : ScopeRow) → ScopeStep s a a
ScopeStep-refl s a = record { elsewhere = λ _. refl; content = refl; grows = omega arith }

pub ScopeStep-trans :
    (s : String) (a b c : ScopeRow) → ScopeStep s a b → ScopeStep s b c → ScopeStep s a c
ScopeStep-trans s a b c g h = record {
  elsewhere = ground (arith, g.elsewhere, h.elsewhere);
  content = cc (g.content, h.content);
  grows = omega arith;
}

-- A publication is touched when its agent registers again.
pub record PublicationStep (s : String) (a b : PublicationRow) : Type 0 where
  pub elsewhere : a.scope_id ≢ s → b ≡ a
  pub content : b ≡ record a { updated_at = b.updated_at }

pub PublicationStep-refl : (s : String) (a : PublicationRow) → PublicationStep s a a
PublicationStep-refl s a = record { elsewhere = λ _. refl; content = refl }

pub PublicationStep-trans :
    (s : String) (a b c : PublicationRow)
    → PublicationStep s a b
    → PublicationStep s b c
    → PublicationStep s a c
PublicationStep-trans s a b c g h = record {
  elsewhere = ground (arith, g.elsewhere, h.elsewhere);
  content = cc (g.content, h.content);
}
