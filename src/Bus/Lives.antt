-- ===== src/Bus/Lives.antt =====
-- The lives of rows over a whole history of requests, of whatever scopes.
use october_bus.Base.{String, true, false, List, [], ◌∷◌, ◌++◌, ◌≡◌, refl, ◌∙◌, arith, All}
use october_bus.Protocol.{is_active, is_done, is_pending}
use october_bus.World.{World, MessageRow, TaskRow, EscalationRow, EventRow, A2aTaskRow}
use october_bus.Rows.{is_some}
use october_bus.Rows.Laws.{Grows, Grows-refl, Grows-trans}
use october_bus.A2a.States.{a2a_task_terminal}
use october_bus.Evolution.Steps.{
  MessageStep, IsSoundMessage, IsNewMessage, TaskStep, IsSoundTask, IsNewTask, EscalationStep,
  A2aTaskStep,
}
use october_bus.Bus.{Request, after, run, scope_of}
use october_bus.Bus.Isolation.{after-Evolves}

-- What a history may do to a message: only its delivery changes, a final state stays, and the
-- times of delivery and reply are set once.
pub record MessageLife (m n : MessageRow) : Type 0 where
  pub content : n ≡ record m {
    state = n.state;
    reservation_id = n.reservation_id;
    delivered_at = n.delivered_at;
    acknowledged_at = n.acknowledged_at;
    replied_at = n.replied_at;
    response_message_id = n.response_message_id;
  }
  pub final : is_active m.state ≡ false → n.state ≡ m.state
  pub delivered_once : is_some m.delivered_at ≡ true → n.delivered_at ≡ m.delivered_at
  pub replied_once :
      is_some m.replied_at ≡ true
      → (n.replied_at ≡ m.replied_at) × (n.response_message_id ≡ m.response_message_id)
  pub sound : IsSoundMessage m → IsSoundMessage n

-- What a history may do to a task: a task that is done does not change.
pub record TaskLife (t u : TaskRow) : Type 0 where
  pub content : u ≡ record t {
    claimed_by = u.claimed_by;
    claimed_execution_id = u.claimed_execution_id;
    status = u.status;
    note = u.note;
    updated_at = u.updated_at;
  }
  pub final : is_done t.status ≡ true → u ≡ t
  pub sound : IsSoundTask t → IsSoundTask u

-- What a history may do to an escalation: it is resolved at most once.
pub record EscalationLife (e f : EscalationRow) : Type 0 where
  pub content : f ≡ record e { status = f.status; answer = f.answer; resolved_at = f.resolved_at }
  pub final : is_pending e.status ≡ false → f ≡ e

-- What a history may do to the task of a remote principal: a terminal state stays.
pub record A2aTaskLife (t u : A2aTaskRow) : Type 0 where
  pub content : u ≡ record t { state = u.state; updated_at = u.updated_at }
  pub final : a2a_task_terminal t.state ≡ true → u.state ≡ t.state

module _ {A : Type 0} (R S : A → A → Type 0) (M N : A → Type 0) (weaker : (x y : A) → R x y → S x y)
    (weaker_new : (x : A) → M x → N x) where
  All-map : (xs : List A) → All M xs → All N xs
  All-map [] h = tt
  All-map (x ∷ xs) h = (weaker_new x h.0, All-map xs h.1)

  Grows-map : (xs ys : List A) → Grows R M xs ys → Grows S N xs ys
  Grows-map [] ys g = All-map ys g
  Grows-map (x ∷ xs) [] g = absurd g
  Grows-map (x ∷ xs) (y ∷ ys) g = (weaker x y g.0, Grows-map xs ys g.1)

-- A table that every request lets grow, a history lets grow.
module _ {A : Type 0} (table : World → List A) (S : A → A → Type 0) (N : A → Type 0)
    (reflexive : (x : A) → S x x) (transitive : (x y z : A) → S x y → S y z → S x z)
    (new_step : (x y : A) → N x → S x y → N y)
    (request : (r : Request) (w : World) → Grows S N (table w) (table (after r w))) where
  run-Grows : (rs : List Request) (w : World) → Grows S N (table w) (table (run w rs))
  unfolding run
  run-Grows [] w = Grows-refl S N reflexive (table w)
  run-Grows (r ∷ rs) w =
      Grows-trans S N transitive new_step (table w) (table (after r w)) (table (run (after r w) rs))
        (request r w) (run-Grows rs (after r w))

MessageLife-refl : (m : MessageRow) → MessageLife m m
MessageLife-refl m = record {
  content = refl;
  final = λ _. refl;
  delivered_once = λ _. refl;
  replied_once = λ _. (refl, refl);
  sound = λ h. h;
}

MessageLife-trans : (l m n : MessageRow) → MessageLife l m → MessageLife m n → MessageLife l n
MessageLife-trans l m n g h = record {
  content = cc (g.content, h.content);
  final = ground arith;
  delivered_once = ground arith;
  replied_once = ground arith;
  sound = λ k. h.sound (g.sound k);
}

MessageStep-life : (s : String) (m n : MessageRow) → MessageStep s m n → MessageLife m n
MessageStep-life s m n g = record {
  content = g.content;
  final = g.final;
  delivered_once = g.delivered_once;
  replied_once = g.replied_once;
  sound = g.sound;
}

-- Over any history of requests every message keeps its place, its content and its parties; a
-- message that is acknowledged or expired stays so; the times of its first delivery and of its
-- reply, with the reply itself, never change once set; and the columns of every new message, as
-- those of every sound old one, agree with its state.
pub run-messages :
    (rs : List Request) (w : World)
    → Grows MessageLife IsSoundMessage w.messages (run w rs).messages
run-messages =
    run-Grows (λ w. w.messages) MessageLife IsSoundMessage MessageLife-refl MessageLife-trans
      (λ m n h g. g.sound h)
      (λ r w.
        Grows-map (MessageStep (scope_of r w)) MessageLife (IsNewMessage (scope_of r w))
          IsSoundMessage (MessageStep-life (scope_of r w)) (λ m h. h.sound) w.messages
          (after r w).messages (after-Evolves r w).messages)

TaskLife-refl : (t : TaskRow) → TaskLife t t
TaskLife-refl t = record { content = refl; final = λ _. refl; sound = λ h. h }

TaskLife-trans : (t u v : TaskRow) → TaskLife t u → TaskLife u v → TaskLife t v
TaskLife-trans t u v g h = record {
  content = cc (g.content, h.content);
  final = ground (arith, g.final, h.final);
  sound = λ k. h.sound (g.sound k);
}

TaskStep-life : (s : String) (t u : TaskRow) → TaskStep s t u → TaskLife t u
TaskStep-life s t u g = record { content = g.content; final = g.final; sound = g.sound }

-- Over any history every task keeps its place, title and dependencies; a task that is done does
-- not change any more; and every new task, as every sound old one, has a claim exactly when it is
-- not open.
pub run-tasks :
    (rs : List Request) (w : World) → Grows TaskLife IsSoundTask w.tasks (run w rs).tasks
run-tasks =
    run-Grows (λ w. w.tasks) TaskLife IsSoundTask TaskLife-refl TaskLife-trans
      (λ t u h g. g.sound h)
      (λ r w.
        Grows-map (TaskStep (scope_of r w)) TaskLife (IsNewTask (scope_of r w)) IsSoundTask
          (TaskStep-life (scope_of r w)) (λ t h. h.sound) w.tasks (after r w).tasks
          (after-Evolves r w).tasks)

abbrev Any : {A : Type 0} → A → Type 0
Any x = Unit {0}

-- Over any history an escalation that was resolved does not change, answer and time included, and
-- none loses its place or its question.
pub run-escalations :
    (rs : List Request) (w : World)
    → Grows EscalationLife (λ _. Unit {0}) w.escalations (run w rs).escalations
run-escalations =
    run-Grows (λ w. w.escalations) EscalationLife Any
      (λ e. record { content = refl; final = λ _. refl })
      (λ e f g h k. record {
        content = cc (h.content, k.content);
        final = ground (arith, h.final, k.final);
      })
      (λ e f h g. tt)
      (λ r w.
        Grows-map (EscalationStep (scope_of r w)) EscalationLife (λ e. e.scope_id ≡ scope_of r w)
          Any (λ e f g. record { content = g.content; final = g.final }) (λ e h. tt) w.escalations
          (after r w).escalations (after-Evolves r w).escalations)

-- Over any history the task of a remote principal keeps its place and its parties, and stays in a
-- terminal state once it is there.
pub run-a2a_tasks :
    (rs : List Request) (w : World)
    → Grows A2aTaskLife (λ _. Unit {0}) w.a2a_tasks (run w rs).a2a_tasks
run-a2a_tasks =
    run-Grows (λ w. w.a2a_tasks) A2aTaskLife Any (λ t. record { content = refl; final = λ _. refl })
      (λ t u v g h. record {
        content = cc (g.content, h.content);
        final = ground (arith, g.final, h.final);
      })
      (λ t u h g. tt)
      (λ r w.
        Grows-map (A2aTaskStep (scope_of r w)) A2aTaskLife (λ t. t.scope_id ≡ scope_of r w) Any
          (λ t u g. record { content = g.content; final = g.final }) (λ t h. tt) w.a2a_tasks
          (after r w).a2a_tasks (after-Evolves r w).a2a_tasks)

same-prefix :
    (xs ys : List EventRow)
    → Grows (λ x y. y ≡ x) (λ _. Unit {0}) xs ys
    → (new : List EventRow) × (ys ≡ xs ++ new)
same-prefix [] ys g = (ys, refl)
same-prefix (x ∷ xs) [] g = absurd g
same-prefix (x ∷ xs) (y ∷ ys) g = let (new, e) = same-prefix xs ys g.1 in (new, cc (g.0, e))

-- Over any history the log of events only gets longer: no event is changed, moved or lost.
pub run-events :
    (rs : List Request) (w : World) → (new : List EventRow) × ((run w rs).events ≡ w.events ++ new)
run-events rs w = same-prefix w.events (run w rs).events (
    run-Grows (λ w. w.events) (λ x y. y ≡ x) Any (λ x. refl) (λ x y z g h. h ∙ g) (λ x y h g. tt)
      (λ r w.
        Grows-map (λ (x y : EventRow). y ≡ x) (λ x y. y ≡ x)
          (λ (x : EventRow). x.scope_id ≡ scope_of r w) Any (λ x y g. g) (λ x h. tt) w.events
          (after r w).events (after-Evolves r w).events)
      rs w)
