-- ===== src/Tx.antt =====
-- A transaction reads and changes the world, or fails. `beginTx` with the deferred `Rollback` is
-- `transact`: a failure leaves the tables as they were. Errors of the driver are not modelled.
pub mod Keeps
pub mod Frame
pub mod Success
use october_bus.Base.{
  ℕ, zero, suc, String, Bool, true, false, Option, none, some, List, [], ◌∷◌, ◌++◌, ◌≡◌, refl,
  if◌then◌else◌, ◌is◌,
}
use Prim.Native.String.{◌++◌ as ◌+++◌}
use october_bus.Protocol.{ErrorCode}
use october_bus.World.{
  Resources, World, ScopeRow, AgentRow, LinkRow, MessageRow, ReservationRow, TaskRow, ProgressRow,
  EscalationRow, EventRow, PublicationRow, A2aTaskRow, CorrelationRow,
}
use october_bus.Rows.{exists, count, update, delete}

pub data Outcome (A : Type 0) : Type 0 where
  ok : A → World → Outcome A
  err : ErrorCode → Outcome A

abbrev pub Tx : Type 0 → Type 0
Tx A = World → Outcome A

abbrev pub continue : {A : Type 0} {B : Type 0} → Outcome A → (A → Tx B) → Outcome B
continue (ok a w) f = f a w
continue (err c) f = err c

infixl 5 ◌>>=◌ ◌>>◌
unfoldable pub ◌>>=◌ : {A : Type 0} {B : Type 0} → Tx A → (A → Tx B) → Tx B
◌>>=◌ m f w = continue (m w) f

abbrev pub ◌>>◌ : {A : Type 0} {B : Type 0} → Tx A → Tx B → Tx B
m >> n = m >>= λ _. n

module _ {A : Type 0} where
  unfoldable pub pure : A → Tx A
  pure a w = ok a w

  unfoldable pub fail : ErrorCode → Tx A
  fail c w = err c

  unfoldable pub gets : (World → A) → Tx A
  gets f w = ok (f w) w

  -- The row of a query, or the error for sql.ErrNoRows.
  unfoldable pub or_fail : Option A → ErrorCode → Tx A
  or_fail none c w = err c
  or_fail (some a) c w = ok a w

unfoldable pub ensure : Bool → ErrorCode → Tx (Unit {0})
ensure true c w = ok tt w
ensure false c w = err c

-- if err := ...; err == nil { m }
unfoldable pub when : Bool → Tx (Unit {0}) → Tx (Unit {0})
when true m = m
when false m = pure tt

-- nowMillis: the next reading of the clock.
unfoldable pub now_millis : Tx ℕ
now_millis w = ok (w.clock 0) (record w { clock = λ n. w.clock (suc n) })

-- randomID and randomValue: the next random text.
unfoldable pub random_id : String → Tx String
random_id prefix w = ok (prefix +++ w.entropy 0) (record w { entropy = λ n. w.entropy (suc n) })

-- A statement returns the number of affected rows. An INSERT fails on its primary key.
unfoldable pub update_scopes : (ScopeRow → Bool) → (ScopeRow → ScopeRow) → Tx ℕ
update_scopes p f w = ok (count p w.scopes) (record w { scopes = update p f w.scopes })

unfoldable pub update_agents : (AgentRow → Bool) → (AgentRow → AgentRow) → Tx ℕ
update_agents p f w = ok (count p w.agents) (record w { agents = update p f w.agents })

unfoldable pub insert_agent : AgentRow → Tx (Unit {0})
insert_agent r w = ok tt (record w { agents = w.agents ++ r ∷ [] })

unfoldable pub insert_links : List LinkRow → Tx (Unit {0})
insert_links rs w = ok tt (record w { links = w.links ++ rs })

unfoldable pub update_messages : (MessageRow → Bool) → (MessageRow → MessageRow) → Tx ℕ
update_messages p f w = ok (count p w.messages) (record w { messages = update p f w.messages })

unfoldable pub insert_message : MessageRow → Tx (Unit {0})
insert_message r w =
    if exists (λ m. m.message_id is r.message_id) w.messages
    then err ErrorCode.internal
    else ok tt (record w { messages = w.messages ++ r ∷ [] })

unfoldable pub insert_reservation : ReservationRow → Tx (Unit {0})
insert_reservation r w =
    if exists (λ x. x.reservation_id is r.reservation_id) w.reservations
    then err ErrorCode.internal
    else ok tt (record w { reservations = w.reservations ++ r ∷ [] })

unfoldable pub delete_reservations : (ReservationRow → Bool) → Tx (Unit {0})
delete_reservations p w = ok tt (record w { reservations = delete p w.reservations })

unfoldable pub update_tasks : (TaskRow → Bool) → (TaskRow → TaskRow) → Tx ℕ
update_tasks p f w = ok (count p w.tasks) (record w { tasks = update p f w.tasks })

unfoldable pub insert_task : TaskRow → Tx (Unit {0})
insert_task r w =
    if exists (λ t. t.task_id is r.task_id) w.tasks
    then err ErrorCode.internal
    else ok tt (record w { tasks = w.tasks ++ r ∷ [] })

unfoldable pub insert_progress : ProgressRow → Tx (Unit {0})
insert_progress r w = ok tt (record w { progress = w.progress ++ r ∷ [] })

unfoldable pub update_escalations : (EscalationRow → Bool) → (EscalationRow → EscalationRow) → Tx ℕ
update_escalations p f w =
    ok (count p w.escalations) (record w { escalations = update p f w.escalations })

unfoldable pub insert_escalation : EscalationRow → Tx (Unit {0})
insert_escalation r w =
    if exists (λ e. e.escalation_id is r.escalation_id) w.escalations
    then err ErrorCode.internal
    else ok tt (record w { escalations = w.escalations ++ r ∷ [] })

unfoldable pub insert_events : List EventRow → Tx (Unit {0})
insert_events rs w = ok tt (record w { events = w.events ++ rs })

unfoldable pub update_publications :
    (PublicationRow → Bool) → (PublicationRow → PublicationRow) → Tx ℕ
update_publications p f w =
    ok (count p w.publications) (record w { publications = update p f w.publications })

unfoldable pub update_a2a_tasks : (A2aTaskRow → Bool) → (A2aTaskRow → A2aTaskRow) → Tx ℕ
update_a2a_tasks p f w = ok (count p w.a2a_tasks) (record w { a2a_tasks = update p f w.a2a_tasks })

unfoldable pub update_correlations :
    (CorrelationRow → Bool) → (CorrelationRow → CorrelationRow) → Tx ℕ
update_correlations p f w =
    ok (count p w.correlations) (record w { correlations = update p f w.correlations })

-- A statement on the tables of `Resources`.
unfoldable pub alter : (Resources → Resources) → Tx (Unit {0})
alter f w = ok tt (record w { resources = f w.resources })

-- A loop over rows that runs a statement for each.
unfoldable pub for_each : {A : Type 0} → List A → (A → Tx (Unit {0})) → Tx (Unit {0})
for_each [] body = pure tt
for_each (x ∷ xs) body = body x >>= λ _. for_each xs body

-- What a caller gets, and the world after it.
pub data Reply (A : Type 0) : Type 0 where
  value : A → Reply A
  error : ErrorCode → Reply A

abbrev pub settle : {A : Type 0} → World → Outcome A → Reply A × World
settle w (ok a w') = (value a, w')
settle w (err c) = (error c, w)

unfoldable pub transact : {A : Type 0} → Tx A → World → Reply A × World
transact m w = settle w (m w)
