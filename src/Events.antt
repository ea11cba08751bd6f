-- ===== src/Events.antt =====
-- bus/events.go: the log of a scope. An event gets the next revision of its scope. Of the two
-- engines the local one is modelled, which keeps every event.
pub mod Evolution
pub mod Fuel
pub mod Reading
use october_bus.Base.{
  ℕ, zero, suc, ◌+◌, ◌-◌, String, Bool, true, false, not, Option, none, some, List, [], ◌∷◌, take,
  length, ltb, ◌==◌, if◌then◌else◌, ◌is◌,
}
use october_bus.Protocol.{ErrorCode}
use october_bus.World.{World, ScopeRow, EventRow, Attribute}
use october_bus.Rows.{find}
use october_bus.Tx.{Tx, ◌>>=◌, ◌>>◌, pure, gets, or_fail, random_id, update_scopes, insert_events}

abbrev is_empty : Attribute → Bool
is_empty (Attribute.text t) = t is ""
is_empty (Attribute.instant t) = t == 0
is_empty (Attribute.number n) = false
is_empty (Attribute.flag b) = false

-- Empty values are left out; an instant of 0 is printed as the empty text.
unfoldable pub event_attributes : List (String × Attribute) → List (String × Attribute)
event_attributes [] = []
event_attributes ((k, v) ∷ values) =
    let rest = event_attributes values in if is_empty v then rest else (k, v) ∷ rest

pub record PendingEvent : Type 0 where
  pub event_type : String
  pub subject_id : String
  pub attributes : List (String × Attribute)

-- The rows of the events, numbered from `revision`.
unfoldable pub number_events : String → ℕ → ℕ → List PendingEvent → Tx (List EventRow)
number_events scope_id created_at revision [] = pure []
number_events scope_id created_at revision (e ∷ events) = do
  event_id ← random_id "evt_"
  rest ← number_events scope_id created_at (revision + 1) events
  pure (
      record {
        event_id = event_id;
        scope_id = scope_id;
        revision = revision;
        event_type = e.event_type;
        subject_id = e.subject_id;
        attributes = e.attributes;
        created_at = created_at;
      }
      ∷ rest)

-- One round of appendEvents, for at most 128 events.
unfoldable pub append_batch : String → List PendingEvent → ℕ → Tx (Unit {0})
append_batch scope_id [] created_at = pure tt
append_batch scope_id (e ∷ es) created_at = do
  let added = length (e ∷ es)
  update_scopes (λ r. r.scope_id is scope_id)
      (λ r. record r { event_revision = r.event_revision + added })
  found ← gets (λ w. find (λ (r : ScopeRow). r.scope_id is scope_id) w.scopes)
  row ← or_fail found ErrorCode.internal
  rows ← number_events scope_id created_at (row.event_revision - added + 1) (e ∷ es)
  insert_events rows

abbrev pub drop {ℓ} : {A : Type ℓ} → ℕ → List A → List A
drop zero xs = xs
drop (suc n) [] = []
drop (suc n) (x ∷ xs) = drop n xs

-- The loop that keeps the statements bounded; each round takes 128 events, so that as many rounds
-- as there are events suffice.
unfoldable pub append_rounds : ℕ → String → List PendingEvent → ℕ → Tx (Unit {0})
append_rounds zero scope_id events created_at = append_batch scope_id events created_at
append_rounds (suc fuel) scope_id events created_at =
    if ltb 128 (length events)
    then (append_batch scope_id (take 128 events) created_at >>= λ _.
        append_rounds fuel scope_id (drop 128 events) created_at)
    else append_batch scope_id events created_at

unfoldable pub append_events : String → List PendingEvent → ℕ → Tx (Unit {0})
append_events scope_id events created_at = append_rounds (length events) scope_id events created_at

unfoldable pub append_event :
    String → String → String → List (String × Attribute) → ℕ → Tx (Unit {0})
append_event scope_id event_type subject_id values created_at =
    append_events scope_id
      (record {
        event_type = event_type;
        subject_id = subject_id;
        attributes = event_attributes values;
      }
        ∷ [])
      created_at
