-- ===== src/Events/Reading.antt =====
-- Store.Events of bus/events.go: a page of the log from a revision on.
use october_bus.Base.{
  ℕ, zero, suc, ◌+◌, ◌-◌, ◌≤◌, min, String, Bool, true, false, Option, none, some, List, [], ◌∷◌,
  ◌≡◌, refl, ap, ◌∙◌, arith, map, ◌is◌, ltb, ◌==◌, ◌&&◌, ◌||◌, if◌then◌else◌, take,
}
use october_bus.Protocol.{ErrorCode}
use october_bus.World.{World, ScopeRow, EventRow}
use october_bus.Rows.{select, find, sort_by}
use october_bus.Rows.Numbers.{numbers, select-both, select-after, sort_by-numbered, take-numbered}
use october_bus.Tx.{Tx, ok, ◌>>=◌, ◌>>◌, pure, fail, gets, or_fail}
use october_bus.Tx.Keeps.{Keeps, keeps_rules}
use october_bus.Evolution.{evolution}
use october_bus.Evolution.Numbering.{IsNumbered, revisions}
use october_bus.Session.{Context, begin_tx}
use october_bus.Session.Evolution.{begin_tx-Evolves}

abbrev pub default_event_limit : ℕ
default_event_limit = 50

abbrev pub max_event_limit : ℕ
max_event_limit = 100

pub record EventBatch : Type 0 where
  pub events : List EventRow
  pub next_revision : ℕ
  pub current_revision : ℕ
  pub minimum_cursor : ℕ
  pub resync_required : Bool

abbrev before_event : EventRow → EventRow → Bool
before_event x y = ltb x.revision y.revision

unfoldable pub events_after : String → ℕ → ℕ → List EventRow → List EventRow
events_after scope_id after limit events =
    take limit
      (sort_by before_event (select (λ e. (e.scope_id is scope_id) && ltb after e.revision) events))

abbrev last_revision : ℕ → List EventRow → ℕ
last_revision n [] = n
last_revision n (e ∷ es) = last_revision e.revision es

unfoldable pub event_batch : ScopeRow → ℕ → ℕ → Tx EventBatch
event_batch row after limit =
    if ltb row.event_revision after
    then fail ErrorCode.invalid_argument
    else (if ltb after row.event_floor_revision
        then pure (record {
          events = [];
          next_revision = row.event_revision;
          current_revision = row.event_revision;
          minimum_cursor = row.event_floor_revision;
          resync_required = true;
        })
        else (gets (λ w. events_after row.scope_id after limit w.events) >>= λ page. pure (record {
          events = page;
          next_revision = last_revision after page;
          current_revision = row.event_revision;
          minimum_cursor = row.event_floor_revision;
          resync_required = false;
        })))

unfoldable pub read_events : Context → String → ℕ → ℕ → Tx EventBatch
read_events c scope_id after limit = do
  begin_tx c
  found ← gets (λ w. find (λ (r : ScopeRow). r.scope_id is scope_id) w.scopes)
  row ← or_fail found ErrorCode.not_found
  event_batch row after limit

-- A limit of 0 stands for the default.
unfoldable pub normalized_event_limit : ℕ → Option ℕ
normalized_event_limit limit =
    if limit == 0
    then some default_event_limit
    else (if ltb limit 1 || ltb max_event_limit limit then none else some limit)

module _ (s : String) where
  event_batch-Evolves :
      (row : ScopeRow) (after limit : ℕ) → Keeps (evolution s) (event_batch row after limit)
  unfolding event_batch
  event_batch-Evolves row after limit = search keeps_rules depth 24

  pub read_events-Evolves :
      (c : Context) (after limit : ℕ) → Keeps (evolution s) (read_events c s after limit)
  unfolding read_events
  read_events-Evolves c after limit =
      search (keeps_rules, begin_tx-Evolves, event_batch-Evolves) depth 24

last_revision-numbers :
    (events : List EventRow) (after k : ℕ)
    → map (λ (e : EventRow). e.revision) events ≡ numbers (after + 1) k
    → last_revision after events ≡ after + k
last_revision-numbers [] after zero h = omega arith
last_revision-numbers [] after (suc k) h = cc h
last_revision-numbers (e ∷ es) after zero h = cc h
last_revision-numbers (e ∷ es) after (suc k) h =
    let first : e.revision ≡ after + 1 = cc h in
    let rest : map (λ (x : EventRow). x.revision) es ≡ numbers (after + 1 + 1) k = cc h in
    ap (λ n. last_revision n es) first ∙ last_revision-numbers es (after + 1) k rest ∙ omega arith

-- From a revision between the floor and the counter of a scope whose events are numbered, a read
-- succeeds and changes nothing: it gives the next events in order without a gap, as many as the
-- limit allows and the log has, and the revision to go on from.
pub event_batch-consecutive :
    (w : World) (row : ScopeRow) (after limit : ℕ)
    → IsNumbered w.scopes w.events
    → find (λ (r : ScopeRow). r.scope_id is row.scope_id) w.scopes ≡ some row
    → row.event_floor_revision ≤ after
    → after ≤ row.event_revision
    → (page : EventBatch) × (event_batch row after limit w ≡ ok page w)
      × (map (λ (e : EventRow). e.revision) page.events
          ≡ numbers (after + 1) (min limit (row.event_revision - after)))
      × (page.next_revision ≡ after + min limit (row.event_revision - after))
      × (page.resync_required ≡ false)
unfolding event_batch ◌>>=◌ gets pure IsNumbered revisions events_after
event_batch-consecutive w row after limit h found low high =
    let key = λ (e : EventRow). e.revision in
    let mine = select (λ (e : EventRow). e.scope_id is row.scope_id) w.events in
    let behind = select (λ (e : EventRow). ltb after e.revision) mine in
    let page = events_after row.scope_id after limit w.events in
    let many : 1 + row.event_revision - (after + 1) ≡ row.event_revision - after = omega arith in
    let run =
      select-after key 1 row.event_revision after mine (h row.scope_id row found) (omega arith) in
    let pages : map key page ≡ numbers (after + 1) (min limit (row.event_revision - after)) =
      ap (λ es. map key (take limit (sort_by before_event es)))
        (select-both (λ (e : EventRow). e.scope_id is row.scope_id)
          (λ (e : EventRow). ltb after e.revision) w.events)
      ∙ ap (λ es. map key (take limit es))
          (sort_by-numbered key (after + 1) (1 + row.event_revision - (after + 1)) behind run)
      ∙ take-numbered key limit (after + 1) (1 + row.event_revision - (after + 1)) behind run
      ∙ ap (λ m. numbers (after + 1) (min limit m)) many in
    rw (not_past, not_lost)
      (
        _,
        refl,
        pages,
        last_revision-numbers page after (min limit (row.event_revision - after)) pages,
        refl,
      )
  where
    not_past : ltb row.event_revision after ≡ false
    not_past = ground (arith, high)

    not_lost : ltb after row.event_floor_revision ≡ false
    not_lost = ground (arith, low)
