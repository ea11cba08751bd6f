-- ===== src/Outputs/History.antt =====
-- What a reader of a stream gets from a window: consecutive numbers, from behind the one it names.
use october_bus.Base.{
  ℕ, zero, suc, ◌+◌, ◌-◌, ◌≤◌, min, String, false, some, List, [], ◌∷◌, ◌≡◌, refl, ap, ◌∙◌, subst,
  arith, map, ◌is◌, ltb, take,
}
use october_bus.World.{World, StreamRow, ValueRow}
use october_bus.Rows.{select, sort_by}
use october_bus.Rows.Numbers.{numbers, select-both, select-after, sort_by-numbered, take-numbered}
use october_bus.Tx.{ok, ◌>>=◌, pure, gets}
use october_bus.Evolution.Windows.{sequences, WindowOf, IsWindowed}
use october_bus.Outputs.{stream_row}
use october_bus.Outputs.Read.{
  OutputHistory, before_value, values_after, last_sequence, output_history,
}

-- The values behind a number within the window.
values_after-numbers :
    (id : String) (values : List ValueRow) (n k after limit : ℕ)
    → sequences id values ≡ numbers n k
    → n ≤ after + 1
    → map (λ (v : ValueRow). v.sequence) (values_after id after limit values)
      ≡ numbers (after + 1) (min limit (n + k - (after + 1)))
unfolding sequences values_after
values_after-numbers id values n k after limit h g =
    let key = λ (v : ValueRow). v.sequence in
    let mine = select (λ (v : ValueRow). v.stream_id is id) values in
    let behind = select (λ (v : ValueRow). ltb after v.sequence) mine in
    let run = select-after key n k after mine h g in
    ap (λ vs. map key (take limit (sort_by before_value vs)))
      (select-both (λ (v : ValueRow). v.stream_id is id) (λ (v : ValueRow). ltb after v.sequence)
        values)
    ∙ ap (λ vs. map key (take limit vs))
        (sort_by-numbered key (after + 1) (n + k - (after + 1)) behind run)
    ∙ take-numbered key limit (after + 1) (n + k - (after + 1)) behind run

last_sequence-numbers :
    (values : List ValueRow) (after k : ℕ)
    → map (λ (v : ValueRow). v.sequence) values ≡ numbers (after + 1) k
    → last_sequence after values ≡ after + k
last_sequence-numbers [] after zero h = omega arith
last_sequence-numbers [] after (suc k) h = cc h
last_sequence-numbers (v ∷ vs) after zero h = cc h
last_sequence-numbers (v ∷ vs) after (suc k) h =
    let first : v.sequence ≡ after + 1 = cc h in
    let rest : map (λ (v : ValueRow). v.sequence) vs ≡ numbers (after + 1 + 1) k = cc h in
    ap (λ n. last_sequence n vs) first ∙ last_sequence-numbers vs (after + 1) k rest ∙ omega arith

-- From a number between the floor and the counter of the stream, a read succeeds and changes
-- nothing: it gives the next values in order without a gap, as many as the limit allows and the
-- stream has, and the number to go on from.
pub output_history-consecutive :
    (w : World) (row : StreamRow) (after limit : ℕ)
    → IsWindowed w.resources.streams w.resources.values
    → stream_row w.resources row.stream_id ≡ some row
    → row.floor_sequence ≤ after
    → after ≤ row.sequence
    → (page : OutputHistory) × (output_history row after limit w ≡ ok page w)
      × (map (λ (v : ValueRow). v.sequence) page.values
          ≡ numbers (after + 1) (min limit (row.sequence - after)))
      × (page.next_sequence ≡ after + min limit (row.sequence - after))
      × (page.resync_required ≡ false)
unfolding output_history ◌>>=◌ gets pure IsWindowed WindowOf stream_row
output_history-consecutive w row after limit h found low high =
    let (run, below, short) =
      subst (WindowOf (sequences row.stream_id w.resources.values)) found (h row.stream_id).1 in
    let page = values_after row.stream_id after limit w.resources.values in
    let many : row.floor_sequence + 1 + (row.sequence - row.floor_sequence) - (after + 1)
        ≡ row.sequence - after =
      omega (arith, below, low) in
    let pages : map (λ (v : ValueRow). v.sequence) page
        ≡ numbers (after + 1) (min limit (row.sequence - after)) =
      values_after-numbers row.stream_id w.resources.values (row.floor_sequence + 1)
        (row.sequence - row.floor_sequence) after limit run (omega (arith, low))
      ∙ ap (λ m. numbers (after + 1) (min limit m)) many in
    rw (not_past, not_lost)
      (
        _,
        refl,
        pages,
        last_sequence-numbers page after (min limit (row.sequence - after)) pages,
        refl,
      )
  where
    not_past : ltb row.sequence after ≡ false
    not_past = ground (arith, high)

    not_lost : ltb after row.floor_sequence ≡ false
    not_lost = ground (arith, low)
