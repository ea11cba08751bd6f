-- ===== src/Evolution/Windows/Publishing.antt =====
-- A value that is published keeps the window of its stream: the next number is added behind, and the
-- numbers up to the new floor are dropped.
use october_bus.Base.{
  ℕ, ◌+◌, ◌-◌, ◌≤◌, String, Bool, true, false, not, some, List, [], ◌∷◌, ◌++◌, ◌≡◌, refl, ap, sym,
  ◌∙◌, subst, arith, ◌is◌, eq_iff, ◌&&◌, map, Bool-cases, inl, inr, leb, ltb, append-nil,
}
use october_bus.World.{StreamRow, ValueRow}
use october_bus.Rows.{select, find, count, update, delete}
use october_bus.Rows.Laws.{count-update_keeping, find_sound}
use october_bus.Rows.Numbers.{
  numbers, numbers-suc, select-append, map-append, delete-up_to, select-same, select-both,
}
use october_bus.Rows.Keys.{changed, find-update_any, select-delete_other, find-update_other}
use october_bus.Evolution.Windows.{sequences, WindowOf, has_id, IsWindowed}

abbrev bump : ℕ → StreamRow → StreamRow
bump now x = record x { sequence = x.sequence + 1; updated_at = now }

abbrev lift_floor : ℕ → StreamRow → StreamRow
lift_floor floor x = record x { floor_sequence = floor }

pub sequences-append :
    (id : String) (values : List ValueRow) (v : ValueRow)
    → sequences id (values ++ v ∷ []) ≡ sequences id values ++ sequences id (v ∷ [])
unfolding sequences
sequences-append id values v =
    ap (map (λ (x : ValueRow). x.sequence)) (select-append (λ x. x.stream_id is id) values (v ∷ []))
    ∙ map-append (λ (x : ValueRow). x.sequence) (select (λ x. x.stream_id is id) values)
        (select (λ x. x.stream_id is id) (v ∷ []))

one_here :
    (id : String) (v : ValueRow)
    → (v.stream_id is id) ≡ true
    → sequences id (v ∷ []) ≡ v.sequence ∷ []
unfolding sequences select
one_here id v e = rw e refl

none_here : (id : String) (v : ValueRow) → (v.stream_id is id) ≡ false → sequences id (v ∷ []) ≡ []
unfolding sequences select
none_here id v e = rw e refl

-- The values that a new floor leaves of a stream, and of the others.
sequences-drop :
    (id : String) (values : List ValueRow) (n k floor : ℕ)
    → sequences id values ≡ numbers n k
    → n ≤ floor + 1
    → sequences id (delete (λ (v : ValueRow). (v.stream_id is id) && leb v.sequence floor) values)
      ≡ numbers (floor + 1) (n + k - (floor + 1))
unfolding sequences delete
sequences-drop id values n k floor h g =
    ap (map (λ (v : ValueRow). v.sequence)) (swapped values)
    ∙ delete-up_to (λ (v : ValueRow). v.sequence) n k floor
        (select (λ (v : ValueRow). v.stream_id is id) values) h g
  where
    swapped :
        (vs : List ValueRow)
        → select
            (λ (v : ValueRow). v.stream_id is id)
            (select (λ (v : ValueRow). not ((v.stream_id is id) && leb v.sequence floor)) vs)
          ≡ select
              (λ (v : ValueRow). not (leb v.sequence floor))
              (select (λ (v : ValueRow). v.stream_id is id) vs)
    swapped vs =
        sym (
          select-both (λ (v : ValueRow). not ((v.stream_id is id) && leb v.sequence floor))
            (λ (v : ValueRow). v.stream_id is id) vs)
        ∙ select-same _ _ (λ v. both (v.stream_id is id) (leb v.sequence floor)) vs
        ∙ select-both (λ (v : ValueRow). v.stream_id is id)
            (λ (v : ValueRow). not (leb v.sequence floor)) vs
      where
        both : (a b : Bool) → (not (a && b) && a) ≡ (a && not b)
        both true true = refl
        both true false = refl
        both false true = refl
        both false false = refl

sequences-drop_other :
    (id other : String) (values : List ValueRow) (floor : ℕ)
    → (id is other) ≡ false
    → sequences other
        (delete (λ (v : ValueRow). (v.stream_id is id) && leb v.sequence floor) values)
      ≡ sequences other values
unfolding sequences
sequences-drop_other id other values floor apart = ap (map (λ (v : ValueRow). v.sequence)) (
    select-delete_other (λ (v : ValueRow). v.stream_id is other)
      (λ (v : ValueRow). (v.stream_id is id) && leb v.sequence floor) (λ v e. rw (differs v e) refl)
      values)
  where
    differs : (v : ValueRow) → (v.stream_id is other) ≡ true → (v.stream_id is id) ≡ false
    differs v e = elim (Bool-cases (v.stream_id is id)) [
      | inl g ↦ absurd (
          contrary (
            sym apart
            ∙ (eq_iff id other).1
                (sym ((eq_iff v.stream_id id).0 g) ∙ (eq_iff v.stream_id other).0 e)))
      | inr g ↦ g
    ]
      where
        contrary : false ≡ true → ⊥
        contrary k = cc

module _ (streams : List StreamRow) (values : List ValueRow) (h : IsWindowed streams values)
    (id : String) (now : ℕ) (v : ValueRow) (row : StreamRow)
    (found : find (has_id id) streams ≡ some row) (named : v.stream_id ≡ id)
    (next : v.sequence ≡ row.sequence + 1) where
  abbrev bumped : List StreamRow
  bumped = update (has_id id) (bump now) streams

  abbrev lifted : ℕ → List StreamRow
  lifted floor = update (has_id id) (lift_floor floor) bumped

  abbrev dropped : ℕ → List ValueRow
  dropped floor =
      delete (λ (x : ValueRow). (x.stream_id is id) && leb x.sequence floor) (values ++ v ∷ [])

  own : sequences id (values ++ v ∷ []) ≡ sequences id values ++ (row.sequence + 1) ∷ []
  own =
      sequences-append id values v
      ∙ ap (λ zs. sequences id values ++ zs)
          (one_here id v ((eq_iff v.stream_id id).1 named) ∙ ap (λ n. n ∷ []) next)

  other : (o : String) → (id is o) ≡ false → sequences o (values ++ v ∷ []) ≡ sequences o values
  other o apart =
      sequences-append o values v
      ∙ ap (λ zs. sequences o values ++ zs) (none_here o v (ap (λ x. x is o) named ∙ apart))
      ∙ append-nil (sequences o values)

  row_window : WindowOf (sequences id values) (some row)
  unfolding IsWindowed
  row_window = subst (WindowOf (sequences id values)) found (h id).1

  -- The numbers of the stream once the value stands behind them.
  grown :
      sequences id (values ++ v ∷ [])
      ≡ numbers (row.floor_sequence + 1) (row.sequence + 1 - row.floor_sequence)
  unfolding WindowOf
  grown =
      let (run, below, short) = row_window in
      own
      ∙ ap (λ zs. zs ++ (row.sequence + 1) ∷ []) run
      ∙ ap (λ m. numbers (row.floor_sequence + 1) (row.sequence - row.floor_sequence) ++ m ∷ [])
          (omega (arith, below))
      ∙ sym (numbers-suc (row.floor_sequence + 1) (row.sequence - row.floor_sequence))
      ∙ ap (numbers (row.floor_sequence + 1)) (omega (arith, below))

  found_bumped : find (has_id id) bumped ≡ some (bump now row)
  found_bumped =
      find-update_any (has_id id) (has_id id) (bump now) (λ x. refl) streams
      ∙ ap (changed (has_id id) (bump now)) found
      ∙ rw (find_sound (has_id id) streams row found) refl

  found_lifted :
      (floor : ℕ) → find (has_id id) (lifted floor) ≡ some (lift_floor floor (bump now row))
  found_lifted floor =
      find-update_any (has_id id) (has_id id) (lift_floor floor) (λ x. refl) bumped
      ∙ ap (changed (has_id id) (lift_floor floor)) found_bumped
      ∙ rw (find_sound (has_id id) streams row found) refl

  -- The streams of other identifiers are found as before.
  found_other :
      (o : String) (f : StreamRow → StreamRow) (rows : List StreamRow)
      → ((x : StreamRow) → (f x).stream_id ≡ x.stream_id)
      → (id is o) ≡ false
      → find (has_id o) (update (has_id id) f rows) ≡ find (has_id o) rows
  found_other o f rows same apart =
      find-update_other (has_id o) (has_id id) f
        (λ x e. (apart_from x e, ap (λ y. y is o) (same x) ∙ apart_from x e)) rows
    where
      apart_from : (x : StreamRow) → (x.stream_id is id) ≡ true → (x.stream_id is o) ≡ false
      apart_from x e = ap (λ y. y is o) ((eq_iff x.stream_id id).0 e) ∙ apart

  counted : (o : String) → count (has_id o) bumped ≤ 1
  unfolding IsWindowed
  counted o =
      rw (count-update_keeping (has_id o) (has_id id) (bump now) (λ x e. refl) streams) (h o).0

  counted_lifted : (o : String) (floor : ℕ) → count (has_id o) (lifted floor) ≤ 1
  counted_lifted o floor =
      rw (count-update_keeping (has_id o) (has_id id) (lift_floor floor) (λ x e. refl) bumped)
        (counted o)

  -- Below the limit the floor stays.
  pub IsWindowed-append :
      ltb row.floor_sequence (row.sequence + 1 - row.retention_limit) ≡ false
      → IsWindowed bumped (values ++ v ∷ [])
  unfolding IsWindowed WindowOf
  IsWindowed-append stays o = (
    counted o,
    elim (Bool-cases (id is o)) [
      | inl e ↦
          subst (λ x. WindowOf (sequences x (values ++ v ∷ [])) (find (has_id x) bumped))
            ((eq_iff id o).0 e)
            (rw found_bumped (
              let (run, below, short) = row_window in
              (grown, omega (arith, below), ground (arith, below, short, stays))))
      | inr e ↦ rw (found_other o (bump now) streams (λ x. refl) e, other o e) (h o).1
    ],
  )

  -- At the limit the oldest numbers go.
  pub IsWindowed-drop :
      (floor : ℕ)
      → floor ≡ row.sequence + 1 - row.retention_limit
      → ltb row.floor_sequence floor ≡ true
      → IsWindowed (lifted floor) (dropped floor)
  unfolding IsWindowed WindowOf
  IsWindowed-drop floor here raised o = (
    counted_lifted o floor,
    elim (Bool-cases (id is o)) [
      | inl e ↦
          subst (λ x. WindowOf (sequences x (dropped floor)) (find (has_id x) (lifted floor)))
            ((eq_iff id o).0 e)
            (rw (found_lifted floor) (
              sequences-drop id (values ++ v ∷ []) (row.floor_sequence + 1)
                    (row.sequence + 1 - row.floor_sequence) floor grown above
                  ∙ ap (numbers (floor + 1)) span,
              omega (arith, here),
              omega (arith, here),
            ))
      | inr e ↦
          rw
            (
              found_other o (lift_floor floor) bumped (λ x. refl) e,
              found_other o (bump now) streams (λ x. refl) e,
              sequences-drop_other id o (values ++ v ∷ []) floor e,
              other o e,
            )
            (h o).1
    ],
  )
    where
      above : row.floor_sequence + 1 ≤ floor + 1
      above = ground (arith, raised)

      span :
          row.floor_sequence + 1 + (row.sequence + 1 - row.floor_sequence) - (floor + 1)
          ≡ row.sequence + 1 - floor
      span = let (run, below, short) = row_window in omega (arith, below)
