-- ===== src/Evolution/Windows/Streams.antt =====
-- Creating, changing and removing streams keeps the windows.
use october_bus.Base.{
  ℕ, ◌+◌, ◌≤◌, String, Bool, true, false, Option, none, some, List, [], ◌∷◌, ◌++◌, ◌≡◌, refl, ap,
  sym, ◌∙◌, subst, arith, ◌is◌, eq_iff, ◌&&◌, map, Bool-cases, inl, inr,
}
use october_bus.World.{StreamRow, ValueRow}
use october_bus.Rows.{find, exists, count, update, delete}
use october_bus.Rows.Laws.{count-update_keeping, count-append}
use october_bus.Rows.Keys.{
  changed, find-update_any, otherwise, find-append, find-delete_other, count-delete,
  count-delete_le, find-of_count, count-of_exists, count-of_none, exists-within, exists-none,
  select-delete_other, select-delete_all, delete-none,
}
use october_bus.Evolution.Windows.{sequences, WindowOf, has_id, IsWindowed}

module _ (streams : List StreamRow) (values : List ValueRow) (h : IsWindowed streams values) where
  pub IsWindowed-touch :
      (p : StreamRow → Bool) (now : ℕ)
      → IsWindowed (update p (λ x. record x { updated_at = now }) streams) values
  unfolding IsWindowed WindowOf
  IsWindowed-touch p now id = (
    rw
        (count-update_keeping (has_id id) p (λ x. record x { updated_at = now }) (λ x e. refl)
          streams)
        (h id).0,
    rw (find-update_any (has_id id) p (λ x. record x { updated_at = now }) (λ x. refl) streams)
        (touched (find (has_id id) streams) (h id).1),
  )
    where
      touched :
          (o : Option StreamRow)
          → WindowOf (sequences id values) o
          → WindowOf (sequences id values) (changed p (λ x. record x { updated_at = now }) o)
      touched none g = g
      touched (some r) g = elim (Bool-cases (p r)) [ inl e ↦ rw e g | inr e ↦ rw e g ]

  -- A new stream has no values yet.
  pub IsWindowed-create :
      (row : StreamRow)
      → exists (has_id row.stream_id) streams ≡ false
      → row.sequence ≡ 0
      → row.floor_sequence ≡ 0
      → IsWindowed (streams ++ row ∷ []) values
  unfolding IsWindowed WindowOf count
  IsWindowed-create row fresh seq floor id = (
    rw (count-append (has_id id) streams (row ∷ [])) single,
    rw (find-append (has_id id) streams row) (added (find (has_id id) streams) (h id).1),
  )
    where
      alone : row.stream_id ≡ id → count (has_id id) streams ≡ 0
      alone e =
          subst (λ x. count (has_id x) streams ≡ 0) e
            (count-of_none (has_id row.stream_id) streams fresh)

      single : count (has_id id) streams + count (has_id id) (row ∷ []) ≤ 1
      single = elim (Bool-cases (row.stream_id is id)) [
        | inl e ↦
            (let none_yet = alone ((eq_iff row.stream_id id).0 e) in rw e (omega (arith, none_yet)))
        | inr e ↦ (let one = (h id).0 in rw e (omega (arith, one)))
      ]

      added :
          (o : Option StreamRow)
          → WindowOf (sequences id values) o
          → WindowOf (sequences id values) (otherwise o (has_id id) row)
      added none g = elim (Bool-cases (row.stream_id is id)) [
        | inl e ↦ rw (e, seq, floor, g) (refl, omega arith, omega arith)
        | inr e ↦ rw e g
      ]
      added (some r) g = g

  -- A removed stream takes its values with it.
  module _ (q : StreamRow → Bool) (stream_id : String)
      (named : (x : StreamRow) → q x ≡ true → x.stream_id ≡ stream_id) where
    abbrev gone : String → Bool
    gone id = exists (λ (x : StreamRow). q x && (x.stream_id is id)) streams

    abbrev kept : List ValueRow
    kept = delete (λ (v : ValueRow). gone v.stream_id) values

    sequences-kept : (id : String) → gone id ≡ false → sequences id kept ≡ sequences id values
    unfolding sequences
    sequences-kept id e = ap (map (λ (v : ValueRow). v.sequence)) (
        select-delete_other (λ (v : ValueRow). v.stream_id is id)
          (λ (v : ValueRow). gone v.stream_id) (λ v g. ap gone ((eq_iff v.stream_id id).0 g) ∙ e)
          values)

    sequences-gone : (id : String) → gone id ≡ true → sequences id kept ≡ []
    unfolding sequences
    sequences-gone id e = ap (map (λ (v : ValueRow). v.sequence)) (
        select-delete_all (λ (v : ValueRow). v.stream_id is id) (λ (v : ValueRow). gone v.stream_id)
          (λ v g. ap gone ((eq_iff v.stream_id id).0 g) ∙ e) values)

    named_by :
        (x : StreamRow) (id : String) → q x ≡ true → stream_id ≡ id → (x.stream_id is id) ≡ true
    named_by x id e g = (eq_iff x.stream_id id).1 (named x e ∙ g)

    not_named :
        (x : StreamRow) (id : String)
        → q x ≡ true
        → (stream_id is id) ≡ false
        → (x.stream_id is id) ≡ false
    not_named x id e g = ap (λ y. y is id) (named x e) ∙ g

    -- Streams of other identifiers are not touched.
    elsewhere :
        (id : String)
        → (stream_id is id) ≡ false
        → WindowOf (sequences id kept) (find (has_id id) (delete q streams))
    unfolding IsWindowed
    elsewhere id apart =
        rw
          (
            find-delete_other (has_id id) q (λ x e. not_named x id e apart) streams,
            sequences-kept id
                (exists-none (λ (x : StreamRow). q x && (x.stream_id is id)) (none_gone) streams),
          )
          (h id).1
      where
        none_gone : (x : StreamRow) → (q x && (x.stream_id is id)) ≡ false
        none_gone x = elim (Bool-cases (q x)) [
          | inl e ↦ rw (e, not_named x id e apart) refl
          | inr e ↦ rw e refl
        ]

    here :
        (id : String)
        → stream_id ≡ id
        → exists q streams ≡ true
        → WindowOf (sequences id kept) (find (has_id id) (delete q streams))
    unfolding WindowOf IsWindowed
    here id same found =
        let whole = count-delete (has_id id) q (λ x e. named_by x id e same) streams in
        let some_q = count-of_exists q streams found in
        let most = (h id).0 in
        rw (find-of_count (has_id id) (delete q streams) (omega (arith, whole, some_q, most)))
          (sequences-gone id (found_gone found))
      where
        found_gone : exists q streams ≡ true → gone id ≡ true
        found_gone e = elim (Bool-cases (gone id)) [
          | inl g ↦ g
          | inr g ↦ absurd (
              contrary (
                sym (
                  exists-within q (λ (x : StreamRow). q x && (x.stream_id is id))
                    (λ x k. rw (k, named_by x id k same) refl) streams g)
                ∙ e))
        ]
          where
            contrary : false ≡ true → ⊥
            contrary k = cc

    nothing_gone : exists q streams ≡ false → (id : String) → gone id ≡ false
    nothing_gone e id =
        exists-within (λ (x : StreamRow). q x && (x.stream_id is id)) q (λ x k. ground (arith, k))
          streams e

    pub IsWindowed-remove : IsWindowed (delete q streams) kept
    unfolding IsWindowed
    IsWindowed-remove id = (
      (let few = count-delete_le (has_id id) q streams in
          let one = (h id).0 in omega (arith, few, one)),
      elim (Bool-cases (stream_id is id)) [
        | inl e ↦ elim (Bool-cases (exists q streams)) [
          | inl f ↦ here id ((eq_iff stream_id id).0 e) f
          | inr f ↦ rw (delete-none q streams f, sequences-kept id (nothing_gone f id)) (h id).1
        ]
        | inr e ↦ elsewhere id e
      ],
    )
