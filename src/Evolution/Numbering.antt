-- ===== src/Evolution/Numbering.antt =====
-- The revisions of a scope's events: one after the other, from 1 to the counter of the scope.
use october_bus.Base.{
  ℕ, ◌+◌, ◌-◌, String, Bool, true, false, some, List, [], ◌∷◌, ◌++◌, ◌≡◌, ◌≢◌, refl, sym, ap, subst,
  ◌∙◌, arith, All, Bool-cases, inl, inr, ◌is◌, eq_iff, map,
}
use october_bus.World.{ScopeRow, EventRow}
use october_bus.Rows.{select, find, update}
use october_bus.Rows.Keys.{find-update_other}
use october_bus.Rows.Numbers.{numbers, numbers-add, select-append, map-append}

unfoldable pub revisions : String → List EventRow → List ℕ
revisions s rows = map (λ (r : EventRow). r.revision) (select (λ r. r.scope_id is s) rows)

unfoldable pub IsNumbered : List ScopeRow → List EventRow → Type 0
IsNumbered scopes events =
    (s : String) (r : ScopeRow)
    → find (λ (r : ScopeRow). r.scope_id is s) scopes ≡ some r
    → revisions s events ≡ numbers 1 r.event_revision

module _ {A : Type 0} where
  -- What is found after an UPDATE of the same rows stood there before.
  find-update_same :
      (p : A → Bool) (f : A → A)
      → ((x : A) → p x ≡ true → p (f x) ≡ true)
      → (xs : List A) (y : A) → find p (update p f xs) ≡ some y
      → (x : A) × (find p xs ≡ some x) × (f x ≡ y)
  unfolding find update
  find-update_same p f same [] y h = cc
  find-update_same p f same (x ∷ xs) y h = elim (Bool-cases (p x)) [
    | inl e ↦ (x, rw e refl, inject (rw (e, same x e) at h))
    | inr e ↦ (let (z, g, k) = find-update_same p f same xs y (rw (e, e) at h) in (z, rw e g, k))
  ]
    where
      inject : {a b : A} → some a ≡ some b → a ≡ b
      inject k = cc

revisions-append :
    (s : String) (xs ys : List EventRow) → revisions s (xs ++ ys) ≡ revisions s xs ++ revisions s ys
unfolding revisions
revisions-append s xs ys =
    ap (map (λ (r : EventRow). r.revision)) (select-append (λ r. r.scope_id is s) xs ys)
    ∙ map-append (λ (r : EventRow). r.revision) (select (λ r. r.scope_id is s) xs)
        (select (λ r. r.scope_id is s) ys)

revisions-here :
    (s : String) (rows : List EventRow)
    → All (λ (r : EventRow). r.scope_id ≡ s) rows
    → revisions s rows ≡ map (λ (r : EventRow). r.revision) rows
unfolding revisions select
revisions-here s [] h = refl
revisions-here s (r ∷ rows) h =
    rw ((eq_iff r.scope_id s).1 h.0) (ap (λ zs. r.revision ∷ zs) (revisions-here s rows h.1))

is_not : (a b : String) → a ≢ b → (a is b) ≡ false
is_not a b h = ground (arith, eq_iff a b)

revisions-elsewhere :
    (s o : String) (rows : List EventRow)
    → s ≢ o
    → All (λ (r : EventRow). r.scope_id ≡ s) rows
    → revisions o rows ≡ []
unfolding revisions select
revisions-elsewhere s o [] apart h = refl
revisions-elsewhere s o (r ∷ rows) apart h =
    rw (is_not r.scope_id o (λ e. apart (sym h.0 ∙ e))) (revisions-elsewhere s o rows apart h.1)

abbrev pub raise : ℕ → ScopeRow → ScopeRow
raise k r = record r { event_revision = r.event_revision + k }

some_injective : {A : Type 0} {a b : A} → some a ≡ some b → a ≡ b
some_injective h = cc

next_number : (n k : ℕ) → (n + k) - k + 1 ≡ 1 + n
next_number n k = omega arith

-- The rows that a batch adds go on where the counter of the scope stood.
module _ (s : String) (k : ℕ) (scopes : List ScopeRow) (events rows : List EventRow)
    (before : IsNumbered scopes events) (row : ScopeRow)
    (found : find
        (λ (r : ScopeRow). r.scope_id is s)
        (update (λ r. r.scope_id is s) (raise k) scopes)
      ≡ some row)
    (here : All (λ (r : EventRow). r.scope_id ≡ s) rows)
    (numbered : map (λ (r : EventRow). r.revision) rows
      ≡ numbers (row.event_revision - k + 1) k) where
  same_scope : revisions s (events ++ rows) ≡ numbers 1 row.event_revision
  unfolding IsNumbered
  same_scope =
      let (x, was, raised) =
        find-update_same (λ (r : ScopeRow). r.scope_id is s) (raise k) (λ r e. e) scopes row
          found in
      let counter : x.event_revision + k ≡ row.event_revision =
        ap (λ (r : ScopeRow). r.event_revision) raised in
      revisions-append s events rows
      ∙ ap (λ zs. zs ++ revisions s rows) (before s x was)
      ∙ ap (λ zs. numbers 1 x.event_revision ++ zs) (revisions-here s rows here ∙ numbered)
      ∙ ap (λ n. numbers 1 x.event_revision ++ numbers (n - k + 1) k) (sym counter)
      ∙ ap (λ n. numbers 1 x.event_revision ++ numbers n k) (next_number x.event_revision k)
      ∙ sym (numbers-add x.event_revision k 1)
      ∙ ap (numbers 1) counter

  other_scope :
      (o : String) (r : ScopeRow)
      → s ≢ o
      → find (λ (r : ScopeRow). r.scope_id is o) (update (λ r. r.scope_id is s) (raise k) scopes)
        ≡ some r
      → revisions o (events ++ rows) ≡ numbers 1 r.event_revision
  unfolding IsNumbered
  other_scope o r apart h =
      revisions-append o events rows
      ∙ ap (λ zs. revisions o events ++ zs) (revisions-elsewhere s o rows apart here)
      ∙ append_empty (revisions o events)
      ∙ before o r (
          sym (
            find-update_other (λ (r : ScopeRow). r.scope_id is o) (λ r. r.scope_id is s) (raise k)
              (λ x e. (elsewhere x e, elsewhere x e)) scopes)
          ∙ h)
    where
      elsewhere : (x : ScopeRow) → (x.scope_id is s) ≡ true → (x.scope_id is o) ≡ false
      elsewhere x e = is_not x.scope_id o (λ f. apart (sym ((eq_iff x.scope_id s).0 e) ∙ f))

      append_empty : (xs : List ℕ) → xs ++ [] ≡ xs
      append_empty [] = refl
      append_empty (x ∷ xs) = ap (λ zs. x ∷ zs) (append_empty xs)

  pub IsNumbered-append :
      IsNumbered (update (λ r. r.scope_id is s) (raise k) scopes) (events ++ rows)
  unfolding IsNumbered
  IsNumbered-append o r h = elim (Bool-cases (s is o)) [
    | inl e ↦
        (let same : s ≡ o = (eq_iff s o).0 e in
          subst (λ z. revisions z (events ++ rows) ≡ numbers 1 r.event_revision) same
            (same_scope
              ∙ ap (λ (x : ScopeRow). numbers 1 x.event_revision)
                  (some_injective (
                    sym found
                    ∙ ap
                        (λ z.
                          find (λ (r : ScopeRow). r.scope_id is z)
                            (update (λ r. r.scope_id is s) (raise k) scopes))
                        same
                    ∙ h))))
    | inr e ↦ other_scope o r (λ same. absurd (contrary e ((eq_iff s o).1 same))) h
  ]
    where
      contrary : {b : Bool} → b ≡ false → b ≡ true → ⊥
      contrary f t = cc
