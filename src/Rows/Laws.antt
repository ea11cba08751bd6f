-- ===== src/Rows/Laws.antt =====
-- How the statements act on the rows: what an UPDATE keeps, and how a table grows.
use october_bus.Base.{
  String, Option, eq_iff, suc, ◌+◌, ◌≡◌, refl, Bool, true, false, none, some, List, [], ◌∷◌, ◌++◌,
  arith, All, Bool-cases, inl, inr, subst, ap,
}
use october_bus.Rows.{select, find, exists, count, update, insert_by, sort_by, holds}

-- Every row of `xs` stands in `ys` at its place, changed along `R`; the rows behind it are new.
abbrev pub Grows {ℓ} : {A : Type ℓ} → (A → A → Type 0) → (A → Type 0) → List A → List A → Type 0
Grows R N [] ys = All N ys
Grows R N (x ∷ xs) [] = ⊥
Grows R N (x ∷ xs) (y ∷ ys) = R x y × Grows R N xs ys

module _ {ℓ} {A : Type ℓ} (R : A → A → Type 0) (N : A → Type 0) where
  pub Grows-refl : ((x : A) → R x x) → (xs : List A) → Grows R N xs xs
  Grows-refl rf [] = tt
  Grows-refl rf (x ∷ xs) = (rf x, Grows-refl rf xs)

  pub All-Grows :
      ((x y : A) → N x → R x y → N y) → (xs ys : List A) → All N xs → Grows R N xs ys → All N ys
  All-Grows keep [] ys h g = g
  All-Grows keep (x ∷ xs) [] h g = absurd g
  All-Grows keep (x ∷ xs) (y ∷ ys) h g = (keep x y h.0 g.0, All-Grows keep xs ys h.1 g.1)

  pub Grows-trans :
      ((x y z : A) → R x y → R y z → R x z)
      → ((x y : A) → N x → R x y → N y)
      → (xs ys zs : List A) → Grows R N xs ys
      → Grows R N ys zs
      → Grows R N xs zs
  Grows-trans tr keep [] ys zs g h = All-Grows keep ys zs g h
  Grows-trans tr keep (x ∷ xs) [] zs g h = absurd g
  Grows-trans tr keep (x ∷ xs) (y ∷ ys) [] g h = absurd h
  Grows-trans tr keep (x ∷ xs) (y ∷ ys) (z ∷ zs) g h =
      (tr x y z g.0 h.0, Grows-trans tr keep xs ys zs g.1 h.1)

  pub Grows-append : ((x : A) → R x x) → (xs new : List A) → All N new → Grows R N xs (xs ++ new)
  Grows-append rf [] new h = h
  Grows-append rf (x ∷ xs) new h = (rf x, Grows-append rf xs new h)

  pub Grows-update :
      (p : A → Bool) (f : A → A)
      → ((x : A) → R x x)
      → ((x : A) → p x ≡ true → R x (f x))
      → (xs : List A) → Grows R N xs (update p f xs)
  unfolding update
  Grows-update p f rf step [] = tt
  Grows-update p f rf step (x ∷ xs) = elim (Bool-cases (p x)) [
    | inl e ↦ (rw e (step x e), Grows-update p f rf step xs)
    | inr e ↦ (rw e (rf x), Grows-update p f rf step xs)
  ]

module _ {ℓ} {A : Type ℓ} where
  pub All-update :
      (P : A → Type 0) (p : A → Bool) (f : A → A)
      → ((x : A) → p x ≡ true → P x → P (f x))
      → (xs : List A) → All P xs
      → All P (update p f xs)
  unfolding update
  All-update P p f step [] h = tt
  All-update P p f step (x ∷ xs) h = elim (Bool-cases (p x)) [
    | inl e ↦ (rw e (step x e h.0), All-update P p f step xs h.1)
    | inr e ↦ (rw e h.0, All-update P p f step xs h.1)
  ]

  pub All-select : (P : A → Type 0) (p : A → Bool) (xs : List A) → All P xs → All P (select p xs)
  unfolding select
  All-select P p [] h = tt
  All-select P p (x ∷ xs) h = elim (Bool-cases (p x)) [
    | inl e ↦ rw e (h.0, All-select P p xs h.1)
    | inr e ↦ rw e (All-select P p xs h.1)
  ]

  -- What is selected passes the test.
  pub select_sound : (p : A → Bool) (xs : List A) → All (λ x. p x ≡ true) (select p xs)
  unfolding select
  select_sound p [] = tt
  select_sound p (x ∷ xs) = elim (Bool-cases (p x)) [
    | inl e ↦ rw e (e, select_sound p xs)
    | inr e ↦ rw e (select_sound p xs)
  ]

  pub find_sound : (p : A → Bool) (xs : List A) (x : A) → find p xs ≡ some x → p x ≡ true
  unfolding find
  find_sound p [] x e = cc
  find_sound p (y ∷ ys) x e = elim (Bool-cases (p y)) [
    | inl h ↦ ground (arith, h)
    | inr h ↦ find_sound p ys x (ground (arith, h))
  ]

  pub All-find :
      (P : A → Type 0) (p : A → Bool) (xs : List A) (x : A) → find p xs ≡ some x → All P xs → P x
  unfolding find
  All-find P p [] x e h = cc
  All-find P p (y ∷ ys) x e h = elim (Bool-cases (p y)) [
    | inl q ↦ subst P (some_injective y x (rw q at e)) h.0
    | inr q ↦ All-find P p ys x (rw q at e) h.1
  ]
    where
      some_injective : (a b : A) → some a ≡ some b → a ≡ b
      some_injective a b k = cc

  pub find-eq-none : (p : A → Bool) (xs : List A) → exists p xs ≡ false → find p xs ≡ none
  unfolding find exists
  find-eq-none p [] h = refl
  find-eq-none p (x ∷ xs) h = ground (arith, find-eq-none p xs)

  pub exists-of-find :
      (p : A → Bool) (xs : List A) (x : A) → find p xs ≡ some x → exists p xs ≡ true
  unfolding find exists
  exists-of-find p [] x h = cc
  exists-of-find p (y ∷ ys) x h = ground (arith, exists-of-find p ys x)

  -- After an UPDATE whose rows leave the WHERE clause, the same statement finds none.
  pub count-update_leaving :
      (p : A → Bool) (f : A → A)
      → ((x : A) → p x ≡ true → p (f x) ≡ false)
      → (xs : List A) → count p (update p f xs) ≡ 0
  unfolding count update
  count-update_leaving p f out [] = refl
  count-update_leaving p f out (x ∷ xs) = elim (Bool-cases (p x)) [
    | inl e ↦ rw (e, out x e) (count-update_leaving p f out xs)
    | inr e ↦ rw (e, e) (count-update_leaving p f out xs)
  ]

  -- An UPDATE that does not change a test does not change what it counts.
  pub count-update_keeping :
      (q p : A → Bool) (f : A → A)
      → ((x : A) → p x ≡ true → q (f x) ≡ q x)
      → (xs : List A) → count q (update p f xs) ≡ count q xs
  unfolding count update
  count-update_keeping q p f same [] = refl
  count-update_keeping q p f same (x ∷ xs) = elim (Bool-cases (p x)) [
    | inl e ↦ rw (e, same x e, count-update_keeping q p f same xs)
    | inr e ↦ rw (e, count-update_keeping q p f same xs)
  ]

  pub count-append : (p : A → Bool) (xs ys : List A) → count p (xs ++ ys) ≡ count p xs + count p ys
  unfolding count
  count-append p [] ys = omega arith
  count-append p (x ∷ xs) ys = ground (arith, count-append p xs ys)

  pub exists-append :
      (p : A → Bool) (xs : List A) (y : A) → p y ≡ true → exists p (xs ++ y ∷ []) ≡ true
  unfolding exists
  exists-append p [] y h = ground arith
  exists-append p (x ∷ xs) y h = ground (arith, exists-append p xs y h)

  -- A row that is found, updated by a statement that does not change what the search asks for.
  pub find-update :
      (p q : A → Bool) (f : A → A)
      → ((x : A) → q x ≡ true → p (f x) ≡ p x)
      → (xs : List A) (x : A) → find p xs ≡ some x
      → q x ≡ true
      → find p (update q f xs) ≡ some (f x)
  unfolding find update
  find-update p q f same [] x h k = cc
  find-update p q f same (y ∷ ys) x h k = elim (Bool-cases (p y)) [
    | inl e ↦
        (let here : y ≡ x = injected y x (rw e at h) in
          rw (here, k, same x k, subst (λ z. p z ≡ true) here e) refl)
    | inr e ↦ elim (Bool-cases (q y)) [
      | inl c ↦ rw (c, same y c, e) (find-update p q f same ys x (rw e at h) k)
      | inr c ↦ rw (c, e) (find-update p q f same ys x (rw e at h) k)
    ]
  ]
    where
      injected : (a b : A) → some a ≡ some b → a ≡ b
      injected a b g = cc

-- An order of the rows keeps what holds of each.
module _ {ℓ} {A : Type ℓ} (P : A → Type 0) (before : A → A → Bool) where
  All-insert_by : (x : A) (xs : List A) → P x → All P xs → All P (insert_by before x xs)
  unfolding insert_by
  All-insert_by x [] h hs = (h, tt)
  All-insert_by x (y ∷ ys) h hs = elim (Bool-cases (before x y)) [
    | inl e ↦ rw e (h, hs)
    | inr e ↦ rw e (hs.0, All-insert_by x ys h hs.1)
  ]

  pub All-sort_by : (xs : List A) → All P xs → All P (sort_by before xs)
  unfolding sort_by
  All-sort_by [] h = tt
  All-sort_by (x ∷ xs) h = All-insert_by x (sort_by before xs) h.0 (All-sort_by xs h.1)

module _ {A : Type 0} where
  none_selected : (p : A → Bool) (xs : List A) → count p xs ≡ 0 → select p xs ≡ []
  unfolding count select
  none_selected p [] h = refl
  none_selected p (x ∷ xs) h = elim (Bool-cases (p x)) [
    | inl e ↦ (let k : suc (count p xs) ≡ 0 = rw e at h in absurd (omega (arith, k)))
    | inr e ↦ rw e (none_selected p xs (rw e at h))
  ]

  -- A statement that meets one row meets a row that its condition holds of.
  pub one_selected :
      (p : A → Bool) (xs : List A)
      → count p xs ≡ 1
      → (x : A) × (select p xs ≡ x ∷ []) × (p x ≡ true)
  unfolding count select
  one_selected p [] h = absurd (omega (arith, h))
  one_selected p (x ∷ xs) h = elim (Bool-cases (p x)) [
    | inl e ↦
        (let k : suc (count p xs) ≡ 1 = rw e at h in
          rw e (x, ap (λ rows. x ∷ rows) (none_selected p xs (omega (arith, k))), e))
    | inr e ↦ rw e (one_selected p xs (rw e at h))
  ]

-- A comparison with a nullable column holds of that very text.
pub holds-eq : (o : Option String) (s : String) → holds o s ≡ true → o ≡ some s
holds-eq none s h = cc
holds-eq (some t) s h = ap some ((eq_iff t s).0 h)
