-- ===== src/Rows/Keys.antt =====
-- Rows that are looked up by a key: what the statements do to the row that is found.
use october_bus.Base.{
  ◌+◌, ◌≤◌, Bool, true, false, Option, none, some, List, [], ◌∷◌, ◌++◌, ◌≡◌, refl, ap, sym, ◌∙◌,
  arith, Bool-cases, inl, inr, if◌then◌else◌,
}
use october_bus.Rows.{select, find, exists, count, update, delete}

module _ {A : Type 0} where
  abbrev pub changed : (A → Bool) → (A → A) → Option A → Option A
  changed q f none = none
  changed q f (some x) = some (if q x then f x else x)

  pub find-update_any :
      (p q : A → Bool) (f : A → A)
      → ((x : A) → p (f x) ≡ p x)
      → (xs : List A) → find p (update q f xs) ≡ changed q f (find p xs)
  unfolding find update
  find-update_any p q f same [] = refl
  find-update_any p q f same (x ∷ xs) = elim (Bool-cases (q x)) [
    | inl e ↦ elim (Bool-cases (p x)) [
      | inl g ↦ rw (e, same x, g, e) refl
      | inr g ↦ rw (e, same x, g) (find-update_any p q f same xs)
    ]
    | inr e ↦ elim (Bool-cases (p x)) [
      | inl g ↦ rw (e, g, e) refl
      | inr g ↦ rw (e, g) (find-update_any p q f same xs)
    ]
  ]

  abbrev pub otherwise : Option A → (A → Bool) → A → Option A
  otherwise none p y = if p y then some y else none
  otherwise (some x) p y = some x

  pub find-append :
      (p : A → Bool) (xs : List A) (y : A) → find p (xs ++ y ∷ []) ≡ otherwise (find p xs) p y
  unfolding find
  find-append p [] y = refl
  find-append p (x ∷ xs) y = elim (Bool-cases (p x)) [
    | inl e ↦ rw e refl
    | inr e ↦ rw e (find-append p xs y)
  ]

  pub find-delete_other :
      (p q : A → Bool)
      → ((x : A) → q x ≡ true → p x ≡ false)
      → (xs : List A) → find p (delete q xs) ≡ find p xs
  unfolding find delete select
  find-delete_other p q apart [] = refl
  find-delete_other p q apart (x ∷ xs) = elim (Bool-cases (q x)) [
    | inl e ↦ rw (e, apart x e) (find-delete_other p q apart xs)
    | inr e ↦ elim (Bool-cases (p x)) [
      | inl g ↦ rw (e, g) refl
      | inr g ↦ rw (e, g) (find-delete_other p q apart xs)
    ]
  ]

  pub count-delete :
      (p q : A → Bool)
      → ((x : A) → q x ≡ true → p x ≡ true)
      → (xs : List A) → count p (delete q xs) + count q xs ≡ count p xs
  unfolding count delete select
  count-delete p q within [] = omega arith
  count-delete p q within (x ∷ xs) =
      let rest = count-delete p q within xs in
      elim (Bool-cases (q x)) [
        | inl e ↦ rw (e, within x e) (omega (arith, rest))
        | inr e ↦ elim (Bool-cases (p x)) [
          | inl g ↦ rw (e, g) (omega (arith, rest))
          | inr g ↦ rw (e, g) (omega (arith, rest))
        ]
      ]

  pub count-delete_le : (p q : A → Bool) (xs : List A) → count p (delete q xs) ≤ count p xs
  unfolding count delete select
  count-delete_le p q [] = omega arith
  count-delete_le p q (x ∷ xs) = ground (arith, count-delete_le p q xs)

  pub find-of_count : (p : A → Bool) (xs : List A) → count p xs ≡ 0 → find p xs ≡ none
  unfolding count find
  find-of_count p [] h = refl
  find-of_count p (x ∷ xs) h = ground (arith, h, find-of_count p xs)

  pub count-of_exists : (p : A → Bool) (xs : List A) → exists p xs ≡ true → 1 ≤ count p xs
  unfolding count exists
  count-of_exists p [] h = cc h
  count-of_exists p (x ∷ xs) h = ground (arith, h, count-of_exists p xs)

  pub count-of_none : (p : A → Bool) (xs : List A) → exists p xs ≡ false → count p xs ≡ 0
  unfolding count exists
  count-of_none p [] h = refl
  count-of_none p (x ∷ xs) h = ground (arith, h, count-of_none p xs)

  pub exists-within :
      (p q : A → Bool)
      → ((x : A) → p x ≡ true → q x ≡ true)
      → (xs : List A) → exists q xs ≡ false
      → exists p xs ≡ false
  unfolding exists
  exists-within p q within [] h = refl
  exists-within p q within (x ∷ xs) h = elim (Bool-cases (p x)) [
    | inl e ↦ absurd (contrary (rw (within x e) at h))
    | inr e ↦ rw e (exists-within p q within xs (rest h))
  ]
    where
      contrary : true ≡ false → ⊥
      contrary k = cc

      rest : (if q x then true else exists q xs) ≡ false → exists q xs ≡ false
      rest k = ground (arith, k)

  pub exists-none : (p : A → Bool) → ((x : A) → p x ≡ false) → (xs : List A) → exists p xs ≡ false
  unfolding exists
  exists-none p never [] = refl
  exists-none p never (x ∷ xs) = rw (never x) (exists-none p never xs)

  pub select-delete_other :
      (p q : A → Bool)
      → ((x : A) → p x ≡ true → q x ≡ false)
      → (xs : List A) → select p (delete q xs) ≡ select p xs
  unfolding delete select
  select-delete_other p q apart [] = refl
  select-delete_other p q apart (x ∷ xs) =
      let rest = select-delete_other p q apart xs in
      elim (Bool-cases (p x)) [
        | inl e ↦ rw (apart x e, e) (ap (λ zs. x ∷ zs) rest)
        | inr e ↦ elim (Bool-cases (q x)) [ inl g ↦ rw (g, e) rest | inr g ↦ rw (g, e) rest ]
      ]

  pub select-delete_all :
      (p q : A → Bool)
      → ((x : A) → p x ≡ true → q x ≡ true)
      → (xs : List A) → select p (delete q xs) ≡ []
  unfolding delete select
  select-delete_all p q within [] = refl
  select-delete_all p q within (x ∷ xs) =
      let rest = select-delete_all p q within xs in
      elim (Bool-cases (q x)) [
        | inl g ↦ rw g rest
        | inr g ↦ elim (Bool-cases (p x)) [
          | inl e ↦ absurd (contrary (sym g ∙ within x e))
          | inr e ↦ rw (g, e) rest
        ]
      ]
    where
      contrary : false ≡ true → ⊥
      contrary k = cc

  pub delete-none : (q : A → Bool) (xs : List A) → exists q xs ≡ false → delete q xs ≡ xs
  unfolding delete select exists
  delete-none q [] h = refl
  delete-none q (x ∷ xs) h = elim (Bool-cases (q x)) [
    | inl e ↦ absurd (contrary (rw e at h))
    | inr e ↦ rw e (ap (λ zs. x ∷ zs) (delete-none q xs (rw e at h)))
  ]
    where
      contrary : true ≡ false → ⊥
      contrary k = cc

  -- An UPDATE of rows that are not looked for.
  pub find-update_other :
      (q p : A → Bool) (f : A → A)
      → ((x : A) → p x ≡ true → (q x ≡ false) × (q (f x) ≡ false))
      → (xs : List A) → find q (update p f xs) ≡ find q xs
  unfolding find update
  find-update_other q p f apart [] = refl
  find-update_other q p f apart (x ∷ xs) = elim (Bool-cases (p x)) [
    | inl e ↦ rw (e, (apart x e).0, (apart x e).1) (find-update_other q p f apart xs)
    | inr e ↦ elim (Bool-cases (q x)) [
      | inl k ↦ rw (e, k) refl
      | inr k ↦ rw (e, k) (find-update_other q p f apart xs)
    ]
  ]

  pub exists-of_no_find : (p : A → Bool) (xs : List A) → find p xs ≡ none → exists p xs ≡ false
  unfolding find exists
  exists-of_no_find p [] h = refl
  exists-of_no_find p (x ∷ xs) h = elim (Bool-cases (p x)) [
    | inl e ↦ absurd (differ (rw e at h))
    | inr e ↦ rw e (exists-of_no_find p xs (rw e at h))
  ]
    where
      differ : some x ≡ none → ⊥
      differ k = cc
