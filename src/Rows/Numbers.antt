-- ===== src/Rows/Numbers.antt =====
-- Rows that are numbered one after another, in the order of their numbers: what selecting and
-- deleting by the number leaves of them.
use october_bus.Base.{
  ℕ, zero, suc, ◌+◌, ◌-◌, ◌<◌, ◌≤◌, min, Bool, true, false, not, List, [], ◌∷◌, ◌++◌, ◌≡◌, refl, ap,
  sym, ◌∙◌, arith, Bool-cases, inl, inr, ltb, leb, ◌&&◌, take, map,
}
use october_bus.Rows.{select, delete, sort_by, insert_by}

-- The `k` numbers from `n` on.
abbrev pub numbers : ℕ → ℕ → List ℕ
numbers n zero = []
numbers n (suc k) = n ∷ numbers (n + 1) k

shift : (n m : ℕ) → n + suc m ≡ (n + 1) + m
shift n m = omega arith

right_zero : (n : ℕ) → n + zero ≡ n
right_zero n = omega arith

left_zero : (n : ℕ) → zero + n ≡ n
left_zero n = omega arith

suc_add : (m k : ℕ) → suc m + k ≡ suc (m + k)
suc_add m k = omega arith

pub numbers-add : (m k n : ℕ) → numbers n (m + k) ≡ numbers n m ++ numbers (n + m) k
numbers-add zero k n = ap (numbers n) (left_zero k) ∙ sym (ap (λ x. numbers x k) (right_zero n))
numbers-add (suc m) k n =
    ap (numbers n) (suc_add m k)
    ∙ ap (λ xs. n ∷ xs)
        (numbers-add m k (n + 1) ∙ ap (λ x. numbers (n + 1) m ++ numbers x k) (sym (shift n m)))

pub numbers-suc : (n k : ℕ) → numbers n (k + 1) ≡ numbers n k ++ (n + k) ∷ []
numbers-suc n k = numbers-add k 1 n

-- A test that is another one by another name.
pub select-same :
    {A : Type 0} (p q : A → Bool)
    → ((x : A) → p x ≡ q x)
    → (rows : List A) → select p rows ≡ select q rows
unfolding select
select-same p q same [] = refl
select-same p q same (x ∷ xs) = rw (same x, select-same p q same xs) refl

pub select-both :
    {A : Type 0} (p q : A → Bool) (rows : List A)
    → select (λ x. p x && q x) rows ≡ select q (select p rows)
unfolding select
select-both p q [] = refl
select-both p q (x ∷ xs) = elim (Bool-cases (p x)) [
  | inl e ↦ rw (e, select-both p q xs) refl
  | inr e ↦ rw (e, select-both p q xs) refl
]

cons_head : (a b : ℕ) (xs ys : List ℕ) → a ∷ xs ≡ b ∷ ys → a ≡ b
cons_head a b xs ys h = cc

cons_tail : (a b : ℕ) (xs ys : List ℕ) → a ∷ xs ≡ b ∷ ys → xs ≡ ys
cons_tail a b xs ys h = cc

no_numbers : (n k : ℕ) → k ≡ 0 → numbers n k ≡ []
no_numbers n k h = rw h refl

module _ {A : Type 0} (key : A → ℕ) where
  -- Rows that all stand behind a number.
  pub select-all :
      (n k after : ℕ) (rows : List A)
      → map key rows ≡ numbers n k
      → after < n
      → select (λ x. ltb after (key x)) rows ≡ rows
  unfolding select
  select-all n k after [] h g = refl
  select-all n zero after (x ∷ xs) h g = cc h
  select-all n (suc k) after (x ∷ xs) h g =
      let rest =
        select-all (n + 1) k after xs (cons_tail (key x) n (map key xs) (numbers (n + 1) k) h)
          (omega (arith, g)) in
      let first = cons_head (key x) n (map key xs) (numbers (n + 1) k) h in
      rw (behind first) (ap (λ zs. x ∷ zs) rest)
    where
      behind : key x ≡ n → ltb after (key x) ≡ true
      behind e = ground (arith, e, g)

  -- The rows behind a number that stands within them.
  pub select-after :
      (n k after : ℕ) (rows : List A)
      → map key rows ≡ numbers n k
      → n ≤ after + 1
      → map key (select (λ x. ltb after (key x)) rows) ≡ numbers (after + 1) (n + k - (after + 1))
  unfolding select
  select-after n zero after [] h g =
      sym (no_numbers (after + 1) (n + zero - (after + 1)) (omega (arith, g)))
  select-after n (suc k) after [] h g = cc h
  select-after n zero after (x ∷ xs) h g = cc h
  select-after n (suc k) after (x ∷ xs) h g = elim (Bool-cases (ltb after (key x))) [
    | inl e ↦
        rw e
          (ap (λ zs. map key (x ∷ zs)) (select-all (n + 1) k after xs tail (above e)) ∙ h ∙ here e)
    | inr e ↦ rw e (
        select-after (n + 1) k after xs tail (below e)
        ∙ ap (λ m. numbers (after + 1) (m - (after + 1))) (sym (shift n k)))
  ]
    where
      tail : map key xs ≡ numbers (n + 1) k
      tail = cons_tail (key x) n (map key xs) (numbers (n + 1) k) h

      first : key x ≡ n
      first = cons_head (key x) n (map key xs) (numbers (n + 1) k) h

      above : ltb after (key x) ≡ true → after < n + 1
      above e = ground (arith, e, g, first)

      below : ltb after (key x) ≡ false → n + 1 ≤ after + 1
      below e = ground (arith, e, g, first)

      start : ltb after (key x) ≡ true → n ≡ after + 1
      start e = ground (arith, e, g, first)

      here :
          ltb after (key x) ≡ true
          → numbers n (suc k) ≡ numbers (after + 1) (n + suc k - (after + 1))
      here e = ap (λ m. numbers m (suc k)) (start e) ∙ ap (numbers (after + 1)) (count e)
        where
          count : ltb after (key x) ≡ true → suc k ≡ n + suc k - (after + 1)
          count e = let s = start e in omega (arith, s)

  pub delete-up_to :
      (n k floor : ℕ) (rows : List A)
      → map key rows ≡ numbers n k
      → n ≤ floor + 1
      → map key (delete (λ x. leb (key x) floor) rows) ≡ numbers (floor + 1) (n + k - (floor + 1))
  unfolding delete
  delete-up_to n k floor rows h g =
      ap (map key) (
        select-same (λ x. not (leb (key x) floor)) (λ x. ltb floor (key x)) (λ x. opposite (key x))
          rows)
      ∙ select-after n k floor rows h g
    where
      opposite : (m : ℕ) → not (leb m floor) ≡ ltb floor m
      opposite m = ground arith

  -- Numbered rows are in order.
  pub sort_by-numbered :
      (n k : ℕ) (rows : List A)
      → map key rows ≡ numbers n k
      → sort_by (λ x y. ltb (key x) (key y)) rows ≡ rows
  unfolding sort_by insert_by
  sort_by-numbered n k [] h = refl
  sort_by-numbered n zero (x ∷ xs) h = cc h
  sort_by-numbered n (suc k) (x ∷ []) h = refl
  sort_by-numbered n (suc zero) (x ∷ y ∷ ys) h = cc h
  sort_by-numbered n (suc (suc k)) (x ∷ y ∷ ys) h =
      let rest = cons_tail (key x) n (map key (y ∷ ys)) (numbers (n + 1) (suc k)) h in
      ap (insert_by (λ x y. ltb (key x) (key y)) x) (sort_by-numbered (n + 1) (suc k) (y ∷ ys) rest)
      ∙ rw
          (rises (cons_head (key x) n (map key (y ∷ ys)) (numbers (n + 1) (suc k)) h)
            (cons_head (key y) (n + 1) (map key ys) (numbers (n + 1 + 1) k) rest))
          refl
    where
      rises : key x ≡ n → key y ≡ n + 1 → ltb (key x) (key y) ≡ true
      rises p q = ground (arith, p, q)

  pub take-numbered :
      (limit n k : ℕ) (rows : List A)
      → map key rows ≡ numbers n k
      → map key (take limit rows) ≡ numbers n (min limit k)
  take-numbered zero n k rows h = sym (no_numbers n (min zero k) (omega arith))
  take-numbered (suc l) n zero [] h = sym (no_numbers n (min (suc l) zero) (omega arith))
  take-numbered (suc l) n (suc k) [] h = cc h
  take-numbered (suc l) n zero (x ∷ xs) h = cc h
  take-numbered (suc l) n (suc k) (x ∷ xs) h =
      ap (λ m. m ∷ map key (take l xs)) (cons_head (key x) n (map key xs) (numbers (n + 1) k) h)
      ∙ ap (λ zs. n ∷ zs)
          (take-numbered l (n + 1) k xs (cons_tail (key x) n (map key xs) (numbers (n + 1) k) h))
      ∙ ap (numbers n) (min_suc l k)
    where
      min_suc : (l k : ℕ) → suc (min l k) ≡ min (suc l) (suc k)
      min_suc l k = omega arith

module _ {A : Type 0} where
  pub select-append :
      (p : A → Bool) (xs ys : List A) → select p (xs ++ ys) ≡ select p xs ++ select p ys
  unfolding select
  select-append p [] ys = refl
  select-append p (x ∷ xs) ys = elim (Bool-cases (p x)) [
    | inl e ↦ rw e (ap (λ zs. x ∷ zs) (select-append p xs ys))
    | inr e ↦ rw e (select-append p xs ys)
  ]

pub map-append :
    {A : Type 0} {B : Type 0} (f : A → B) (xs ys : List A) → map f (xs ++ ys) ≡ map f xs ++ map f ys
map-append f [] ys = refl
map-append f (x ∷ xs) ys = ap (λ zs. f x ∷ zs) (map-append f xs ys)
