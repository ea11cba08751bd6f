-- ===== src/Waiting.antt =====
-- bus/inbox_wait.go and the wait budget of bus/capacity.go: the maps that a runtime keeps in memory
-- for the readers that wait, by the key of a consumer. A Go map is an association list in which a
-- key stands once.
pub mod Budget
pub mod Signals
use october_bus.Base.{
  String, Bool, true, false, Option, none, some, List, [], ◌∷◌, ◌≡◌, ◌≢◌, refl, ◌&&◌, if◌then◌else◌,
  ◌is◌, eq_iff, Bool-cases, inl, inr, ◌⊎◌, sym, ◌∙◌, ap, All, subst,
}

pub record SignalKey : Type 0 where
  pub scope_id : String
  pub consumer_id : String

unfoldable pub same_key : SignalKey → SignalKey → Bool
same_key k j = (k.scope_id is j.scope_id) && (k.consumer_id is j.consumer_id)

module _ {A : Type 0} where
  unfoldable pub lookup : SignalKey → List (SignalKey × A) → Option A
  lookup k [] = none
  lookup k ((j, a) ∷ m) = if same_key k j then some a else lookup k m

  -- delete(m, k)
  unfoldable pub remove : SignalKey → List (SignalKey × A) → List (SignalKey × A)
  remove k [] = []
  remove k ((j, a) ∷ m) = let rest = remove k m in if same_key k j then rest else (j, a) ∷ rest

  -- m[k] = a
  unfoldable pub put : SignalKey → A → List (SignalKey × A) → List (SignalKey × A)
  unfolding remove
  put k a m = (k, a) ∷ remove k m

and_true : (a b : Bool) → (a && b) ≡ true → (a ≡ true) × (b ≡ true)
and_true true b h = (refl, h)
and_true false b h = cc

pub same_key-eq : (k j : SignalKey) → same_key k j ≡ true → k ≡ j
unfolding same_key
same_key-eq k j h =
    let (p, q) = and_true (k.scope_id is j.scope_id) (k.consumer_id is j.consumer_id) h in
    let scope = (eq_iff k.scope_id j.scope_id).0 p in
    let consumer = (eq_iff k.consumer_id j.consumer_id).0 q in
    λ i. record { scope_id = scope i; consumer_id = consumer i }

pub same_key_refl : (k : SignalKey) → same_key k k ≡ true
unfolding same_key
same_key_refl k =
    rw ((eq_iff k.scope_id k.scope_id).1 refl, (eq_iff k.consumer_id k.consumer_id).1 refl) refl

pub same_key-consumer : (k j : SignalKey) → k.consumer_id ≢ j.consumer_id → same_key k j ≡ false
same_key-consumer k j apart = elim (Bool-cases (same_key k j)) [
  | inl e ↦ absurd (apart (ap (λ (x : SignalKey). x.consumer_id) (same_key-eq k j e)))
  | inr e ↦ e
]

-- A key that is another one than `k` is not the key of `k`.
same_key-apart :
    (k i j : SignalKey) → same_key k i ≡ false → same_key j i ≡ true → same_key j k ≡ false
same_key-apart k i j apart same = elim (Bool-cases (same_key j k)) [
  | inl e ↦ absurd (contrary apart (ap (λ x. same_key x i) (sym (same_key-eq j k e)) ∙ same))
  | inr e ↦ e
]
  where
    contrary : {b : Bool} → b ≡ false → b ≡ true → ⊥
    contrary f t = cc

module _ {A : Type 0} where
  pub lookup-remove :
      (k j : SignalKey) (m : List (SignalKey × A))
      → lookup j (remove k m) ≡ (if same_key j k then none else lookup j m)
  unfolding lookup remove
  lookup-remove k j [] = elim (Bool-cases (same_key j k)) [ inl e ↦ rw e refl | inr e ↦ rw e refl ]
  lookup-remove k j ((i, a) ∷ m) = elim (Bool-cases (same_key k i)) [
    | inl e ↦ elim (Bool-cases (same_key j k)) [
      | inl f ↦ rw (e, f) (lookup-remove k j m ∙ rw f refl)
      | inr f ↦
          rw (e, f, ap (λ x. same_key j x) (sym (same_key-eq k i e)) ∙ f)
            (lookup-remove k j m ∙ rw f refl)
    ]
    | inr e ↦ elim (Bool-cases (same_key j i)) [
      | inl f ↦ rw (e, f, same_key-apart k i j e f) refl
      | inr f ↦ rw (e, f) (lookup-remove k j m)
    ]
  ]

  pub lookup-put :
      (k j : SignalKey) (a : A) (m : List (SignalKey × A))
      → lookup j (put k a m) ≡ (if same_key j k then some a else lookup j m)
  unfolding lookup put
  lookup-put k j a m = elim (Bool-cases (same_key j k)) [
    | inl e ↦ rw e refl
    | inr e ↦ rw e (lookup-remove k j m ∙ rw e refl)
  ]

  pub All-remove :
      (P : SignalKey × A → Type 0) (k : SignalKey) (m : List (SignalKey × A))
      → All P m
      → All P (remove k m)
  unfolding remove
  All-remove P k [] h = tt
  All-remove P k ((j, a) ∷ m) h = elim (Bool-cases (same_key k j)) [
    | inl e ↦ rw e (All-remove P k m h.1)
    | inr e ↦ rw e (h.0, All-remove P k m h.1)
  ]

  pub All-lookup :
      (P : SignalKey × A → Type 0) (k : SignalKey) (m : List (SignalKey × A)) (a : A)
      → All P m
      → lookup k m ≡ some a
      → P (k, a)
  unfolding lookup
  All-lookup P k [] a h e = cc
  All-lookup P k ((j, b) ∷ m) a h e = elim (Bool-cases (same_key k j)) [
    | inl f ↦
        subst (λ x. P (x, a)) (sym (same_key-eq k j f))
          (subst (λ x. P (j, x)) (inject (rw f at e)) h.0)
    | inr f ↦ All-lookup P k m a h.1 (rw f at e)
  ]
    where
      inject : {x y : A} → some x ≡ some y → x ≡ y
      inject g = cc

  -- What is found after a key was put or removed.
  pub lookup-put_cases :
      (k j : SignalKey) (a b : A) (m : List (SignalKey × A))
      → lookup j (put k a m) ≡ some b
      → ((j ≡ k) × (a ≡ b)) ⊎ ((same_key j k ≡ false) × (lookup j m ≡ some b))
  lookup-put_cases k j a b m h = elim (Bool-cases (same_key j k)) [
    | inl e ↦ inl (same_key-eq j k e, injected (sym (lookup-put k j a m ∙ rw e refl) ∙ h))
    | inr e ↦ inr (e, sym (lookup-put k j a m ∙ rw e refl) ∙ h)
  ]
    where
      injected : {x y : A} → some x ≡ some y → x ≡ y
      injected g = cc

  pub lookup-remove_cases :
      (k j : SignalKey) (b : A) (m : List (SignalKey × A))
      → lookup j (remove k m) ≡ some b
      → (same_key j k ≡ false) × (lookup j m ≡ some b)
  lookup-remove_cases k j b m h = elim (Bool-cases (same_key j k)) [
    | inl e ↦ absurd (nothing (sym (lookup-remove k j m ∙ rw e refl) ∙ h))
    | inr e ↦ (e, sym (lookup-remove k j m ∙ rw e refl) ∙ h)
  ]
    where
      nothing : {x : A} → none ≡ some x → ⊥
      nothing g = cc
