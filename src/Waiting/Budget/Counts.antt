-- ===== src/Waiting/Budget/Counts.antt =====
-- The counts of the budget are the tickets that are not released.
use october_bus.Base.{
  ℕ, zero, suc, ◌+◌, ◌-◌, ◌<◌, Bool, true, false, some, List, [], ◌∷◌, ◌++◌, ◌≡◌, refl, ap, sym,
  ◌∙◌, if◌then◌else◌, ◌==◌, Bool-cases, inl, inr, arith, All,
}
use october_bus.Waiting.{
  SignalKey, lookup, put, same_key, same_key-eq, lookup-remove, lookup-put, All-remove,
}
use october_bus.Waiting.Budget.{
  Ticket, Budget, number, count_of, increment, decrement, ticket, mark_released,
}

abbrev pub bit : Bool → ℕ
bit true = 1
bit false = 0

-- How often an open ticket counts for a key.
abbrev pub weight : SignalKey → Ticket → ℕ
weight k t = if t.released then 0 else (bit (same_key k t.agent) + bit (same_key k t.scope))

unfoldable pub held : SignalKey → List Ticket → ℕ
held k [] = 0
held k (t ∷ ts) = weight k t + held k ts

-- Every count is the number of open tickets, and no count of 0 is kept.
unfoldable pub IsCounted : Budget → Type 0
IsCounted b =
    ((k : SignalKey) → count_of k b.counts ≡ held k b.tickets)
    × All (λ (e : SignalKey × ℕ). 0 < e.1) b.counts

pub count_of-increment :
    (k j : SignalKey) (m : List (SignalKey × ℕ))
    → count_of j (increment k m) ≡ count_of j m + bit (same_key j k)
unfolding count_of increment
count_of-increment k j m =
    ap number (lookup-put k j (number (lookup k m) + 1) m) ∙ elim (Bool-cases (same_key j k)) [
      | inl e ↦ rw e (ap (λ x. number (lookup x m) + 1) (sym (same_key-eq j k e)))
      | inr e ↦ rw e (omega arith)
    ]

pub count_of-decrement :
    (k j : SignalKey) (m : List (SignalKey × ℕ))
    → count_of j (decrement k m) ≡ count_of j m - bit (same_key j k)
unfolding count_of decrement
count_of-decrement k j m = elim (Bool-cases (number (lookup k m) - 1 == 0)) [
  | inl z ↦ rw z (
      ap number (lookup-remove k j m) ∙ elim (Bool-cases (same_key j k)) [
        | inl e ↦ rw (e, same_key-eq j k e) (ground (arith, z))
        | inr e ↦ rw e (omega arith)
      ])
  | inr z ↦ rw z (
      ap number (lookup-put k j (number (lookup k m) - 1) m) ∙ elim (Bool-cases (same_key j k)) [
        | inl e ↦ rw (e, same_key-eq j k e) refl
        | inr e ↦ rw e (omega arith)
      ])
]

pub All-increment :
    (k : SignalKey) (m : List (SignalKey × ℕ))
    → All (λ (e : SignalKey × ℕ). 0 < e.1) m
    → All (λ (e : SignalKey × ℕ). 0 < e.1) (increment k m)
unfolding increment put
All-increment k m h = (omega arith, All-remove _ k m h)

pub All-decrement :
    (k : SignalKey) (m : List (SignalKey × ℕ))
    → All (λ (e : SignalKey × ℕ). 0 < e.1) m
    → All (λ (e : SignalKey × ℕ). 0 < e.1) (decrement k m)
unfolding decrement put
All-decrement k m h = elim (Bool-cases (count_of k m - 1 == 0)) [
  | inl z ↦ rw z (All-remove _ k m h)
  | inr z ↦ rw z (ground (arith, z), All-remove _ k m h)
]

pub held-append :
    (k : SignalKey) (ts : List Ticket) (t : Ticket) → held k (ts ++ t ∷ []) ≡ held k ts + weight k t
unfolding held
held-append k [] t = omega arith
held-append k (x ∷ ts) t = rw (held-append k ts t) (omega arith)

inject : {A : Type 0} {x y : A} → some x ≡ some y → x ≡ y
inject g = cc

pub held-mark_released :
    (k : SignalKey) (n : ℕ) (ts : List Ticket) (t : Ticket)
    → ticket n ts ≡ some t
    → held k ts ≡ weight k t + held k (mark_released n ts)
unfolding held ticket mark_released
held-mark_released k n [] t e = cc
held-mark_released k zero (x ∷ ts) t e = ap (λ y. weight k y + held k ts) (inject e) ∙ omega arith
held-mark_released k (suc n) (x ∷ ts) t e =
    ap (λ y. weight k x + y) (held-mark_released k n ts t e) ∙ omega arith
