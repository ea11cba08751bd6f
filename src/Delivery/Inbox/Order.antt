-- ===== src/Delivery/Inbox/Order.antt =====
-- The order of an inbox, and rows that follow others in it.
use october_bus.Base.{
  ℕ, ◌≤◌, true, false, List, [], ◌∷◌, ◌≡◌, refl, arith, ap, Bool-cases, inl, inr, All, take, length,
  zero, suc,
}
use october_bus.World.{MessageRow}
use october_bus.Rows.{sort_by, insert_by}
use october_bus.Delivery.Inbox.{older}

-- Each entry is the one before or older.
abbrev pub IsOldestFirst : List MessageRow → Type 0
IsOldestFirst [] = Unit {0}
IsOldestFirst (m ∷ []) = Unit {0}
IsOldestFirst (m ∷ n ∷ ms) = (m.created_at ≤ n.created_at) × IsOldestFirst (n ∷ ms)

older-le : (m n : MessageRow) → older m n ≡ true → m.created_at ≤ n.created_at
older-le m n h = ground arith

older-total : (m n : MessageRow) → older m n ≡ false → n.created_at ≤ m.created_at
older-total m n h = ground arith

insert_by-IsOldestFirst :
    (m : MessageRow) (ms : List MessageRow)
    → IsOldestFirst ms
    → IsOldestFirst (insert_by older m ms)
unfolding insert_by
insert_by-IsOldestFirst m [] h = tt
insert_by-IsOldestFirst m (n ∷ []) h = elim (Bool-cases (older m n)) [
  | inl e ↦ rw e (older-le m n e, tt)
  | inr e ↦ rw e (older-total m n e, tt)
]
insert_by-IsOldestFirst m (n ∷ k ∷ ms) h = elim (Bool-cases (older m n)) [
  | inl e ↦ rw e (older-le m n e, h)
  | inr e ↦ elim (Bool-cases (older m k)) [
    | inl f ↦ rw (e, f) (older-total m n e, (older-le m k f, h.1))
    | inr f ↦ rw (e, f) (h.0, rw f at (insert_by-IsOldestFirst m (k ∷ ms) h.1))
  ]
]

pub sort_by-IsOldestFirst : (ms : List MessageRow) → IsOldestFirst (sort_by older ms)
unfolding sort_by
sort_by-IsOldestFirst [] = tt
sort_by-IsOldestFirst (m ∷ ms) =
    insert_by-IsOldestFirst m (sort_by older ms) (sort_by-IsOldestFirst ms)

pub take-IsOldestFirst :
    (n : ℕ) (ms : List MessageRow) → IsOldestFirst ms → IsOldestFirst (take n ms)
take-IsOldestFirst zero ms h = tt
take-IsOldestFirst (suc n) [] h = tt
take-IsOldestFirst (suc zero) (m ∷ ms) h = tt
take-IsOldestFirst (suc (suc n)) (m ∷ []) h = tt
take-IsOldestFirst (suc (suc n)) (m ∷ k ∷ ms) h = (h.0, take-IsOldestFirst (suc n) (k ∷ ms) h.1)

-- The rows `ns` are `ms`, in other states at most.
abbrev pub Follows : List MessageRow → List MessageRow → Type 0
Follows [] [] = Unit {0}
Follows [] (n ∷ ns) = ⊥
Follows (m ∷ ms) [] = ⊥
Follows (m ∷ ms) (n ∷ ns) = (n ≡ record m { state = n.state }) × Follows ms ns

pub Follows-length : (ms ns : List MessageRow) → Follows ms ns → length ns ≡ length ms
Follows-length [] [] h = refl
Follows-length [] (n ∷ ns) h = absurd h
Follows-length (m ∷ ms) [] h = absurd h
Follows-length (m ∷ ms) (n ∷ ns) h = omega (arith, Follows-length ms ns h.1)

pub Follows-All :
    (P : MessageRow → Type 0)
    → ((m n : MessageRow) → n ≡ record m { state = n.state } → P m → P n)
    → (ms ns : List MessageRow) → Follows ms ns
    → All P ms
    → All P ns
Follows-All P keep [] [] h a = tt
Follows-All P keep [] (n ∷ ns) h a = absurd h
Follows-All P keep (m ∷ ms) [] h a = absurd h
Follows-All P keep (m ∷ ms) (n ∷ ns) h a = (keep m n h.0 a.0, Follows-All P keep ms ns h.1 a.1)

same_age : (m n : MessageRow) → n ≡ record m { state = n.state } → n.created_at ≡ m.created_at
same_age m n e = ap (λ (r : MessageRow). r.created_at) e

pub Follows-IsOldestFirst :
    (ms ns : List MessageRow) → Follows ms ns → IsOldestFirst ms → IsOldestFirst ns
Follows-IsOldestFirst [] [] h o = tt
Follows-IsOldestFirst [] (n ∷ ns) h o = absurd h
Follows-IsOldestFirst (m ∷ ms) [] h o = absurd h
Follows-IsOldestFirst (m ∷ ms) (n ∷ []) h o = tt
Follows-IsOldestFirst (m ∷ []) (n ∷ k ∷ ns) h o = absurd h.1
Follows-IsOldestFirst (m ∷ l ∷ ms) (n ∷ k ∷ ns) h o =
    (rw (same_age m n h.0, same_age l k h.1.0) o.0, Follows-IsOldestFirst (l ∷ ms) (k ∷ ns) h.1 o.1)
