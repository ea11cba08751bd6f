-- ===== src/Validation/Bounds.antt =====
-- How large what passes the checks of bus/validation.go is.
use october_bus.Base.{
  ℕ, zero, suc, ◌≤◌, String, Bool, true, false, none, some, ◌≡◌, ◌≢◌, ltb, ◌==◌, subst, refl, arith,
  ◌&&◌, ◌||◌, ◌is◌, Bool-cases, inl, inr,
}
use Prim.Native.Char.{code}
use october_bus.Validation.{
  all_of, is_identity_character, is_alphanumeric, matches_identity, validate_identity, byte_count,
  normalized_lease, width,
}

and_parts : (a b : Bool) → (a && b) ≡ true → (a ≡ true) × (b ≡ true)
and_parts true b h = (refl, h)
and_parts false b h = cc

one_byte : (n : ℕ) → is_identity_character n ≡ true → width n ≡ 1
one_byte n h = ground (arith, h)

all_of-bytes : (n : ℕ) (s : String) → all_of is_identity_character n s ≡ true → byte_count s ≤ n
unfolding all_of byte_count
all_of-bytes n String.[] h = omega arith
all_of-bytes zero (String.◌∷◌ c s) h = cc h
all_of-bytes (suc n) (String.◌∷◌ c s) h =
    let (first, rest) = and_parts (is_identity_character (code c)) _ h in
    let single = one_byte (code c) first in
    let few = all_of-bytes n s rest in omega (arith, single, few)

-- An identifier that passes is not empty and has at most 128 bytes.
pub validate_identity-bytes :
    (value : String)
    → validate_identity value false ≡ true
    → (value ≢ "") × (byte_count value ≤ 128)
unfolding validate_identity matches_identity byte_count
validate_identity-bytes String.[] h = cc h
validate_identity-bytes (String.◌∷◌ c s) h =
    let (first, rest) = and_parts (is_alphanumeric (code c)) (all_of is_identity_character 127 s) (
      required (String.◌∷◌ c s is "")
        (is_alphanumeric (code c) && all_of is_identity_character 127 s) h) in
    let single = alphanumeric_byte (code c) first in
    let few = all_of-bytes 127 s rest in (λ e. cc e, omega (arith, single, few))
  where
    alphanumeric_byte : (n : ℕ) → is_alphanumeric n ≡ true → width n ≡ 1
    alphanumeric_byte n e = ground (arith, e)

    required : (a b : Bool) → ((a && false) || b) ≡ true → b ≡ true
    required true true e = refl
    required false true e = refl
    required true false e = cc e
    required false false e = cc e

-- A lease that passes lasts from 30 seconds to a day, and passes again unchanged; 0 gives five
-- minutes.
pub normalized_lease-bounds :
    (value lease : ℕ)
    → normalized_lease value ≡ some lease
    → (30000 ≤ lease) × (lease ≤ 86400000) × (normalized_lease lease ≡ some lease)
unfolding normalized_lease
normalized_lease-bounds value lease h = elim (Bool-cases (value == 0)) [
  | inl e ↦ standard (injected 300000 lease (rw e at h))
  | inr e ↦ elim (Bool-cases (ltb value 30000 || ltb 86400000 value)) [
    | inl f ↦ absurd (nothing (rw (e, f) at h))
    | inr f ↦ given (injected value lease (rw (e, f) at h)) f
  ]
]
  where
    injected : (a b : ℕ) → some a ≡ some b → a ≡ b
    injected a b k = cc

    nothing : none ≡ some lease → ⊥
    nothing k = cc

    standard :
        300000 ≡ lease
        → (30000 ≤ lease) × (lease ≤ 86400000) × (normalized_lease lease ≡ some lease)
    standard k =
        subst (λ n. (30000 ≤ n) × (n ≤ 86400000) × (normalized_lease n ≡ some n)) k
          (omega arith, omega arith, refl)

    given :
        value ≡ lease
        → (ltb value 30000 || ltb 86400000 value) ≡ false
        → (30000 ≤ lease) × (lease ≤ 86400000) × (normalized_lease lease ≡ some lease)
    given k f =
        subst (λ n. (30000 ≤ n) × (n ≤ 86400000) × (normalized_lease n ≡ some n)) k
          (low, high, rw (apart, f) refl)
      where
        low : 30000 ≤ value
        low = ground (arith, f)

        high : value ≤ 86400000
        high = ground (arith, f)

        apart : (value == 0) ≡ false
        apart = ground (arith, f)
