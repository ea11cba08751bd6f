-- ===== src/Credentials/Splitting.antt =====
-- The text of a scoped credential is taken apart into what it was put together from.
use october_bus.Base.{
  String, Bool, true, false, none, some, ◌≡◌, ◌≢◌, refl, ap, ◌∙◌, arith, Bool-cases, inl, inr,
  eq_iff, ◌is◌, ◌==◌, ◌||◌, not, subst,
}
use Prim.Native.Char.{code, Char}
use Prim.Native.String.{◌++◌ as ◌+++◌}
use text.Mathlib.TextLemmas.{nil-append, cons-append}
use text.Mathlib.TextEquality.{Char-path}
use october_bus.Credentials.{contains_dot, before_dot, after_dot, split_scoped_credential}

abbrev dot : Char
dot = "."

dotted_tail : (t : String) → "." +++ t ≡ String.◌∷◌ dot t
dotted_tail t = cons-append dot "" t ∙ ap (String.◌∷◌ dot) (nil-append t)

dotted :
    (s t : String)
    → contains_dot s ≡ false
    → (before_dot (s +++ String.◌∷◌ dot t) ≡ s)
      × (after_dot (s +++ String.◌∷◌ dot t) ≡ t)
      × (contains_dot (s +++ String.◌∷◌ dot t) ≡ true)
unfolding contains_dot before_dot after_dot
dotted String.[] t h = rw (nil-append (String.◌∷◌ dot t)) (refl, refl, refl)
dotted (String.◌∷◌ c s) t h =
    rw (cons-append c s (String.◌∷◌ dot t)) (elim (Bool-cases (code c == 46)) [
      | inl e ↦ absurd (contrary (rw e at h))
      | inr e ↦ (let (x, y, z) = dotted s t (rw e at h) in rw e (ap (String.◌∷◌ c) x, y, z))
    ])
  where
    contrary : true ≡ false → ⊥
    contrary k = cc

-- A credential put together from an identifier and a secret, neither of them empty or with a dot,
-- is taken apart into the two.
pub split_scoped_credential-dotted :
    (credential_id secret : String)
    → contains_dot credential_id ≡ false
    → contains_dot secret ≡ false
    → credential_id ≢ ""
    → secret ≢ ""
    → split_scoped_credential (credential_id +++ ("." +++ secret)) ≡ some (credential_id, secret)
unfolding split_scoped_credential
split_scoped_credential-dotted credential_id secret h k named filled =
    ap (λ x. split_scoped_credential (credential_id +++ x)) (dotted_tail secret)
    ∙ (let (x, y, z) = dotted credential_id secret h in
        rw (x, y, z, k, is_not credential_id named, is_not secret filled) refl)
  where
    is_not : (a : String) → a ≢ "" → (a is "") ≡ false
    is_not a p = ground (arith, eq_iff a "")

put_together : (s : String) → contains_dot s ≡ true → before_dot s +++ ("." +++ after_dot s) ≡ s
unfolding contains_dot before_dot after_dot
put_together String.[] h = cc
put_together (String.◌∷◌ c s) h = elim (Bool-cases (code c == 46)) [
  | inl e ↦ rw e (
      nil-append ("." +++ s)
      ∙ dotted_tail s
      ∙ ap (λ d. String.◌∷◌ d s) (Char-path dot c (ground (arith, e))))
  | inr e ↦ rw e (
      cons-append c (before_dot s) ("." +++ after_dot s)
      ∙ ap (String.◌∷◌ c) (put_together s (rw e at h)))
]

-- The test that a text is no credential.
module _ (value : String) where
  abbrev is_refused : Bool
  is_refused =
      not (contains_dot value)
      || ((before_dot value is "") || ((after_dot value is "") || contains_dot (after_dot value)))

  filled : (s : String) → (s is "") ≡ false → s ≢ ""
  filled s h e = contrary h ((eq_iff s "").1 e)
    where
      contrary : {b : Bool} → b ≡ false → b ≡ true → ⊥
      contrary f t = cc

  taken_apart :
      is_refused ≡ false
      → (before_dot value +++ ("." +++ after_dot value) ≡ value)
        × (before_dot value ≢ "")
        × (after_dot value ≢ "")
        × (contains_dot (after_dot value) ≡ false)
  taken_apart h = (
    put_together value (ground (arith, h)),
    filled (before_dot value) (ground (arith, h)),
    filled (after_dot value) (ground (arith, h)),
    ground (arith, h),
  )

-- What is taken apart is the text put together from its parts, of which neither is empty and the
-- secret has no dot.
pub split_scoped_credential_sound :
    (value credential_id secret : String)
    → split_scoped_credential value ≡ some (credential_id, secret)
    → (credential_id +++ ("." +++ secret) ≡ value)
      × (credential_id ≢ "")
      × (secret ≢ "")
      × (contains_dot secret ≡ false)
unfolding split_scoped_credential
split_scoped_credential_sound value credential_id secret h = elim (Bool-cases (is_refused value)) [
  | inl e ↦ absurd (nothing (rw e at h))
  | inr e ↦
      subst
        (λ (x : String × String).
          (x.0 +++ ("." +++ x.1) ≡ value) × (x.0 ≢ "") × (x.1 ≢ "") × (contains_dot x.1 ≡ false))
        (injected (rw e at h)) (taken_apart value e)
]
  where
    nothing : {x : String × String} → none ≡ some x → ⊥
    nothing g = cc

    injected : {x y : String × String} → some x ≡ some y → x ≡ y
    injected g = cc
