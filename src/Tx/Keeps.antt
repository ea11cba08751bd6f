-- ===== src/Tx/Keeps.antt =====
-- Rules for what a transaction does to the world when it succeeds, one for each way to build one.
use october_bus.Base.{
  Bool, true, false, Option, none, some, List, [], ◌∷◌, ◌≡◌, refl, subst, All, if◌then◌else◌,
}
use october_bus.Protocol.{ErrorCode}
use october_bus.World.{World}
use october_bus.Tx.{
  Outcome, ok, err, continue, Tx, ◌>>=◌, pure, fail, gets, or_fail, ensure, when, for_each,
}

continue-eq-ok :
    {A : Type 0} {B : Type 0} (o : Outcome A) (f : A → Tx B) {b : B} {w' : World}
    → continue o f ≡ ok b w'
    → (a : A) × (v : World) × (o ≡ ok a v) × (f a v ≡ ok b w')
continue-eq-ok (ok a v) f h = (a, v, refl, h)
continue-eq-ok (err c) f h = cc

-- Inversion of a successful chain.
pub >>=-eq-ok :
    {A : Type 0} {B : Type 0} (m : Tx A) (f : A → Tx B) (w : World) {b : B} {w' : World}
    → (m >>= f) w ≡ ok b w'
    → (a : A) × (v : World) × (m w ≡ ok a v) × (f a v ≡ ok b w')
unfolding ◌>>=◌
>>=-eq-ok m f w h = continue-eq-ok (m w) f h

pub ok_world : {A : Type 0} {a b : A} {w w' : World} → ok a w ≡ ok b w' → w ≡ w'
ok_world h = cc

-- What the values are that `m` returns.
pub record Returns {A : Type 0} (P : A → Type 0) (m : Tx A) : Type 0 where
  pub at : (w : World) (a : A) (w' : World) → m w ≡ ok a w' → P a

ok_value : {A : Type 0} {a b : A} {w w' : World} → ok a w ≡ ok b w' → a ≡ b
ok_value h = cc

module _ {A : Type 0} (P : A → Type 0) where
  pub Returns-pure : (a : A) → P a → Returns P (pure a)
  unfolding pure
  Returns-pure a h = record { at = λ w b w' e. subst P (ok_value e) h }

  pub Returns-gets : (f : World → A) → ((w : World) → P (f w)) → Returns P (gets f)
  unfolding gets
  Returns-gets f h = record { at = λ w b w' e. subst P (ok_value e) (h w) }

  pub Returns-or_fail :
      (o : Option A) (c : ErrorCode) → ((a : A) → o ≡ some a → P a) → Returns P (or_fail o c)
  unfolding or_fail
  Returns-or_fail none c h = record { at = λ w b w' e. cc }
  Returns-or_fail (some a) c h = record { at = λ w b w' e. subst P (ok_value e) (h a refl) }

module _ {A : Type 0} {B : Type 0} (Q : B → Type 0) where
  -- The value of the chain is that of its last part.
  pub Returns-then : (m : Tx A) (f : A → Tx B) → ((a : A) → Returns Q (f a)) → Returns Q (m >>= f)
  Returns-then m f h = record {
    at = λ w b w' e. let (a, v, p, q) = >>=-eq-ok m f w e in (h a).at v b w' q;
  }

  pub Returns-bind :
      (P : A → Type 0) (m : Tx A) (f : A → Tx B)
      → Returns P m
      → ((a : A) → P a → Returns Q (f a))
      → Returns Q (m >>= f)
  Returns-bind P m f r h = record {
    at = λ w b w' e. let (a, v, p, q) = >>=-eq-ok m f w e in (h a (r.at w a v p)).at v b w' q;
  }

-- A preorder on worlds.
pub record Guarantee : Type 1 where
  pub Rel : World → World → Type 0
  pub rel_refl : (w : World) → Rel w w
  pub rel_trans : (u v w : World) → Rel u v → Rel v w → Rel u w

-- A success of `m` goes along the guarantee.
pub record Keeps (G : Guarantee) {A : Type 0} (m : Tx A) : Type 0 where
  pub at : (w : World) (a : A) (w' : World) → m w ≡ ok a w' → G.Rel w w'

module _ (G : Guarantee) where
  pub Keeps-pure : {A : Type 0} (a : A) → Keeps G (pure a)
  unfolding pure
  Keeps-pure a = record { at = λ w b w' h. subst (G.Rel w) (ok_world h) (G.rel_refl w) }

  pub Keeps-fail : {A : Type 0} (c : ErrorCode) → Keeps G (fail {A = A} c)
  unfolding fail
  Keeps-fail c = record { at = λ w b w' h. cc }

  pub Keeps-gets : {A : Type 0} (f : World → A) → Keeps G (gets f)
  unfolding gets
  Keeps-gets f = record { at = λ w b w' h. subst (G.Rel w) (ok_world h) (G.rel_refl w) }

  pub Keeps-or_fail : {A : Type 0} (o : Option A) (c : ErrorCode) → Keeps G (or_fail o c)
  unfolding or_fail
  Keeps-or_fail none c = record { at = λ w b w' h. cc }
  Keeps-or_fail (some a) c = record { at = λ w b w' h. subst (G.Rel w) (ok_world h) (G.rel_refl w) }

  pub Keeps-ensure : (b : Bool) (c : ErrorCode) → Keeps G (ensure b c)
  unfolding ensure
  Keeps-ensure true c = record { at = λ w b w' h. subst (G.Rel w) (ok_world h) (G.rel_refl w) }
  Keeps-ensure false c = record { at = λ w b w' h. cc }

  pub Keeps-bind :
      {A : Type 0} {B : Type 0} (m : Tx A) (f : A → Tx B)
      → Keeps G m
      → ((a : A) → Keeps G (f a))
      → Keeps G (m >>= f)
  Keeps-bind m f km kf = record {
    at = λ w b w' h.
        let (a, v, p, q) = >>=-eq-ok m f w h in
        G.rel_trans w v w' (km.at w a v p) ((kf a).at v b w' q);
  }

  -- The rest of the block may use what `m` returns.
  pub Keeps-bind-Returns :
      {A : Type 0} {B : Type 0} (P : A → Type 0) (m : Tx A) (f : A → Tx B)
      → Keeps G m
      → Returns P m
      → ((a : A) → P a → Keeps G (f a))
      → Keeps G (m >>= f)
  Keeps-bind-Returns P m f km r kf = record {
    at = λ w b w' h.
        let (a, v, p, q) = >>=-eq-ok m f w h in
        G.rel_trans w v w' (km.at w a v p) ((kf a (r.at w a v p)).at v b w' q);
  }

  pub Keeps-if :
      {A : Type 0} (b : Bool) (m n : Tx A)
      → (b ≡ true → Keeps G m)
      → (b ≡ false → Keeps G n)
      → Keeps G (if b then m else n)
  Keeps-if true m n km kn = km refl
  Keeps-if false m n km kn = kn refl

  pub Keeps-when : (b : Bool) (m : Tx (Unit {0})) → (b ≡ true → Keeps G m) → Keeps G (when b m)
  unfolding when
  Keeps-when true m km = km refl
  Keeps-when false m km = Keeps-pure tt

  pub Keeps-for_each :
      {A : Type 0} (xs : List A) (body : A → Tx (Unit {0}))
      → ((a : A) → Keeps G (body a))
      → Keeps G (for_each xs body)
  unfolding for_each
  Keeps-for_each [] body k = Keeps-pure tt
  Keeps-for_each (x ∷ xs) body k = Keeps-bind (body x) _ (k x) (λ _. Keeps-for_each xs body k)

  -- The body may use what holds of each entry.
  pub Keeps-for_each-All :
      {A : Type 0} (P : A → Type 0) (xs : List A) (body : A → Tx (Unit {0}))
      → All P xs
      → ((a : A) → P a → Keeps G (body a))
      → Keeps G (for_each xs body)
  unfolding for_each
  Keeps-for_each-All P [] body h k = Keeps-pure tt
  Keeps-for_each-All P (x ∷ xs) body h k =
      Keeps-bind (body x) _ (k x h.0) (λ _. Keeps-for_each-All P xs body h.1 k)

pub ruleset keeps_rules = (
  Keeps-pure, Keeps-fail, Keeps-gets, Keeps-or_fail, Keeps-ensure, Keeps-bind, Keeps-if, Keeps-when,
  Keeps-for_each,
)
