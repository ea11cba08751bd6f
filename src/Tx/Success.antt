-- ===== src/Tx/Success.antt =====
-- Reading a successful transaction from its first statement on: each lemma takes the first part off
-- a chain that succeeded, and hands what it did to the rest of the proof.
use october_bus.Base.{
  ℕ, Bool, true, false, Option, none, some, List, [], ◌∷◌, ◌≡◌, refl, sym, subst, All,
}
use october_bus.Protocol.{ErrorCode}
use october_bus.World.{World, MessageRow, TaskRow}
use october_bus.Rows.{count, update}
use october_bus.Tx.{
  ok, err, Tx, ◌>>=◌, pure, gets, or_fail, ensure, for_each, update_messages, update_tasks,
}
use october_bus.Tx.Keeps.{>>=-eq-ok}

module _ {A : Type 0} {B : Type 0} {w w' : World} {b : B} where
  pub through :
      {C : Type 0} (m : Tx A) (f : A → Tx B)
      → (m >>= f) w ≡ ok b w'
      → ((a : A) (v : World) → m w ≡ ok a v → f a v ≡ ok b w' → C)
      → C
  through m f h k = let (a, v, e, g) = >>=-eq-ok m f w h in k a v e g

  pub through_gets :
      (g : World → A) (f : A → Tx B) → (gets g >>= f) w ≡ ok b w' → f (g w) w ≡ ok b w'
  unfolding ◌>>=◌ gets
  through_gets g f h = h

  pub through_pure : (a : A) (f : A → Tx B) → (pure a >>= f) w ≡ ok b w' → f a w ≡ ok b w'
  unfolding ◌>>=◌ pure
  through_pure a f h = h

  pub through_or_fail :
      {C : Type 0} (c : ErrorCode) (f : A → Tx B) (o : Option A)
      → (or_fail o c >>= f) w ≡ ok b w'
      → ((a : A) → o ≡ some a → f a w ≡ ok b w' → C)
      → C
  unfolding ◌>>=◌ or_fail
  through_or_fail c f none h k = absurd (differ h)
    where
      differ : err c ≡ ok b w' → ⊥
      differ e = cc
  through_or_fail c f (some a) h k = k a refl h

module _ {B : Type 0} {w w' : World} {b : B} where
  pub through_ensure :
      {C : Type 0} (c : ErrorCode) (f : Unit {0} → Tx B) (t : Bool)
      → (ensure t c >>= f) w ≡ ok b w'
      → (t ≡ true → f tt w ≡ ok b w' → C)
      → C
  unfolding ◌>>=◌ ensure
  through_ensure c f true h k = k refl h
  through_ensure c f false h k = absurd (differ h)
    where
      differ : err c ≡ ok b w' → ⊥
      differ e = cc

module _ {B : Type 0} {w' : World} {b : B} where
  pub through_update_tasks :
      {C : Type 0} (p : TaskRow → Bool) (g : TaskRow → TaskRow) (f : ℕ → Tx B) (w : World)
      → (update_tasks p g >>= f) w ≡ ok b w'
      → ((v : World) → v.tasks ≡ update p g w.tasks → f (count p w.tasks) v ≡ ok b w' → C)
      → C
  unfolding ◌>>=◌ update_tasks
  through_update_tasks p g f w h k = k _ refl h

  pub through_update_messages :
      {C : Type 0} (p : MessageRow → Bool) (g : MessageRow → MessageRow) (f : ℕ → Tx B) (w : World)
      → (update_messages p g >>= f) w ≡ ok b w'
      → ((v : World) → v.messages ≡ update p g w.messages → f (count p w.messages) v ≡ ok b w' → C)
      → C
  unfolding ◌>>=◌ update_messages
  through_update_messages p g f w h k = k _ refl h

pub pure-ok : {A : Type 0} {a b : A} {w w' : World} → pure a w ≡ ok b w' → (a ≡ b) × (w ≡ w')
unfolding pure
pure-ok h = (cc, cc)

pub or_fail-ok :
    {A : Type 0} {w : World} {a : A} {w' : World} (c : ErrorCode) (o : Option A)
    → or_fail o c w ≡ ok a w'
    → (o ≡ some a) × (w ≡ w')
unfolding or_fail
or_fail-ok c none h = cc
or_fail-ok c (some x) h = (cc, cc)

pub ensure-ok :
    {w : World} {u : Unit {0}} {w' : World} (c : ErrorCode) (b : Bool)
    → ensure b c w ≡ ok u w'
    → (b ≡ true) × (w ≡ w')
unfolding ensure
ensure-ok c true h = (refl, cc)
ensure-ok c false h = cc

-- A loop of checks that change nothing has passed each of them.
module _ {A : Type 0} (body : A → Tx (Unit {0})) (P : World → A → Type 0)
    (check : (a : A) (w : World) (u : Unit {0}) (w' : World)
      → body a w ≡ ok u w'
      → P w a × (w ≡ w')) where
  pub for_each-checks :
      (xs : List A) (w : World) (u : Unit {0}) (w' : World)
      → for_each xs body w ≡ ok u w'
      → All (P w) xs × (w ≡ w')
  unfolding for_each
  for_each-checks [] w u w' h = (tt, (pure-ok h).1)
  for_each-checks (x ∷ xs) w u w' h =
      through (body x) (λ _. for_each xs body) h
        λ u₁ w₁ e₁ h₁.
          let (p, same) = check x w u₁ w₁ e₁ in
          let (ps, g) =
            for_each-checks xs w u w' (subst (λ v. for_each xs body v ≡ ok u w') (sym same) h₁) in
          ((p, ps), g)
