-- ===== src/Waiting/Signals/Gone.antt =====
-- The signals after a reader left, and what makes them sound again.
use october_bus.Base.{
  ℕ, zero, suc, ◌<◌, true, false, some, List, [], ◌∷◌, ◌≡◌, refl, sym, ◌∙◌, ◌==◌, arith, All, subst,
}
use october_bus.Waiting.{SignalKey, lookup}
use october_bus.Waiting.Signals.{Signal, Subscription, Signals, subscription, end_at, is_closed}
use october_bus.Waiting.Signals.Soundness.{present, IsHeard, IsSound, present-end_at}

All-end_at :
    (P : Subscription → Type 0) (n : ℕ) (xs : List Subscription)
    → ((x : Subscription) → P x → P (record x { ended = true }))
    → All P xs
    → All P (end_at n xs)
unfolding end_at
All-end_at P n [] keep h = tt
All-end_at P zero (x ∷ xs) keep h = (keep x h.0, h.1)
All-end_at P (suc n) (x ∷ xs) keep h = (h.0, All-end_at P n xs keep h.1)

-- A reader is none of the present ones of a channel that has none.
pub absent :
    (c : ℕ) (xs : List Subscription)
    → present c xs ≡ 0
    → All (λ (x : Subscription). x.ended ≡ false → (x.channel == c) ≡ false) xs
unfolding present
absent c [] h = tt
absent c (x ∷ xs) h = (λ e. ground (arith, e, h), absent c xs (ground (arith, h)))

pub subscription-All :
    (P : Subscription → Type 0) (n : ℕ) (xs : List Subscription) (x : Subscription)
    → subscription n xs ≡ some x
    → All P xs
    → P x
unfolding subscription
subscription-All P n [] x e h = cc
subscription-All P zero (y ∷ ys) x e h = subst P (injected e) h.0
  where
    injected : {a b : Subscription} → some a ≡ some b → a ≡ b
    injected g = cc
subscription-All P (suc n) (y ∷ ys) x e h = subscription-All P n ys x e h.1

-- The map `m` after a reader of the channel `c` left: its entries stood there before, with the
-- readers that are left.
module _ (σ : Signals) (h : IsSound σ) (n : ℕ) (x : Subscription)
    (here : subscription n σ.subscriptions ≡ some x) (stays : x.ended ≡ false)
    (m : List (SignalKey × Signal)) where
  abbrev pub gone : Signals
  gone = record σ { channels = m; subscriptions = end_at n σ.subscriptions }

  abbrev pub Was : SignalKey → Signal → Type 0
  Was j t =
      (s : Signal) × (lookup j σ.channels ≡ some s)
      × (s.channel ≡ t.channel)
      × (t.waiters ≡ present t.channel (end_at n σ.subscriptions))

  pub gone-IsSound :
      ((j : SignalKey) (t : Signal) → lookup j m ≡ some t → Was j t)
      → All (λ (y : Subscription). y.ended ≡ false → IsHeard gone y) (end_at n σ.subscriptions)
      → IsSound gone
  gone-IsSound was heard = record {
    made = λ j t f. (let (s, e, c, w) = was j t f in subst (λ k. k < σ.next) c (h.made j s e));
    running = λ j t f.
        (let (s, e, c, w) = was j t f in
          subst (λ k. is_closed k σ.closed ≡ false) c (h.running j s e));
    apart = λ j k t u f g p.
        (let (s, e, c, w) = was j t f in
          let (s', e', c', w') = was k u g in h.apart j k s s' e e' (c ∙ p ∙ sym c'));
    counted = λ j t f. (let (s, e, c, w) = was j t f in w);
    subscribed = All-end_at _ n σ.subscriptions (λ y p. p) h.subscribed;
    ended_before = h.ended_before;
    heard = heard;
  }

  -- An entry of another channel counts what it counted.
  pub other :
      (j : SignalKey) (t : Signal)
      → lookup j σ.channels ≡ some t
      → (x.channel == t.channel) ≡ false
      → Was j t
  other j t f apart = (
    t,
    f,
    refl,
    h.counted j t f ∙ present-end_at t.channel n σ.subscriptions x here stays ∙ rw apart refl,
  )

  All-both :
      (P Q R : Subscription → Type 0)
      → ((y : Subscription) → P y → Q y → R y)
      → (xs : List Subscription) → All P xs
      → All Q xs
      → All R xs
  All-both P Q R step [] p q = tt
  All-both P Q R step (y ∷ ys) p q = (step y p.0 q.0, All-both P Q R step ys p.1 q.1)

  still : All (λ (y : Subscription). y.ended ≡ false → IsHeard σ y) (end_at n σ.subscriptions)
  still = All-end_at _ n σ.subscriptions (λ y p e. cc e) h.heard

  -- Every reader that is left is heard where the map answers for its key as before.
  pub heard_if :
      (Q : Subscription → Type 0)
      → ((y : Subscription) (t : Signal)
          → Q y
          → y.ended ≡ false
          → lookup y.key σ.channels ≡ some t
          → t.channel ≡ y.channel
          → IsHeard gone y)
      → All Q (end_at n σ.subscriptions)
      → All (λ (y : Subscription). y.ended ≡ false → IsHeard gone y) (end_at n σ.subscriptions)
  heard_if Q step q =
      All-both (λ (y : Subscription). y.ended ≡ false → IsHeard σ y) Q
        (λ (y : Subscription). y.ended ≡ false → IsHeard gone y) (λ y p q e. hears y q e (p e))
        (end_at n σ.subscriptions) still q
    where
      hears : (y : Subscription) → Q y → y.ended ≡ false → IsHeard σ y → IsHeard gone y
      hears y q e (IsHeard.woken f) = IsHeard.woken f
      hears y q e (IsHeard.current t f g) = step y t q e f g

pub trivial : (xs : List Subscription) → All (λ (x : Subscription). Unit {0}) xs
trivial [] = tt
trivial (x ∷ xs) = (tt, trivial xs)
