-- ===== src/Waiting/Signals/Soundness.antt =====
-- What holds of the signals at every time: a reader that has not left is on a closed channel or on
-- the channel of its key.
use october_bus.Base.{
  ℕ, zero, suc, ◌+◌, ◌<◌, ◌≤◌, Bool, true, false, some, List, [], ◌∷◌, ◌++◌, ◌≡◌, refl, ap,
  if◌then◌else◌, ◌==◌, arith, All, subst,
}
use october_bus.Waiting.{SignalKey, lookup, same_key, same_key_refl}
use october_bus.Waiting.Signals.{Signal, Subscription, Signals, subscription, end_at, is_closed}

-- The readers on a channel that have not left.
unfoldable pub present : ℕ → List Subscription → ℕ
present c [] = 0
present c (x ∷ xs) =
    let rest = present c xs in if x.ended then rest else (if x.channel == c then suc rest else rest)

pub data IsHeard (σ : Signals) (x : Subscription) : Type 0 where
  woken : is_closed x.channel σ.closed ≡ true → IsHeard σ x
  current : (s : Signal) → lookup x.key σ.channels ≡ some s → s.channel ≡ x.channel → IsHeard σ x

pub record IsSound (σ : Signals) : Type 0 where
  pub made : (k : SignalKey) (s : Signal) → lookup k σ.channels ≡ some s → s.channel < σ.next
  pub running :
      (k : SignalKey) (s : Signal)
      → lookup k σ.channels ≡ some s
      → is_closed s.channel σ.closed ≡ false
  pub apart :
      (k j : SignalKey) (s t : Signal)
      → lookup k σ.channels ≡ some s
      → lookup j σ.channels ≡ some t
      → s.channel ≡ t.channel
      → k ≡ j
  pub counted :
      (k : SignalKey) (s : Signal)
      → lookup k σ.channels ≡ some s
      → s.waiters ≡ present s.channel σ.subscriptions
  pub subscribed : All (λ (x : Subscription). x.channel < σ.next) σ.subscriptions
  pub ended_before : All (λ c. c < σ.next) σ.closed
  pub heard : All (λ (x : Subscription). x.ended ≡ false → IsHeard σ x) σ.subscriptions

pub differ : {A : Type 0} (k j : SignalKey) → same_key k j ≡ false → k ≡ j → A
differ k j h e = absurd (contrary h (subst (λ x. same_key k x ≡ true) e (same_key_refl k)))
  where
    contrary : {b : Bool} → b ≡ false → b ≡ true → ⊥
    contrary f t = cc

pub present-append :
    (c : ℕ) (xs : List Subscription) (x : Subscription)
    → present c (xs ++ x ∷ []) ≡ present c xs + present c (x ∷ [])
unfolding present
present-append c [] x = omega arith
present-append c (y ∷ ys) x = ground (arith, present-append c ys x)

pub present-fresh :
    (c n : ℕ) (xs : List Subscription)
    → All (λ (x : Subscription). x.channel < n) xs
    → n ≤ c
    → present c xs ≡ 0
unfolding present
present-fresh c n [] h g = refl
present-fresh c n (x ∷ xs) h g = ground (arith, present-fresh c n xs, h.0)

injected : (a b : Subscription) → some a ≡ some b → a ≡ b
injected a b g = cc

-- A reader that leaves was one of the present ones of its channel, and of no other.
pub present-end_at :
    (c n : ℕ) (xs : List Subscription) (x : Subscription)
    → subscription n xs ≡ some x
    → x.ended ≡ false
    → present c xs
      ≡ (if x.channel == c then suc (present c (end_at n xs)) else present c (end_at n xs))
unfolding present subscription end_at
present-end_at c n [] x e h = cc
present-end_at c zero (y ∷ ys) x e h =
    let ended = ap (λ (z : Subscription). z.ended) (injected y x e) in
    let channel = ap (λ (z : Subscription). z.channel) (injected y x e) in
    ground (arith, ended, channel, h)
present-end_at c (suc n) (y ∷ ys) x e h = ground (arith, present-end_at c n ys x e h)

pub closed-fresh : (n : ℕ) (cs : List ℕ) → All (λ c. c < n) cs → is_closed n cs ≡ false
unfolding is_closed
closed-fresh n [] h = refl
closed-fresh n (c ∷ cs) h = ground (arith, closed-fresh n cs, h.0)
