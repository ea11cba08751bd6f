-- ===== src/Waiting/Signals/Leaving.antt =====
-- A reader that leaves keeps the signals sound: the channel of a key stays while others wait on it.
use october_bus.Base.{
  ℕ, suc, ◌-◌, Bool, true, false, some, ◌≡◌, refl, ap, sym, ◌∙◌, ◌==◌, Bool-cases, Option-cases,
  inl, inr, arith, subst,
}
use october_bus.Waiting.{
  SignalKey, lookup, remove, put, same_key, same_key-eq, lookup-put, lookup-remove,
  lookup-put_cases, lookup-remove_cases,
}
use october_bus.Waiting.Signals.{
  Signal, Subscription, Signals, subscription, end_at, leave, is_closed, unsubscribe,
}
use october_bus.Waiting.Signals.Soundness.{present, IsHeard, IsSound, differ, present-end_at}
use october_bus.Waiting.Signals.Gone.{
  gone, Was, gone-IsSound, other, heard_if, trivial, absent, subscription-All,
}

module _ (σ : Signals) (h : IsSound σ) (n : ℕ) (x : Subscription)
    (here : subscription n σ.subscriptions ≡ some x) (stays : x.ended ≡ false) where
  unequal : (a b : ℕ) → (a ≡ b → ⊥) → (a == b) ≡ false
  unequal a b apart = elim (Bool-cases (a == b)) [
    | inl e ↦ absurd (apart (ground (arith, e)))
    | inr e ↦ e
  ]

  -- The channel is closed, so that no entry has it.
  woken_leaves :
      is_closed x.channel σ.closed ≡ true
      → IsSound
          (gone σ h n x here stays (leave x.key x.channel (lookup x.key σ.channels) σ.channels))
  unfolding leave
  woken_leaves closed = elim (Option-cases (lookup x.key σ.channels)) [
    | inl e ↦ rw e unchanged
    | inr (s, e) ↦ rw (e, unequal s.channel x.channel (apart x.key s e)) unchanged
  ]
    where
      apart :
          (j : SignalKey) (t : Signal) → lookup j σ.channels ≡ some t → t.channel ≡ x.channel → ⊥
      apart j t f g = contrary (sym (ap (λ c. is_closed c σ.closed) g) ∙ h.running j t f) closed
        where
          contrary : {b : Bool} → b ≡ false → b ≡ true → ⊥
          contrary f t = cc

      unchanged : IsSound (gone σ h n x here stays σ.channels)
      unchanged =
          gone-IsSound σ h n x here stays σ.channels
            (λ j t f.
              other σ h n x here stays σ.channels j t f
                (unequal x.channel t.channel (λ g. apart j t f (sym g))))
            (heard_if σ h n x here stays σ.channels (λ y. Unit {0})
              (λ y t q e f g. IsHeard.current t f g) (trivial _))

  -- The channel is the one of the key.
  module _ (s : Signal) (e : lookup x.key σ.channels ≡ some s) (c : s.channel ≡ x.channel) where
    others :
        (j : SignalKey) (t : Signal)
        → lookup j σ.channels ≡ some t
        → same_key j x.key ≡ false
        → (x.channel == t.channel) ≡ false
    others j t f apart =
        unequal x.channel t.channel
          (λ g. differ j x.key apart (h.apart j x.key t s f e (sym g ∙ sym c)))

    left_behind : s.waiters ≡ suc (present x.channel (end_at n σ.subscriptions))
    left_behind =
        h.counted x.key s e
        ∙ ap (λ k. present k σ.subscriptions) c
        ∙ present-end_at x.channel n σ.subscriptions x here stays
        ∙ ground arith

    -- A reader on the channel of the same key is on the same channel.
    own_channel :
        (y : Subscription) (t : Signal)
        → lookup y.key σ.channels ≡ some t
        → t.channel ≡ y.channel
        → same_key y.key x.key ≡ true
        → y.channel ≡ x.channel
    own_channel y t f g p =
        sym g
        ∙ ap (λ (u : Signal). u.channel)
            (injected t s (sym f ∙ ap (λ k. lookup k σ.channels) (same_key-eq y.key x.key p) ∙ e))
        ∙ c
      where
        injected : (a b : Signal) → some a ≡ some b → a ≡ b
        injected a b q = cc

    distinct : (a b : ℕ) → (a == b) ≡ false → a ≡ b → ⊥
    distinct a b p q = ground (arith, p, q)

    last_leaves :
        (s.waiters - 1 == 0) ≡ true → IsSound (gone σ h n x here stays (remove x.key σ.channels))
    last_leaves z =
        gone-IsSound σ h n x here stays (remove x.key σ.channels)
          (λ j t f.
            (let (apart, g) = lookup-remove_cases x.key j t σ.channels f in
              other σ h n x here stays (remove x.key σ.channels) j t g (others j t g apart)))
          (heard_if σ h n x here stays (remove x.key σ.channels)
            (λ (y : Subscription). y.ended ≡ false → (y.channel == x.channel) ≡ false)
            (λ y t q stayed f g.
              IsHeard.current t
                (lookup-remove x.key y.key σ.channels ∙ rw (elsewhere y t f g (q stayed)) f) g)
            (absent x.channel (end_at n σ.subscriptions) nobody))
      where
        nobody : present x.channel (end_at n σ.subscriptions) ≡ 0
        nobody = let count = left_behind in ground (arith, z, count)

        elsewhere :
            (y : Subscription) (t : Signal)
            → lookup y.key σ.channels ≡ some t
            → t.channel ≡ y.channel
            → (y.channel == x.channel) ≡ false
            → same_key y.key x.key ≡ false
        elsewhere y t f g apart = elim (Bool-cases (same_key y.key x.key)) [
          | inl p ↦ absurd (distinct _ _ apart (own_channel y t f g p))
          | inr p ↦ p
        ]

    abbrev fewer : Signal
    fewer = record s { waiters = s.waiters - 1 }

    fewer-Was :
        (j : SignalKey) (t : Signal)
        → lookup j (put x.key fewer σ.channels) ≡ some t
        → Was σ h n x here stays (put x.key fewer σ.channels) j t
    fewer-Was j t f = elim (lookup-put_cases x.key j fewer t σ.channels f) [
      | inl (p, q) ↦ (
        s,
        ap (λ k. lookup k σ.channels) p ∙ e,
        ap (λ (u : Signal). u.channel) q,
        subst (λ (u : Signal). u.waiters ≡ present u.channel (end_at n σ.subscriptions)) q
            (ap (λ k. k - 1) left_behind
              ∙ omega arith
              ∙ ap (λ k. present k (end_at n σ.subscriptions)) (sym c)),
      )
      | inr (p, q) ↦ other σ h n x here stays (put x.key fewer σ.channels) j t q (others j t q p)
    ]

    one_leaves : IsSound (gone σ h n x here stays (put x.key fewer σ.channels))
    one_leaves =
        gone-IsSound σ h n x here stays (put x.key fewer σ.channels) fewer-Was (
          heard_if σ h n x here stays (put x.key fewer σ.channels) (λ y. Unit {0}) hears
            (trivial _))
      where
        hears :
            (y : Subscription) (t : Signal)
            → Unit {0}
            → y.ended ≡ false
            → lookup y.key σ.channels ≡ some t
            → t.channel ≡ y.channel
            → IsHeard (gone σ h n x here stays (put x.key fewer σ.channels)) y
        hears y t q stayed f g = elim (Bool-cases (same_key y.key x.key)) [
          | inl p ↦
              IsHeard.current fewer (lookup-put x.key y.key fewer σ.channels ∙ rw p refl)
                (c ∙ sym (own_channel y t f g p))
          | inr p ↦ IsHeard.current t (lookup-put x.key y.key fewer σ.channels ∙ rw p f) g
        ]

    current_leaves :
        IsSound
          (gone σ h n x here stays (leave x.key x.channel (lookup x.key σ.channels) σ.channels))
    unfolding leave
    current_leaves =
        rw (e, equal s.channel x.channel c)
          (elim (Bool-cases (s.waiters - 1 == 0)) [
            | inl z ↦ rw z (last_leaves z)
            | inr z ↦ rw z one_leaves
          ])
      where
        equal : (a b : ℕ) → a ≡ b → (a == b) ≡ true
        equal a b q = ground (arith, q)

pub unsubscribe-IsSound : (n : ℕ) (σ : Signals) → IsSound σ → IsSound (unsubscribe n σ)
unfolding unsubscribe
unsubscribe-IsSound n σ h = elim (Option-cases (subscription n σ.subscriptions)) [
  | inl e ↦ rw e h
  | inr (x, e) ↦ elim (Bool-cases x.ended) [
    | inl f ↦ rw (e, f) h
    | inr f ↦ rw (e, f) (leaves x e f (subscription-All _ n σ.subscriptions x e h.heard f))
  ]
]
  where
    leaves :
        (x : Subscription) (e : subscription n σ.subscriptions ≡ some x) (f : x.ended ≡ false)
        → IsHeard σ x
        → IsSound (gone σ h n x e f (leave x.key x.channel (lookup x.key σ.channels) σ.channels))
    leaves x e f (IsHeard.woken closed) = woken_leaves σ h n x e f closed
    leaves x e f (IsHeard.current s g c) = current_leaves σ h n x e f s g c
