-- ===== src/Waiting/Signals/Joining.antt =====
-- A subscription keeps the signals sound, whether it is granted or refused.
use october_bus.Base.{
  ℕ, ◌+◌, ◌<◌, ◌≤◌, true, false, some, none, List, [], ◌∷◌, ◌++◌, ◌≡◌, refl, ap, sym, ◌∙◌, ◌==◌,
  Bool-cases, Option-cases, inl, inr, ◌⊎◌, arith, All, All-append, Option, subst, leb, ltb, ◌&&◌,
}
use october_bus.Waiting.{
  SignalKey, lookup, put, same_key, same_key-eq, same_key_refl, lookup-put, lookup-put_cases,
}
use october_bus.Waiting.Signals.{
  Signal, Subscription, Signals, current_signal, following, is_closed, subscribe_limited,
}
use october_bus.Waiting.Signals.Soundness.{
  present, IsHeard, IsSound, differ, present-append, present-fresh, closed-fresh,
}

-- The channel that a subscription gets: the one of its key, or a new one.
record IsOffered (σ : Signals) (key : SignalKey) (s : Signal) (n : ℕ) : Type 0 where
  grown : σ.next ≤ n
  made : s.channel < n
  running : is_closed s.channel σ.closed ≡ false
  counted : s.waiters ≡ present s.channel σ.subscriptions
  own : (t : Signal) → lookup key σ.channels ≡ some t → t.channel ≡ s.channel
  alone :
      (j : SignalKey) (t : Signal) → lookup j σ.channels ≡ some t → t.channel ≡ s.channel → j ≡ key

offered :
    (σ : Signals) (key : SignalKey)
    → IsSound σ
    → IsOffered σ key
        (current_signal (lookup key σ.channels) σ.next)
        (following (lookup key σ.channels) σ.next)
unfolding current_signal following
offered σ key h = elim (Option-cases (lookup key σ.channels)) [
  | inl e ↦ rw e (record {
    grown = omega arith;
    made = omega arith;
    running = closed-fresh σ.next σ.closed h.ended_before;
    counted = sym (present-fresh σ.next σ.next σ.subscriptions h.subscribed (omega arith));
    own = λ t f. cc (e, f);
    alone = λ j t f g. absurd (later j t f g);
  })
  | inr (s, e) ↦ rw e (record {
    grown = omega arith;
    made = h.made key s e;
    running = h.running key s e;
    counted = h.counted key s e;
    own = λ t f. ap (λ (x : Signal). x.channel) (injected t s (sym f ∙ e));
    alone = λ j t f g. h.apart j key t s f e g;
  })
]
  where
    injected : (a b : Signal) → some a ≡ some b → a ≡ b
    injected a b g = cc

    later : (j : SignalKey) (t : Signal) → lookup j σ.channels ≡ some t → t.channel ≡ σ.next → ⊥
    later j t f g = let below = h.made j t f in omega (arith, below, g)

module _ (σ : Signals) (key : SignalKey) (s : Signal) (n : ℕ) (h : IsSound σ)
    (o : IsOffered σ key s n) where
  abbrev joined : Signals
  joined = record σ {
    channels = put key (record s { waiters = s.waiters + 1 }) σ.channels;
    subscriptions =
        σ.subscriptions ++ record { key = key; channel = s.channel; ended = false } ∷ [];
    next = n;
  }

  still_heard : (x : Subscription) → IsHeard σ x → IsHeard joined x
  still_heard x (IsHeard.woken e) = IsHeard.woken e
  still_heard x (IsHeard.current t f g) = elim (Bool-cases (same_key x.key key)) [
    | inl e ↦
        IsHeard.current (record s { waiters = s.waiters + 1 })
          (lookup-put key x.key (record s { waiters = s.waiters + 1 }) σ.channels ∙ rw e refl)
          (sym (o.own t (ap (λ k. lookup k σ.channels) (sym (same_key-eq x.key key e)) ∙ f)) ∙ g)
    | inr e ↦
        IsHeard.current t
          (lookup-put key x.key (record s { waiters = s.waiters + 1 }) σ.channels ∙ rw e f) g
  ]

  all_heard :
      (xs : List Subscription)
      → All (λ (x : Subscription). x.ended ≡ false → IsHeard σ x) xs
      → All (λ (x : Subscription). x.ended ≡ false → IsHeard joined x) xs
  all_heard [] g = tt
  all_heard (x ∷ xs) g = (λ e. still_heard x (g.0 e), all_heard xs g.1)

  abbrev Entry : SignalKey → Signal → Type 0
  Entry j t =
      ((j ≡ key) × (record s { waiters = s.waiters + 1 } ≡ t))
      ⊎ ((same_key j key ≡ false) × (lookup j σ.channels ≡ some t))

  entry : (j : SignalKey) (t : Signal) → lookup j joined.channels ≡ some t → Entry j t
  entry j t f = lookup-put_cases key j (record s { waiters = s.waiters + 1 }) t σ.channels f

  channel_of : (t : Signal) → record s { waiters = s.waiters + 1 } ≡ t → s.channel ≡ t.channel
  channel_of t e = ap (λ (x : Signal). x.channel) e

  entry-made : (j : SignalKey) (t : Signal) → Entry j t → t.channel < n
  entry-made j t (inl (e, f)) = subst (λ c. c < n) (channel_of t f) o.made
  entry-made j t (inr (e, f)) =
      let below = h.made j t f in let grown = o.grown in omega (arith, below, grown)

  entry-running : (j : SignalKey) (t : Signal) → Entry j t → is_closed t.channel σ.closed ≡ false
  entry-running j t (inl (e, f)) =
      subst (λ c. is_closed c σ.closed ≡ false) (channel_of t f) o.running
  entry-running j t (inr (e, f)) = h.running j t f

  entry-apart :
      (j k : SignalKey) (t u : Signal) → Entry j t → Entry k u → t.channel ≡ u.channel → j ≡ k
  entry-apart j k t u (inl (e, f)) (inl (e', f')) g = e ∙ sym e'
  entry-apart j k t u (inl (e, f)) (inr (e', f')) g =
      e ∙ sym (o.alone k u f' (sym g ∙ sym (channel_of t f)))
  entry-apart j k t u (inr (e, f)) (inl (e', f')) g =
      o.alone j t f (g ∙ sym (channel_of u f')) ∙ sym e'
  entry-apart j k t u (inr (e, f)) (inr (e', f')) g = h.apart j k t u f f' g

  entry-counted :
      (j : SignalKey) (t : Signal) → Entry j t → t.waiters ≡ present t.channel joined.subscriptions
  unfolding present
  entry-counted j t (inl (e, f)) =
      subst (λ (x : Signal). x.waiters ≡ present x.channel joined.subscriptions) f
        (sym (
          present-append s.channel σ.subscriptions
            (record { key = key; channel = s.channel; ended = false })
          ∙ ground (arith, o.counted)))
  entry-counted j t (inr (e, f)) = elim (Bool-cases (s.channel == t.channel)) [
    | inl g ↦ differ j key e (o.alone j t f (ground (arith, g)))
    | inr g ↦
        h.counted j t f
        ∙ sym (
            present-append t.channel σ.subscriptions
              (record { key = key; channel = s.channel; ended = false })
            ∙ rw g (omega arith))
  ]

  joined-IsSound : IsSound joined
  joined-IsSound = record {
    made = λ j t f. entry-made j t (entry j t f);
    running = λ j t f. entry-running j t (entry j t f);
    apart = λ j k t u f g. entry-apart j k t u (entry j t f) (entry k u g);
    counted = λ j t f. entry-counted j t (entry j t f);
    subscribed = All-append _ σ.subscriptions _ (raised σ.subscriptions h.subscribed) (o.made, tt);
    ended_before = raised_closed σ.closed h.ended_before;
    heard = All-append _ σ.subscriptions _ (all_heard σ.subscriptions h.heard) (
      λ e.
          IsHeard.current (record s { waiters = s.waiters + 1 })
            (lookup-put key key (record s { waiters = s.waiters + 1 }) σ.channels
              ∙ rw (same_key_refl key) refl)
            refl,
      tt,
    );
  }
    where
      raised :
          (xs : List Subscription)
          → All (λ (x : Subscription). x.channel < σ.next) xs
          → All (λ (x : Subscription). x.channel < n) xs
      raised [] g = tt
      raised (x ∷ xs) g =
          (let grown = o.grown in let below = g.0 in omega (arith, below, grown), raised xs g.1)

      raised_closed : (xs : List ℕ) → All (λ c. c < σ.next) xs → All (λ c. c < n) xs
      raised_closed [] g = tt
      raised_closed (x ∷ xs) g = (
        let grown = o.grown in let below = g.0 in omega (arith, below, grown),
        raised_closed xs g.1,
      )

-- A refusal leaves the map as it was: a new signal has no waiters, and no limit is 0.
refused-lookup :
    (σ : Signals) (key j : SignalKey) (found : Option Signal)
    → lookup key σ.channels ≡ found
    → ((current_signal found σ.next).waiters == 0) ≡ false
    → (lookup j (put key (current_signal found σ.next) σ.channels) ≡ lookup j σ.channels)
      × (following found σ.next ≡ σ.next)
unfolding current_signal following
refused-lookup σ key j none e h = cc
refused-lookup σ key j (some s) e h = (
  lookup-put key j s σ.channels ∙ elim (Bool-cases (same_key j key)) [
    | inl g ↦ rw g (sym e ∙ ap (λ k. lookup k σ.channels) (sym (same_key-eq j key g)))
    | inr g ↦ rw g refl
  ],
  refl,
)

-- The same map by its lookups, in another order.
reordered-IsSound :
    (σ : Signals) (m : List (SignalKey × Signal)) (n : ℕ)
    → ((j : SignalKey) → lookup j m ≡ lookup j σ.channels)
    → n ≡ σ.next
    → IsSound σ
    → IsSound (record σ { channels = m; next = n })
reordered-IsSound σ m n same next h = record {
  made = λ j t f. subst (λ x. t.channel < x) (sym next) (h.made j t (sym (same j) ∙ f));
  running = λ j t f. h.running j t (sym (same j) ∙ f);
  apart = λ j k t u f g. h.apart j k t u (sym (same j) ∙ f) (sym (same k) ∙ g);
  counted = λ j t f. h.counted j t (sym (same j) ∙ f);
  subscribed =
      subst (λ x. All (λ (y : Subscription). y.channel < x) σ.subscriptions) (sym next)
        h.subscribed;
  ended_before = subst (λ x. All (λ c. c < x) σ.closed) (sym next) h.ended_before;
  heard = heard σ.subscriptions h.heard;
}
  where
    hears : (x : Subscription) → IsHeard σ x → IsHeard (record σ { channels = m; next = n }) x
    hears x (IsHeard.woken e) = IsHeard.woken e
    hears x (IsHeard.current t f g) = IsHeard.current t (same x.key ∙ f) g

    heard :
        (xs : List Subscription)
        → All (λ (x : Subscription). x.ended ≡ false → IsHeard σ x) xs
        → All
            (λ (x : Subscription).
              x.ended ≡ false → IsHeard (record σ { channels = m; next = n }) x)
            xs
    heard [] g = tt
    heard (x ∷ xs) g = (λ e. hears x (g.0 e), heard xs g.1)

pub subscribe_limited-IsSound :
    (key : SignalKey) (limit : ℕ) (σ : Signals)
    → IsSound σ
    → IsSound (subscribe_limited key limit σ).1
unfolding subscribe_limited
subscribe_limited-IsSound key limit σ h =
    let s = current_signal (lookup key σ.channels) σ.next in
    elim (Bool-cases (ltb 0 limit && leb limit s.waiters)) [
      | inl e ↦
          (let positive : (s.waiters == 0) ≡ false = full limit s.waiters e in
            rw (e, positive)
              (reordered-IsSound σ _ _
                (λ j. (refused-lookup σ key j (lookup key σ.channels) refl positive).0)
                (refused-lookup σ key key (lookup key σ.channels) refl positive).1 h))
      | inr e ↦
          rw e
            (joined-IsSound σ key s (following (lookup key σ.channels) σ.next) h (offered σ key h))
    ]
  where
    full : (l w : ℕ) → (ltb 0 l && leb l w) ≡ true → (w == 0) ≡ false
    full l w e = ground arith
