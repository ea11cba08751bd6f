-- ===== src/Waiting/Signals/Notifying.antt =====
-- A notification keeps the signals sound, and closes no channel twice.
use october_bus.Base.{
  Bool, true, false, some, none, List, [], ◌∷◌, ◌≡◌, refl, ap, sym, ◌∙◌, String, ◌==◌, Bool-cases,
  Option-cases, inl, inr, arith, All, ◌is◌, eq_iff,
}
use october_bus.Waiting.{
  SignalKey, lookup, remove, same_key, same_key-eq, same_key_refl, lookup-remove,
  lookup-remove_cases,
}
use october_bus.Waiting.Signals.{
  Signal, Subscription, Signals, is_closed, close, notify, notify_each,
}
use october_bus.Waiting.Signals.Soundness.{IsHeard, IsSound, differ}

module _ (σ : Signals) (h : IsSound σ) (key : SignalKey) (s : Signal)
    (e : lookup key σ.channels ≡ some s) where
  abbrev notified : Signals
  notified = record σ { channels = remove key σ.channels; closed = s.channel ∷ σ.closed }

  notify-eq : notify key σ ≡ some notified
  unfolding notify close
  notify-eq = rw (e, h.running key s e) refl

  apart :
      (j : SignalKey) (t : Signal)
      → lookup j (remove key σ.channels) ≡ some t
      → (t.channel == s.channel) ≡ false
  apart j t f =
      (let (p, g) = lookup-remove_cases key j t σ.channels f in
        elim (Bool-cases (t.channel == s.channel)) [
          | inl q ↦ differ j key p (h.apart j key t s g e (ground (arith, q)))
          | inr q ↦ q
        ])

  hears : (x : Subscription) → IsHeard σ x → IsHeard notified x
  unfolding is_closed
  hears x (IsHeard.woken f) = IsHeard.woken (ground (arith, f))
  hears x (IsHeard.current t f g) = elim (Bool-cases (same_key x.key key)) [
    | inl p ↦
        (let same =
            injected (sym f ∙ ap (λ k. lookup k σ.channels) (same_key-eq x.key key p) ∙ e) in
          let channel = ap (λ (u : Signal). u.channel) same in
          IsHeard.woken (ground (arith, channel, g)))
    | inr p ↦ IsHeard.current t (lookup-remove key x.key σ.channels ∙ rw p f) g
  ]
    where
      injected : {a b : Signal} → some a ≡ some b → a ≡ b
      injected q = cc

  notified-IsSound : IsSound notified
  unfolding is_closed
  notified-IsSound = record {
    made = λ j t f. h.made j t (lookup-remove_cases key j t σ.channels f).1;
    running =
        λ j t f. rw (apart j t f) (h.running j t (lookup-remove_cases key j t σ.channels f).1);
    apart = λ j k t u f g.
        h.apart j k t u (lookup-remove_cases key j t σ.channels f).1
          (lookup-remove_cases key k u σ.channels g).1;
    counted = λ j t f. h.counted j t (lookup-remove_cases key j t σ.channels f).1;
    subscribed = h.subscribed;
    ended_before = (h.made key s e, h.ended_before);
    heard = heard σ.subscriptions h.heard;
  }
    where
      heard :
          (xs : List Subscription)
          → All (λ (x : Subscription). x.ended ≡ false → IsHeard σ x) xs
          → All (λ (x : Subscription). x.ended ≡ false → IsHeard notified x) xs
      heard [] g = tt
      heard (x ∷ xs) g = (λ f. hears x (g.0 f), heard xs g.1)

-- The signals after notifications: sound, with the same readers, and closed what was closed.
pub record IsNotified (σ σ' : Signals) : Type 0 where
  pub sound : IsSound σ'
  pub same_readers : σ'.subscriptions ≡ σ.subscriptions
  pub absent : (k : SignalKey) → lookup k σ.channels ≡ none → lookup k σ'.channels ≡ none

pub notify-IsNotified :
    (key : SignalKey) (σ : Signals)
    → IsSound σ
    → (σ' : Signals) × (notify key σ ≡ some σ') × IsNotified σ σ' × (lookup key σ'.channels ≡ none)
unfolding notify
notify-IsNotified key σ h = elim (Option-cases (lookup key σ.channels)) [
  | inl e ↦ (σ, rw e refl, record { sound = h; same_readers = refl; absent = λ k f. f }, e)
  | inr (s, e) ↦ (
    notified σ h key s e,
    notify-eq σ h key s e,
    record {
      sound = notified-IsSound σ h key s e;
      same_readers = refl;
      absent = λ k f.
          lookup-remove key k σ.channels
          ∙ elim (Bool-cases (same_key k key)) [ inl p ↦ rw p refl | inr p ↦ rw p f ];
    },
    lookup-remove key key σ.channels ∙ rw (same_key_refl key) refl,
  )
]

IsNotified-trans : (σ σ₁ σ₂ : Signals) → IsNotified σ σ₁ → IsNotified σ₁ σ₂ → IsNotified σ σ₂
IsNotified-trans σ σ₁ σ₂ n m = record {
  sound = m.sound;
  same_readers = m.same_readers ∙ n.same_readers;
  absent = λ k f. m.absent k (n.absent k f);
}

pub notify_each-IsNotified :
    (scope_id : String) (m : List (SignalKey × Signal)) (σ : Signals)
    → IsSound σ
    → (σ' : Signals) × (notify_each scope_id m σ ≡ some σ')
      × IsNotified σ σ'
      × ((k : SignalKey) (s : Signal)
          → k.scope_id ≡ scope_id
          → lookup k m ≡ some s
          → lookup k σ'.channels ≡ none)
unfolding notify_each lookup
notify_each-IsNotified scope_id [] σ h =
    (σ, refl, record { sound = h; same_readers = refl; absent = λ k f. f }, λ k s g e. cc)
notify_each-IsNotified scope_id ((key, s) ∷ m) σ h = elim (Bool-cases (key.scope_id is scope_id)) [
  | inl c ↦
      (let (σ₁, e₁, n₁, gone) = notify-IsNotified key σ h in
        let (σ₂, e₂, n₂, all) = notify_each-IsNotified scope_id m σ₁ n₁.sound in
        (
          σ₂,
          rw (c, e₁) e₂,
          IsNotified-trans σ σ₁ σ₂ n₁ n₂,
          λ k t g f. elim (Bool-cases (same_key k key)) [
            | inl p ↦ n₂.absent k (ap (λ x. lookup x σ₁.channels) (same_key-eq k key p) ∙ gone)
            | inr p ↦ all k t g (rw p at f)
          ],
        ))
  | inr c ↦
      (let (σ₂, e₂, n₂, all) = notify_each-IsNotified scope_id m σ h in
        (
          σ₂,
          rw c e₂,
          n₂,
          λ k t g f. elim (Bool-cases (same_key k key)) [
            | inl p ↦
                absurd (
                  other_scope c
                    (sym (ap (λ (x : SignalKey). x.scope_id) (same_key-eq k key p)) ∙ g))
            | inr p ↦ all k t g (rw p at f)
          ],
        ))
]
  where
    other_scope : (key.scope_id is scope_id) ≡ false → key.scope_id ≡ scope_id → ⊥
    other_scope c e = contrary c ((eq_iff key.scope_id scope_id).1 e)
      where
        contrary : {b : Bool} → b ≡ false → b ≡ true → ⊥
        contrary f t = cc
