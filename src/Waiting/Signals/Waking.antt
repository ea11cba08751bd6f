-- ===== src/Waiting/Signals/Waking.antt =====
-- What bus/inbox_wait.go promises the readers, after any history of calls.
use october_bus.Base.{
  ℕ, true, false, some, none, List, [], ◌∷◌, ◌≡◌, refl, ap, sym, ◌∙◌, Option-cases, inl, inr, subst,
}
use october_bus.Waiting.{SignalKey, lookup}
use october_bus.Waiting.Signals.{
  Signal, Subscription, Signals, subscription, is_closed, unsubscribe, subscribe_limited, notify,
  notify_all_scope, Move, move, moves, no_signals,
}
use october_bus.Waiting.Signals.Soundness.{IsHeard, IsSound, present}
use october_bus.Waiting.Signals.Joining.{subscribe_limited-IsSound}
use october_bus.Waiting.Signals.Gone.{subscription-All}
use october_bus.Waiting.Signals.Leaving.{unsubscribe-IsSound}
use october_bus.Waiting.Signals.Notifying.{notify-IsNotified, notify_each-IsNotified}

start-IsSound : IsSound no_signals
unfolding lookup
start-IsSound = record {
  made = λ k s e. cc;
  running = λ k s e. cc;
  apart = λ k j s t e. cc;
  counted = λ k s e. cc;
  subscribed = tt;
  ended_before = tt;
  heard = tt;
}

move-IsSound :
    (x : Move) (σ : Signals) → IsSound σ → (σ' : Signals) × (move x σ ≡ some σ') × IsSound σ'
unfolding move notify_all_scope
move-IsSound (Move.subscribes key limit) σ h =
    ((subscribe_limited key limit σ).1, refl, subscribe_limited-IsSound key limit σ h)
move-IsSound (Move.unsubscribes n) σ h = (unsubscribe n σ, refl, unsubscribe-IsSound n σ h)
move-IsSound (Move.notifies key) σ h =
    (let (σ', e, n, _) = notify-IsNotified key σ h in (σ', e, n.sound))
move-IsSound (Move.notifies_scope scope_id) σ h =
    (let (σ', e, n, _) = notify_each-IsNotified scope_id σ.channels σ h in (σ', e, n.sound))

moves-IsSound :
    (xs : List Move) (σ : Signals)
    → IsSound σ
    → (σ' : Signals) × (moves xs σ ≡ some σ') × IsSound σ'
unfolding moves
moves-IsSound [] σ h = (σ, refl, h)
moves-IsSound (x ∷ xs) σ h =
    (let (σ₁, e₁, h₁) = move-IsSound x σ h in
      let (σ₂, e₂, h₂) = moves-IsSound xs σ₁ h₁ in (σ₂, rw e₁ e₂, h₂))

reached : (xs : List Move) (σ : Signals) → moves xs no_signals ≡ some σ → IsSound σ
reached xs σ h =
    (let (σ', e, sound) = moves-IsSound xs no_signals start-IsSound in
      subst IsSound (injected (sym e ∙ h)) sound)
  where
    injected : {a b : Signals} → some a ≡ some b → a ≡ b
    injected q = cc

-- No history of calls closes a channel twice, so that none panics, and after it every entry of the
-- map has a channel that is not closed and counts exactly the readers of that channel that have not
-- left.
pub moves-counted :
    (xs : List Move)
    → (σ : Signals) × (moves xs no_signals ≡ some σ)
      × ((k : SignalKey) (s : Signal)
          → lookup k σ.channels ≡ some s
          → (is_closed s.channel σ.closed ≡ false)
            × (s.waiters ≡ present s.channel σ.subscriptions))
moves-counted xs =
    (let (σ, e, h) = moves-IsSound xs no_signals start-IsSound in
      (σ, e, λ k s f. (h.running k s f, h.counted k s f)))

awake :
    (σ : Signals) (n : ℕ) (x : Subscription)
    → IsSound σ
    → subscription n σ.subscriptions ≡ some x
    → x.ended ≡ false
    → lookup x.key σ.channels ≡ none
    → is_closed x.channel σ.closed ≡ true
awake σ n x h here stays gone = from (subscription-All _ n σ.subscriptions x here h.heard stays)
  where
    from : IsHeard σ x → is_closed x.channel σ.closed ≡ true
    from (IsHeard.woken e) = e
    from (IsHeard.current s f g) = cc (gone, f)

-- No wake-up is lost: after any history of calls, a notification of a key closes the channel of
-- every reader that subscribed to the key and has not left.
pub notify-wakes :
    (xs : List Move) (σ : Signals) (n : ℕ) (x : Subscription)
    → moves xs no_signals ≡ some σ
    → subscription n σ.subscriptions ≡ some x
    → x.ended ≡ false
    → (σ' : Signals) × (notify x.key σ ≡ some σ') × (is_closed x.channel σ'.closed ≡ true)
notify-wakes xs σ n x history here stays =
    (let h = reached xs σ history in
      let (σ', e, notified, gone) = notify-IsNotified x.key σ h in
      (
        σ',
        e,
        awake σ' n x notified.sound (ap (subscription n) notified.same_readers ∙ here) stays gone,
      ))

-- The same for a whole scope: after any history of calls, a notification of the scope closes the
-- channel of every reader that subscribed to a key of the scope and has not left.
pub notify_all_scope-wakes :
    (xs : List Move) (σ : Signals) (n : ℕ) (x : Subscription)
    → moves xs no_signals ≡ some σ
    → subscription n σ.subscriptions ≡ some x
    → x.ended ≡ false
    → (σ' : Signals) × (notify_all_scope x.key.scope_id σ ≡ some σ')
      × (is_closed x.channel σ'.closed ≡ true)
unfolding notify_all_scope
notify_all_scope-wakes xs σ n x history here stays =
    (let h = reached xs σ history in
      let (σ', e, notified, all) = notify_each-IsNotified x.key.scope_id σ.channels σ h in
      (
        σ',
        e,
        awake σ' n x notified.sound (ap (subscription n) notified.same_readers ∙ here) stays
            (elim (Option-cases (lookup x.key σ.channels)) [
              | inl f ↦ notified.absent x.key f
              | inr (s, f) ↦ all x.key s refl f
            ]),
      ))
