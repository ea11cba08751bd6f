-- ===== src/Waiting/Signals.antt =====
-- runtimeSignals of bus/inbox_wait.go: a channel for the readers that wait on a key, closed when the
-- key is notified. A signal is known by its channel, which is made with it, as the pointer that the
-- code compares; the channels are numbered in the order in which they are made. The mutex makes
-- every call one step.
pub mod Soundness
pub mod Joining
pub mod Gone
pub mod Leaving
pub mod Notifying
pub mod Waking
use october_bus.Base.{
  ℕ, zero, suc, ◌+◌, ◌-◌, String, Bool, true, false, Option, none, some, List, [], ◌∷◌, ◌++◌, ◌&&◌,
  if◌then◌else◌, ltb, leb, ◌==◌, ◌is◌,
}
use october_bus.Waiting.{SignalKey, lookup, remove, put}

pub record Signal : Type 0 where
  pub channel : ℕ
  pub waiters : ℕ

-- What a reader holds: the channel, and whether its unsubscribe function has run (sync.Once).
pub record Subscription : Type 0 where
  pub key : SignalKey
  pub channel : ℕ
  pub ended : Bool

-- The map, the subscriptions that were made, the closed channels, and the next channel's number.
pub record Signals : Type 0 where
  pub channels : List (SignalKey × Signal)
  pub subscriptions : List Subscription
  pub closed : List ℕ
  pub next : ℕ

-- The signal of the map, or a new one.
unfoldable pub current_signal : Option Signal → ℕ → Signal
current_signal none n = record { channel = n; waiters = 0 }
current_signal (some s) n = s

unfoldable pub following : Option Signal → ℕ → ℕ
following none n = n + 1
following (some s) n = n

-- A limit of 0 is none. A new signal that is refused at once does not stay in the map.
unfoldable pub subscribe_limited : SignalKey → ℕ → Signals → Bool × Signals
subscribe_limited key limit σ =
    let found = lookup key σ.channels in
    let signal = current_signal found σ.next in
    if ltb 0 limit && leb limit signal.waiters
    then (
      false,
      if signal.waiters == 0
          then record σ { channels = remove key σ.channels; next = following found σ.next }
          else record σ { channels = put key signal σ.channels; next = following found σ.next },
    )
    else (
      true,
      record σ {
        channels = put key (record signal { waiters = signal.waiters + 1 }) σ.channels;
        subscriptions =
            σ.subscriptions ++ record { key = key; channel = signal.channel; ended = false } ∷ [];
        next = following found σ.next;
      },
    )

unfoldable pub subscribe : SignalKey → Signals → Signals
subscribe key σ = (subscribe_limited key 0 σ).1

unfoldable pub subscription : ℕ → List Subscription → Option Subscription
subscription n [] = none
subscription zero (x ∷ xs) = some x
subscription (suc n) (x ∷ xs) = subscription n xs

unfoldable pub end_at : ℕ → List Subscription → List Subscription
end_at n [] = []
end_at zero (x ∷ xs) = record x { ended = true } ∷ xs
end_at (suc n) (x ∷ xs) = x ∷ end_at n xs

-- The map once a reader has left: nothing happens where another signal stands at the key.
unfoldable pub leave :
    SignalKey → ℕ → Option Signal → List (SignalKey × Signal) → List (SignalKey × Signal)
leave key channel none m = m
leave key channel (some s) m =
    if s.channel == channel
    then (let n = s.waiters - 1 in
        if n == 0 then remove key m else put key (record s { waiters = n }) m)
    else m

abbrev pub unsubscribe_once : Option Subscription → ℕ → Signals → Signals
unsubscribe_once none n σ = σ
unsubscribe_once (some x) n σ = if x.ended then σ else record σ {
  channels = leave x.key x.channel (lookup x.key σ.channels) σ.channels;
  subscriptions = end_at n σ.subscriptions;
}

-- The function that the n-th subscription returned.
unfoldable pub unsubscribe : ℕ → Signals → Signals
unsubscribe n σ = unsubscribe_once (subscription n σ.subscriptions) n σ

-- close(channel) panics on a closed channel.
unfoldable pub is_closed : ℕ → List ℕ → Bool
is_closed c [] = false
is_closed c (d ∷ ds) = if c == d then true else is_closed c ds

unfoldable pub close : ℕ → Signals → Option Signals
close c σ = if is_closed c σ.closed then none else some (record σ { closed = c ∷ σ.closed })

abbrev pub notify_signal : SignalKey → Option Signal → Signals → Option Signals
notify_signal key none σ = some σ
notify_signal key (some s) σ = close s.channel (record σ { channels = remove key σ.channels })

unfoldable pub notify : SignalKey → Signals → Option Signals
notify key σ = notify_signal key (lookup key σ.channels) σ

abbrev pub continue : Option Signals → (Signals → Option Signals) → Option Signals
continue none f = none
continue (some σ) f = f σ

-- The loop over the map: each key of the scope that still stands in it is notified.
unfoldable pub notify_each : String → List (SignalKey × Signal) → Signals → Option Signals
notify_each scope_id [] σ = some σ
notify_each scope_id ((key, s) ∷ m) σ =
    continue (if key.scope_id is scope_id then notify key σ else some σ)
      (λ σ₁. notify_each scope_id m σ₁)

unfoldable pub notify_all_scope : String → Signals → Option Signals
notify_all_scope scope_id σ = notify_each scope_id σ.channels σ

pub data Move : Type 0 where
  subscribes : SignalKey → ℕ → Move
  unsubscribes : ℕ → Move
  notifies : SignalKey → Move
  notifies_scope : String → Move

unfoldable pub move : Move → Signals → Option Signals
move (subscribes key limit) σ = some (subscribe_limited key limit σ).1
move (unsubscribes n) σ = some (unsubscribe n σ)
move (notifies key) σ = notify key σ
move (notifies_scope scope_id) σ = notify_all_scope scope_id σ

unfoldable pub moves : List Move → Signals → Option Signals
moves [] σ = some σ
moves (x ∷ xs) σ = continue (move x σ) (λ σ₁. moves xs σ₁)

abbrev pub no_signals : Signals
no_signals = record { channels = []; subscriptions = []; closed = []; next = 0 }
