-- ===== src/Tests/Readers.antt =====
-- The statements on waiting readers, in short histories.
use october_bus.Base.{◌≤◌, String, true, false, some, List, [], ◌∷◌, ◌≡◌, ◌≢◌, refl, All, eq_iff}
use october_bus.Waiting.{SignalKey, same_key, lookup, remove, put}
use october_bus.Waiting.Budget.{
  Ticket, count_of, increment, decrement, new_ticket, acquire, ticket, mark_released, release, Call,
  call, calls, no_waiters,
}
use october_bus.Waiting.Budget.Counts.{held, IsCounted}
use october_bus.Waiting.Budget.Tickets
use october_bus.Waiting.Budget.Refinement.{calls-refines}
use october_bus.Waiting.Budget.Limits.{IsNamed, calls-limits, released-counts}
use october_bus.Waiting.Signals.{
  Signal, Subscription, Signals, current_signal, following, subscribe_limited, subscription,
  is_closed, notify, Move, move, moves, no_signals,
}
use october_bus.Waiting.Signals.Soundness.{present}
use october_bus.Waiting.Signals.Waking.{moves-counted, notify-wakes}
use october_bus.Tests.Scene.{a, b}

-- Both agents wait, and the first one leaves twice.
abbrev waits : List Call
waits = Call.acquires a ∷ Call.acquires b ∷ Call.releases 0 ∷ Call.releases 0 ∷ []

start-IsCounted : IsCounted no_waiters
unfolding IsCounted count_of lookup held
start-IsCounted = (λ k. refl, tt)

calls-refines_example :
    ((calls waits no_waiters).0 ≡ (Tickets.calls waits no_waiters.tickets).0)
    × IsCounted (calls waits no_waiters).1
calls-refines_example = calls-refines waits no_waiters start-IsCounted

abbrev agent_a : String
agent_a = "a"

abbrev agent_b : String
agent_b = "b"

a_named : agent_a ≢ ""
a_named e = absurd (differ ((eq_iff agent_a "").1 e))
  where
    differ : false ≡ true → ⊥
    differ h = cc

b_named : agent_b ≢ ""
b_named e = absurd (differ ((eq_iff agent_b "").1 e))
  where
    differ : false ≡ true → ⊥
    differ h = cc

waits-IsNamed : All IsNamed waits
unfolding IsNamed
waits-IsNamed = (a_named, (b_named, (tt, (tt, tt))))

calls-limits_example :
    ((s x : String)
      → x ≢ ""
      → count_of (record { scope_id = s; consumer_id = x }) (calls waits no_waiters).1.counts ≤ 32)
    × ((s : String)
        → count_of (record { scope_id = s; consumer_id = "" }) (calls waits no_waiters).1.counts
          ≤ 128)
calls-limits_example = calls-limits waits waits-IsNamed

abbrev visit : List Call
visit = Call.acquires a ∷ Call.releases 0 ∷ []

visit_released : All (λ (t : Ticket). t.released ≡ true) (calls visit no_waiters).1.tickets
unfolding calls call acquire release ticket mark_released new_ticket increment decrement count_of
    lookup remove put same_key
visit_released = (refl, tt)

released-counts_example : (calls visit no_waiters).1.counts ≡ []
released-counts_example = released-counts visit visit_released

abbrev inbox : SignalKey
inbox = record { scope_id = "s"; consumer_id = "a" }

-- Two readers of an inbox.
abbrev readers : List Move
readers = Move.subscribes inbox 0 ∷ Move.subscribes inbox 2 ∷ []

abbrev reader : Subscription
reader = record { key = inbox; channel = 0; ended = false }

abbrev waiting : Signals
waiting = record {
  channels = (inbox, record { channel = 0; waiters = 2 }) ∷ [];
  subscriptions = reader ∷ reader ∷ [];
  closed = [];
  next = 1;
}

readers_run : moves readers no_signals ≡ some waiting
unfolding moves move subscribe_limited current_signal following lookup remove put same_key
readers_run = refl

second_reader : subscription 1 waiting.subscriptions ≡ some reader
unfolding subscription
second_reader = refl

notify-wakes_example :
    (σ : Signals) × (notify reader.key waiting ≡ some σ)
    × (is_closed reader.channel σ.closed ≡ true)
notify-wakes_example = notify-wakes readers waiting 1 reader readers_run second_reader refl

moves-counted_example :
    (σ : Signals) × (moves readers no_signals ≡ some σ)
    × ((k : SignalKey) (s : Signal)
        → lookup k σ.channels ≡ some s
        → (is_closed s.channel σ.closed ≡ false) × (s.waiters ≡ present s.channel σ.subscriptions))
moves-counted_example = moves-counted readers
