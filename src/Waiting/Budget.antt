-- ===== src/Waiting/Budget.antt =====
-- inboxWaitBudget of bus/capacity.go: how many readers of an agent and of a scope wait at once. The
-- function that `acquire` returns is a ticket, which counts down once (sync.Once); the mutex makes
-- every call one step.
pub mod Counts
pub mod Tickets
pub mod Refinement
pub mod Limits
use october_bus.Base.{
  ℕ, zero, suc, ◌+◌, ◌-◌, String, Bool, true, false, not, Option, none, some, List, [], ◌∷◌, ◌++◌,
  ◌||◌, if◌then◌else◌, leb, ◌==◌,
}
use october_bus.Protocol.{Principal}
use october_bus.Waiting.{SignalKey, lookup, remove, put}

-- maxInboxWaitersPerAgent and maxInboxWaitersPerScope
abbrev pub waiters_per_agent : ℕ
waiters_per_agent = 32

abbrev pub waiters_per_scope : ℕ
waiters_per_scope = 128

pub record Ticket : Type 0 where
  pub agent : SignalKey
  pub scope : SignalKey
  pub released : Bool

pub record Budget : Type 0 where
  pub counts : List (SignalKey × ℕ)
  pub tickets : List Ticket

-- A missing key counts 0.
abbrev pub number : Option ℕ → ℕ
number none = 0
number (some n) = n

unfoldable pub count_of : SignalKey → List (SignalKey × ℕ) → ℕ
count_of k m = number (lookup k m)

unfoldable pub increment : SignalKey → List (SignalKey × ℕ) → List (SignalKey × ℕ)
unfolding count_of put
increment k m = put k (count_of k m + 1) m

-- One round of the loop of a release. The count is positive where a ticket is open.
unfoldable pub decrement : SignalKey → List (SignalKey × ℕ) → List (SignalKey × ℕ)
unfolding count_of put remove
decrement k m = let n = count_of k m - 1 in if n == 0 then remove k m else put k n m

unfoldable pub new_ticket : Principal → Ticket
new_ticket p = record {
  agent = record { scope_id = p.scope_id; consumer_id = p.agent_id };
  scope = record { scope_id = p.scope_id; consumer_id = "" };
  released = false;
}

-- What acquire decides from the two counts.
abbrev pub is_full : ℕ → ℕ → Bool
is_full agent scope = leb waiters_per_agent agent || leb waiters_per_scope scope

unfoldable pub acquire : Principal → Budget → Bool × Budget
unfolding new_ticket
acquire p b =
    let t = new_ticket p in
    if is_full (count_of t.agent b.counts) (count_of t.scope b.counts) then (false, b) else (
      true,
      record {
        counts = increment t.scope (increment t.agent b.counts);
        tickets = b.tickets ++ t ∷ [];
      },
    )

unfoldable pub ticket : ℕ → List Ticket → Option Ticket
ticket n [] = none
ticket zero (t ∷ ts) = some t
ticket (suc n) (t ∷ ts) = ticket n ts

unfoldable pub mark_released : ℕ → List Ticket → List Ticket
mark_released n [] = []
mark_released zero (t ∷ ts) = record t { released = true } ∷ ts
mark_released (suc n) (t ∷ ts) = t ∷ mark_released n ts

abbrev pub release_once : Option Ticket → ℕ → Budget → Budget
release_once none n b = b
release_once (some t) n b = if t.released then b else record {
  counts = decrement t.scope (decrement t.agent b.counts);
  tickets = mark_released n b.tickets;
}

-- The function that the n-th successful acquire returned.
unfoldable pub release : ℕ → Budget → Budget
release n b = release_once (ticket n b.tickets) n b

pub data Call : Type 0 where
  acquires : Principal → Call
  releases : ℕ → Call

unfoldable pub call : Call → Budget → Bool × Budget
unfolding acquire release
call (acquires p) b = acquire p b
call (releases n) b = (true, release n b)

-- The answers of a sequence of calls, and the budget after it.
unfoldable pub calls : List Call → Budget → List Bool × Budget
unfolding call
calls [] b = ([], b)
calls (c ∷ cs) b =
    let (answer, b₁) = call c b in let (answers, b₂) = calls cs b₁ in (answer ∷ answers, b₂)

abbrev pub no_waiters : Budget
no_waiters = record { counts = []; tickets = [] }
