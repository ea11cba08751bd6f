-- ===== src/Waiting/Budget/Limits.antt =====
-- What the wait budget of bus/capacity.go bounds, and that it keeps nothing for readers that left.
use october_bus.Base.{
  ℕ, ◌+◌, ◌<◌, ◌≤◌, String, true, false, List, [], ◌∷◌, ◌≡◌, ◌≢◌, refl, ap, sym, ◌∙◌, Bool-cases,
  Option-cases, inl, inr, arith, All,
}
use october_bus.Protocol.{Principal}
use october_bus.Waiting.{SignalKey, same_key, same_key-consumer, same_key_refl, same_key-eq, lookup}
use october_bus.Waiting.Budget.{
  Ticket, Budget, count_of, increment, decrement, new_ticket, is_full, acquire, ticket, release,
  Call, call, calls, no_waiters,
}
use october_bus.Waiting.Budget.Counts.{bit, held, IsCounted, count_of-increment, count_of-decrement}
use october_bus.Waiting.Budget.Refinement.{calls-refines}

-- The identifier of an agent is not empty, as validation checks.
unfoldable pub IsNamed : Call → Type 0
IsNamed (Call.acquires p) = p.agent_id ≢ ""
IsNamed (Call.releases n) = Unit

-- The counts of the agents and of the scopes stand within their limits.
unfoldable IsWithin : Budget → Type 0
IsWithin b =
    ((s a : String) → a ≢ "" → count_of (record { scope_id = s; consumer_id = a }) b.counts ≤ 32)
    × ((s : String) → count_of (record { scope_id = s; consumer_id = "" }) b.counts ≤ 128)

not_full : (m n : ℕ) → is_full m n ≡ false → (m < 32) × (n < 128)
not_full m n h = ground arith

-- A count that was below its limit rises by one at most.
module _ (p : Principal) (b : Budget) (named : p.agent_id ≢ "")
    (free : is_full
        (count_of (new_ticket p).agent b.counts)
        (count_of (new_ticket p).scope b.counts)
      ≡ false) where
  raised :
      (k : SignalKey)
      → count_of k (increment (new_ticket p).scope (increment (new_ticket p).agent b.counts))
        ≡ count_of k b.counts
          + bit (same_key k (new_ticket p).agent)
          + bit (same_key k (new_ticket p).scope)
  raised k =
      count_of-increment (new_ticket p).scope k (increment (new_ticket p).agent b.counts)
      ∙ ap (λ x. x + bit (same_key k (new_ticket p).scope))
          (count_of-increment (new_ticket p).agent k b.counts)

  agent_count :
      (k : SignalKey)
      → k.consumer_id ≢ ""
      → count_of k b.counts ≤ 32
      → count_of k (increment (new_ticket p).scope (increment (new_ticket p).agent b.counts)) ≤ 32
  unfolding new_ticket
  agent_count k apart below =
      let other = same_key-consumer k (new_ticket p).scope apart in
      let (few, _) =
        not_full (count_of (new_ticket p).agent b.counts) (count_of (new_ticket p).scope b.counts)
          free in
      elim (Bool-cases (same_key k (new_ticket p).agent)) [
        | inl e ↦
            (let risen = rw (e, other) at (raised k) in
              let same = ap (λ x. count_of x b.counts) (same_key-eq k (new_ticket p).agent e) in
              omega (arith, risen, same, few))
        | inr e ↦ (let risen = rw (e, other) at (raised k) in omega (arith, risen, below))
      ]

  scope_count :
      (k : SignalKey)
      → k.consumer_id ≡ ""
      → count_of k b.counts ≤ 128
      → count_of k (increment (new_ticket p).scope (increment (new_ticket p).agent b.counts)) ≤ 128
  unfolding new_ticket
  scope_count k here below =
      let other = same_key-consumer k (new_ticket p).agent (λ e. named (sym e ∙ here)) in
      let (_, few) =
        not_full (count_of (new_ticket p).agent b.counts) (count_of (new_ticket p).scope b.counts)
          free in
      elim (Bool-cases (same_key k (new_ticket p).scope)) [
        | inl e ↦
            (let risen = rw (e, other) at (raised k) in
              let same = ap (λ x. count_of x b.counts) (same_key-eq k (new_ticket p).scope e) in
              omega (arith, risen, same, few))
        | inr e ↦ (let risen = rw (e, other) at (raised k) in omega (arith, risen, below))
      ]

acquire-IsWithin :
    (p : Principal) (b : Budget) → p.agent_id ≢ "" → IsWithin b → IsWithin (acquire p b).1
unfolding IsWithin acquire
acquire-IsWithin p b named (agents, scopes) =
    elim (Bool-cases
      (is_full (count_of (new_ticket p).agent b.counts) (count_of (new_ticket p).scope b.counts))) [
        | inl e ↦ rw e (agents, scopes)
        | inr e ↦ rw e (
          λ s a apart. agent_count p b named e _ apart (agents s a apart),
          λ s. scope_count p b named e _ refl (scopes s),
        )
      ]

lowered :
    (t : Ticket) (k : SignalKey) (m : List (SignalKey × ℕ))
    → count_of k (decrement t.scope (decrement t.agent m)) ≤ count_of k m
lowered t k m =
    let step = count_of-decrement t.scope k (decrement t.agent m) in
    let step₁ = count_of-decrement t.agent k m in omega (arith, step, step₁)

release-IsWithin : (n : ℕ) (b : Budget) → IsWithin b → IsWithin (release n b)
unfolding IsWithin release
release-IsWithin n b (agents, scopes) = elim (Option-cases (ticket n b.tickets)) [
  | inl e ↦ rw e (agents, scopes)
  | inr (t, e) ↦ elim (Bool-cases t.released) [
    | inl r ↦ rw (e, r) (agents, scopes)
    | inr r ↦
        rw (e, r)
          (
            λ s a apart. below 32 _ (lowered t _ b.counts) (agents s a apart),
            λ s. below 128 _ (lowered t _ b.counts) (scopes s),
          )
  ]
]
  where
    below : (n : ℕ) {m : ℕ} (k : ℕ) → m ≤ k → k ≤ n → m ≤ n
    below n k h g = omega arith

calls-IsWithin :
    (cs : List Call) (b : Budget) → All IsNamed cs → IsWithin b → IsWithin (calls cs b).1
unfolding calls call IsNamed
calls-IsWithin [] b named h = h
calls-IsWithin (Call.acquires p ∷ cs) b named h =
    calls-IsWithin cs (acquire p b).1 named.1 (acquire-IsWithin p b named.0 h)
calls-IsWithin (Call.releases n ∷ cs) b named h =
    calls-IsWithin cs (release n b) named.1 (release-IsWithin n b h)

-- After any calls by agents whose identifier is not empty, at most 32 readers of one agent and at
-- most 128 of one scope are counted.
pub calls-limits :
    (cs : List Call)
    → All IsNamed cs
    → ((s a : String)
        → a ≢ ""
        → count_of (record { scope_id = s; consumer_id = a }) (calls cs no_waiters).1.counts ≤ 32)
      × ((s : String)
          → count_of (record { scope_id = s; consumer_id = "" }) (calls cs no_waiters).1.counts
            ≤ 128)
unfolding IsWithin count_of lookup
calls-limits cs named =
    calls-IsWithin cs no_waiters named (λ s a apart. omega arith, λ s. omega arith)

held-released :
    (k : SignalKey) (ts : List Ticket) → All (λ (t : Ticket). t.released ≡ true) ts → held k ts ≡ 0
unfolding held
held-released k [] h = refl
held-released k (t ∷ ts) h = rw (h.0, held-released k ts h.1) (omega arith)

empty_counts :
    (m : List (SignalKey × ℕ))
    → ((k : SignalKey) → count_of k m ≡ 0)
    → All (λ (e : SignalKey × ℕ). 0 < e.1) m
    → m ≡ []
unfolding count_of lookup
empty_counts [] h positive = refl
empty_counts ((k, n) ∷ m) h positive =
    let zero_count : n ≡ 0 = rw (same_key_refl k) at (h k) in
    let some_count = positive.0 in absurd (omega (arith, zero_count, some_count))

start-IsCounted : IsCounted no_waiters
unfolding IsCounted count_of lookup held
start-IsCounted = (λ k. refl, tt)

-- Once every ticket that any calls handed out is released, the map of counts is empty.
pub released-counts :
    (cs : List Call)
    → All (λ (t : Ticket). t.released ≡ true) (calls cs no_waiters).1.tickets
    → (calls cs no_waiters).1.counts ≡ []
unfolding IsCounted
released-counts cs h =
    let counted = (calls-refines cs no_waiters start-IsCounted).1 in
    empty_counts (calls cs no_waiters).1.counts
      (λ k. counted.0 k ∙ held-released k (calls cs no_waiters).1.tickets h) counted.1
