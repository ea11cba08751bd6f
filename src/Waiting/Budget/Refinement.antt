-- ===== src/Waiting/Budget/Refinement.antt =====
-- The budget against its specification, in which nothing but the tickets is kept, and the limits.
use october_bus.Base.{
  ℕ, ◌+◌, ◌-◌, Bool, false, some, List, [], ◌∷◌, ◌++◌, ◌≡◌, refl, ap, ◌∙◌, Bool-cases, Option-cases,
  inl, inr, arith,
}
use october_bus.Protocol.{Principal}
use october_bus.Waiting.{same_key}
use october_bus.Waiting.Budget.Tickets
use october_bus.Waiting.Budget.{
  Ticket, Budget, increment, decrement, new_ticket, is_full, acquire, ticket, mark_released,
  release, Call, call, calls,
}
use october_bus.Waiting.Budget.Counts.{
  bit, held, IsCounted, count_of-increment, count_of-decrement, All-increment, All-decrement,
  held-append, held-mark_released,
}

-- A budget that agrees with the tickets of the specification.
Implements : Bool × Budget → Bool × List Ticket → Type 0
Implements x y = (x.0 ≡ y.0) × (x.1.tickets ≡ y.1) × IsCounted x.1

acquired-IsCounted :
    (t : Ticket) (b : Budget)
    → t.released ≡ false
    → IsCounted b
    → IsCounted (record {
      counts = increment t.scope (increment t.agent b.counts);
      tickets = b.tickets ++ t ∷ [];
    })
unfolding IsCounted
acquired-IsCounted t b unreleased (count, positive) = (
  λ k.
      let grown : held k (b.tickets ++ t ∷ [])
          ≡ held k b.tickets + (bit (same_key k t.agent) + bit (same_key k t.scope)) =
        held-append k b.tickets t ∙ rw unreleased refl in
      count_of-increment t.scope k (increment t.agent b.counts)
      ∙ ap (λ x. x + bit (same_key k t.scope)) (count_of-increment t.agent k b.counts)
      ∙ ap (λ x. x + bit (same_key k t.agent) + bit (same_key k t.scope)) (count k)
      ∙ omega (arith, grown),
  All-increment t.scope _ (All-increment t.agent _ positive),
)

released-IsCounted :
    (n : ℕ) (t : Ticket) (b : Budget)
    → ticket n b.tickets ≡ some t
    → t.released ≡ false
    → IsCounted b
    → IsCounted (record {
      counts = decrement t.scope (decrement t.agent b.counts);
      tickets = mark_released n b.tickets;
    })
unfolding IsCounted
released-IsCounted n t b e unreleased (count, positive) = (
  λ k.
      let shrunk : held k b.tickets
          ≡ bit (same_key k t.agent)
            + bit (same_key k t.scope)
            + held k (mark_released n b.tickets) =
        held-mark_released k n b.tickets t e ∙ rw unreleased refl in
      count_of-decrement t.scope k (decrement t.agent b.counts)
      ∙ ap (λ x. x - bit (same_key k t.scope)) (count_of-decrement t.agent k b.counts)
      ∙ ap (λ x. x - bit (same_key k t.agent) - bit (same_key k t.scope)) (count k)
      ∙ omega (arith, shrunk),
  All-decrement t.scope _ (All-decrement t.agent _ positive),
)

acquire-refines :
    (p : Principal) (b : Budget)
    → IsCounted b
    → Implements (call (Call.acquires p) b) (Tickets.call (Call.acquires p) b.tickets)
unfolding Implements call acquire Tickets.call new_ticket IsCounted
acquire-refines p b h =
    let t = new_ticket p in
    rw (h.0 t.agent, h.0 t.scope)
      (elim (Bool-cases (is_full (held t.agent b.tickets) (held t.scope b.tickets))) [
        | inl e ↦ rw e (refl, refl, h)
        | inr e ↦ rw e (refl, refl, acquired-IsCounted t b refl h)
      ])

release-refines :
    (n : ℕ) (b : Budget)
    → IsCounted b
    → Implements (call (Call.releases n) b) (Tickets.call (Call.releases n) b.tickets)
unfolding Implements call release Tickets.call
release-refines n b h = elim (Option-cases (ticket n b.tickets)) [
  | inl e ↦ rw e (refl, refl, h)
  | inr (t, e) ↦ elim (Bool-cases t.released) [
    | inl r ↦ rw (e, r) (refl, refl, h)
    | inr r ↦ rw (e, r) (refl, refl, released-IsCounted n t b e r h)
  ]
]

call-refines :
    (c : Call) (b : Budget) → IsCounted b → Implements (call c b) (Tickets.call c b.tickets)
call-refines (Call.acquires p) b h = acquire-refines p b h
call-refines (Call.releases n) b h = release-refines n b h

-- From a budget whose counts are its open tickets, any sequence of calls is answered as the tickets
-- alone decide: a reader is let in exactly while its agent holds fewer than 32 open tickets and its
-- scope fewer than 128, whichever of the releases came twice. The counts are the open tickets again
-- afterwards.
pub calls-refines :
    (cs : List Call) (b : Budget)
    → IsCounted b
    → ((calls cs b).0 ≡ (Tickets.calls cs b.tickets).0) × IsCounted (calls cs b).1
unfolding calls Tickets.calls Implements
calls-refines [] b h = (refl, h)
calls-refines (c ∷ cs) b h =
    let (answer, state, counted) = call-refines c b h in
    let (answers, rest) = calls-refines cs (call c b).1 counted in
    (
      ap (λ x. x ∷ (calls cs (call c b).1).0) answer
          ∙ ap (λ xs. (Tickets.call c b.tickets).0 ∷ xs)
              (answers ∙ ap (λ ts. (Tickets.calls cs ts).0) state),
      rest,
    )
