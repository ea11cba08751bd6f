-- ===== src/Waiting/Budget/Tickets.antt =====
-- What the wait budget of bus/capacity.go promises, with nothing but the tickets as its state: a
-- reader is let in while its agent and its scope hold fewer open tickets than the limits say.
use october_bus.Base.{ℕ, Bool, true, false, Option, none, some, List, [], ◌∷◌, ◌++◌, if◌then◌else◌}
use october_bus.Waiting.Budget.{Ticket, new_ticket, is_full, ticket, mark_released, Call}
use october_bus.Waiting.Budget.Counts.{held}

abbrev mark_once : Option Ticket → ℕ → List Ticket → List Ticket
mark_once none n ts = ts
mark_once (some t) n ts = if t.released then ts else mark_released n ts

unfoldable pub call : Call → List Ticket → Bool × List Ticket
unfolding held new_ticket ticket mark_released
call (Call.acquires p) ts =
    let t = new_ticket p in
    if is_full (held t.agent ts) (held t.scope ts) then (false, ts) else (true, ts ++ t ∷ [])
call (Call.releases n) ts = (true, mark_once (ticket n ts) n ts)

unfoldable pub calls : List Call → List Ticket → List Bool × List Ticket
unfolding call
calls [] ts = ([], ts)
calls (c ∷ cs) ts =
    let (answer, ts₁) = call c ts in let (answers, ts₂) = calls cs ts₁ in (answer ∷ answers, ts₂)
