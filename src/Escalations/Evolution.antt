-- ===== src/Escalations/Evolution.antt =====
-- Asking a human and answering, along the steps of the tables.
use october_bus.Base.{ℕ, String, true, ◌≡◌, refl, arith, eq_iff}
use october_bus.Protocol.{Principal, AskHumanInput}
use october_bus.World.{EscalationRow}
use october_bus.Tx.Keeps.{Keeps, keeps_rules}
use october_bus.Evolution.{evolution}
use october_bus.Evolution.Steps.{EscalationStep}
use october_bus.Evolution.Statements.{statement_rules}
use october_bus.Events.Evolution.{append_event-Evolves}
use october_bus.Session.{Context}
use october_bus.Session.Evolution.{begin_tx-Evolves, require_current_execution-Evolves}
use october_bus.Delivery.Send.Evolution.{send_message_tx-Evolves}
use october_bus.Escalations.{
  escalation_from, check_escalation_caps, ask_human, is_unresolved, resolved_row,
  explain_unresolved, resolve_escalation,
}

resolved-EscalationStep :
    (s id answer : String) (now : ℕ) (e : EscalationRow)
    → is_unresolved s id e ≡ true
    → EscalationStep s e (resolved_row answer now e)
resolved-EscalationStep s id answer now e h = record {
  elsewhere = ground (arith, eq_iff e.scope_id s);
  content = refl;
  final = ground arith;
}

ruleset escalation_rules = (
  keeps_rules, statement_rules, append_event-Evolves, begin_tx-Evolves,
  require_current_execution-Evolves, resolved-EscalationStep,
)

module _ (s : String) where
  escalation_from-Evolves : (id : String) → Keeps (evolution s) (escalation_from s id)
  unfolding escalation_from
  escalation_from-Evolves id = search keeps_rules

  explain_unresolved-Evolves : (id : String) → Keeps (evolution s) (explain_unresolved s id)
  unfolding explain_unresolved
  explain_unresolved-Evolves id = search (keeps_rules, escalation_from-Evolves)

  pub resolve_escalation-Evolves :
      (c : Context) (id answer : String) → Keeps (evolution s) (resolve_escalation c s id answer)
  unfolding resolve_escalation
  resolve_escalation-Evolves c id answer =
      search
        (
          escalation_rules, escalation_from-Evolves, explain_unresolved-Evolves,
          send_message_tx-Evolves,
        )
        depth 32

module _ (p : Principal) where
  check_escalation_caps-Evolves : Keeps (evolution p.scope_id) (check_escalation_caps p)
  unfolding check_escalation_caps
  check_escalation_caps-Evolves = search keeps_rules depth 12

  pub ask_human-Evolves :
      (c : Context) (input : AskHumanInput) → Keeps (evolution p.scope_id) (ask_human c p input)
  unfolding ask_human
  ask_human-Evolves c input =
      search (escalation_rules, escalation_from-Evolves, check_escalation_caps-Evolves) depth 32
