-- ===== src/Session/Evolution.antt =====
-- The checks of authority, along the steps of the tables.
use october_bus.Base.{String, ℕ, Option, none, some}
use october_bus.Protocol.{Principal}
use october_bus.Tx.Keeps.{Keeps, keeps_rules}
use october_bus.Evolution.{evolution}
use october_bus.Evolution.Statements.{statement_rules}
use october_bus.Session.{
  Context, require_current_execution, check_credential, check_execution, begin_tx,
}

module _ (s : String) where
  pub require_current_execution-Evolves :
      (p : Principal) (now : ℕ) → Keeps (evolution s) (require_current_execution p now)
  unfolding require_current_execution
  require_current_execution-Evolves p now = search keeps_rules

  check_credential-Evolves : (c : Option String) → Keeps (evolution s) (check_credential c)
  unfolding check_credential
  check_credential-Evolves none = search keeps_rules
  check_credential-Evolves (some d) = search keeps_rules

  check_execution-Evolves : (p : Option Principal) → Keeps (evolution s) (check_execution p)
  unfolding check_execution
  check_execution-Evolves none = search keeps_rules
  check_execution-Evolves (some p) =
      search (keeps_rules, statement_rules, require_current_execution-Evolves)

  pub begin_tx-Evolves : (c : Context) → Keeps (evolution s) (begin_tx c)
  unfolding begin_tx
  begin_tx-Evolves c = search (keeps_rules, check_credential-Evolves, check_execution-Evolves)
