-- ===== src/Session/Frame.antt =====
-- Beginning a transaction leaves alone what stands apart from the clock.
use october_bus.Base.{String, Option, none, some}
use october_bus.Protocol.{Principal}
use october_bus.World.{World}
use october_bus.Tx.Keeps.{Keeps, keeps_rules}
use october_bus.Tx.Frame.{IsApart, still, still-now_millis, still-require_current_execution}
use october_bus.Session.{Context, check_credential, check_execution, begin_tx}

module _ {A : Type 0} (get : World → A) (apart : IsApart get) where
  still-check_credential : (c : Option String) → Keeps (still get) (check_credential c)
  unfolding check_credential
  still-check_credential none = search keeps_rules
  still-check_credential (some d) = search keeps_rules

  still-check_execution : (p : Option Principal) → Keeps (still get) (check_execution p)
  unfolding check_execution
  still-check_execution none = search keeps_rules
  still-check_execution (some p) =
      search (keeps_rules, still-now_millis, still-require_current_execution)

  pub still-begin_tx : (c : Context) → Keeps (still get) (begin_tx c)
  unfolding begin_tx
  still-begin_tx c = search (keeps_rules, still-check_credential, still-check_execution)
