-- ===== src/Outputs/Principals/Evolution.antt =====
-- The operations on the credentials of a stream, along the steps of the tables.
use october_bus.Base.{String, Bool, List, [], ◌∷◌}
use october_bus.World.{GrantRow}
use october_bus.Tx.Keeps.{Keeps, keeps_rules, Keeps-bind}
use october_bus.Evolution.{evolution}
use october_bus.Evolution.Statements.{statement_rules}
use october_bus.Events.Evolution.{append_event-Evolves}
use october_bus.Session.{Context}
use october_bus.Session.Evolution.{begin_tx-Evolves}
use october_bus.Credentials.Evolution.{
  create_scoped_credential-Evolves, rotate_scoped_credential-Evolves,
  set_scoped_credential_enabled-Evolves,
}
use october_bus.Outputs.Principals.{
  CreateOutputPrincipalInput, create_output_principal, granted_stream, output_principal_details,
  rotate_output_principal, set_output_principal_enabled,
}

ruleset principal_rules = (
  keeps_rules, statement_rules, append_event-Evolves, begin_tx-Evolves,
  create_scoped_credential-Evolves, rotate_scoped_credential-Evolves,
  set_scoped_credential_enabled-Evolves,
)

module _ (s : String) where
  granted_stream-Evolves :
      (id : String) (grants : List GrantRow) → Keeps (evolution s) (granted_stream id grants)
  unfolding granted_stream
  granted_stream-Evolves id [] = search keeps_rules
  granted_stream-Evolves id (g ∷ gs) =
      Keeps-bind (evolution s) _ _ (search keeps_rules)
        (λ u. granted_stream-Evolves g.resource_id gs)

  output_principal_details-Evolves :
      (id : String) → Keeps (evolution s) (output_principal_details s id)
  unfolding output_principal_details
  output_principal_details-Evolves id = search (keeps_rules, granted_stream-Evolves) depth 24

  pub create_output_principal-Evolves :
      (c : Context) (input : CreateOutputPrincipalInput)
      → Keeps (evolution s) (create_output_principal c s input)
  unfolding create_output_principal
  create_output_principal-Evolves c input = search principal_rules depth 24

  pub rotate_output_principal-Evolves :
      (c : Context) (id : String) → Keeps (evolution s) (rotate_output_principal c s id)
  unfolding rotate_output_principal
  rotate_output_principal-Evolves c id =
      search (principal_rules, output_principal_details-Evolves) depth 24

  pub set_output_principal_enabled-Evolves :
      (c : Context) (id : String) (enabled : Bool)
      → Keeps (evolution s) (set_output_principal_enabled c s id enabled)
  unfolding set_output_principal_enabled
  set_output_principal_enabled-Evolves c id enabled =
      search (principal_rules, output_principal_details-Evolves) depth 24
