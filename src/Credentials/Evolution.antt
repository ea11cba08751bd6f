-- ===== src/Credentials/Evolution.antt =====
-- The operations on scoped credentials, along the steps of the tables.
use october_bus.Base.{ℕ, String, Bool, List}
use october_bus.World.{CredentialRow, GrantRow}
use october_bus.Tx.Keeps.{Keeps, keeps_rules}
use october_bus.Evolution.{evolution}
use october_bus.Evolution.Statements.{statement_rules}
use october_bus.Credentials.{
  ScopedCredentialGrant, insert_credential, create_scoped_credential, rotate_scoped_credential,
  set_scoped_credential_enabled, authenticate_scoped_credential,
}

module _ (s : String) where
  insert_credential-Evolves :
      (row : CredentialRow) (grants : List GrantRow)
      → Keeps (evolution s) (insert_credential row grants)
  unfolding insert_credential
  insert_credential-Evolves row grants = search (keeps_rules, statement_rules) depth 12

  pub create_scoped_credential-Evolves :
      (label : String) (grants : List ScopedCredentialGrant) (now : ℕ)
      → Keeps (evolution s) (create_scoped_credential s label grants now)
  unfolding create_scoped_credential
  create_scoped_credential-Evolves label grants now =
      search (keeps_rules, statement_rules, insert_credential-Evolves) depth 24

  pub rotate_scoped_credential-Evolves :
      (id : String) (now : ℕ) → Keeps (evolution s) (rotate_scoped_credential s id now)
  unfolding rotate_scoped_credential
  rotate_scoped_credential-Evolves id now = search (keeps_rules, statement_rules) depth 24

  pub set_scoped_credential_enabled-Evolves :
      (id : String) (enabled : Bool) (now : ℕ)
      → Keeps (evolution s) (set_scoped_credential_enabled s id enabled now)
  unfolding set_scoped_credential_enabled
  set_scoped_credential_enabled-Evolves id enabled now =
      search (keeps_rules, statement_rules) depth 24

  pub authenticate_scoped_credential-Evolves :
      (supplied : String) (g : ScopedCredentialGrant)
      → Keeps (evolution s) (authenticate_scoped_credential supplied g)
  unfolding authenticate_scoped_credential
  authenticate_scoped_credential-Evolves supplied g = search keeps_rules depth 24
