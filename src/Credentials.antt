-- ===== src/Credentials.antt =====
-- bus/scoped_credentials.go: credentials that grant a permission on one resource of a scope. What a
-- client holds is the identifier of the credential and its secret with a dot between them.
pub mod Splitting
pub mod Authority
pub mod Evolution
use october_bus.Base.{
  ℕ, String, Bool, true, false, not, Option, none, some, List, [], ◌∷◌, ◌++◌, ◌&&◌, ◌||◌,
  if◌then◌else◌, ltb, ◌==◌, ◌is◌, map,
}
use Prim.Native.Char.{code}
use Prim.Native.String.{◌++◌ as ◌+++◌}
use october_bus.Protocol.{ErrorCode}
use october_bus.World.{World, Resources, CredentialRow, GrantRow}
use october_bus.Rows.{find, exists, count, update}
use october_bus.Tx.{Tx, ◌>>=◌, ◌>>◌, pure, gets, or_fail, ensure, alter, random_id}

abbrev pub scoped_credential_cap_per_scope : ℕ
scoped_credential_cap_per_scope = 1000

pub record ScopedCredentialGrant : Type 0 where
  pub resource_type : String
  pub resource_id : String
  pub permission : String

-- A credential, and the text that its holder gets once.
pub record Issued : Type 0 where
  pub record_of : CredentialRow
  pub credential : String

abbrev pub is_credential : String → String → CredentialRow → Bool
is_credential scope_id credential_id c =
    (c.scope_id is scope_id) && (c.credential_id is credential_id)

unfoldable pub credential_row : World → String → String → Option CredentialRow
credential_row w scope_id credential_id =
    find (is_credential scope_id credential_id) w.resources.credentials

unfoldable pub grant_row : String → ScopedCredentialGrant → GrantRow
grant_row credential_id g = record {
  credential_id = credential_id;
  resource_type = g.resource_type;
  resource_id = g.resource_id;
  permission = g.permission;
}

-- The identifier and the hash of the secret are unique.
unfoldable pub insert_credential : CredentialRow → List GrantRow → Tx (Unit {0})
insert_credential row grants = do
  taken ← gets (λ w.
      exists
        (λ (c : CredentialRow).
          (c.credential_id is row.credential_id) || (c.token_hash is row.token_hash))
        w.resources.credentials)
  ensure (not taken) ErrorCode.internal
  alter (λ r. record r { credentials = r.credentials ++ row ∷ []; grants = r.grants ++ grants })

unfoldable pub create_scoped_credential :
    String → String → List ScopedCredentialGrant → ℕ → Tx Issued
unfolding grant_row
create_scoped_credential scope_id label grants now = do
  existing ←
      gets (λ w. count (λ (c : CredentialRow). c.scope_id is scope_id) w.resources.credentials)
  ensure (ltb existing scoped_credential_cap_per_scope) ErrorCode.backpressure
  credential_id ← random_id "cred_"
  secret ← random_id ""
  digest ← gets (λ w. w.hashes.token_digest secret)
  let row : CredentialRow = record {
    credential_id = credential_id;
    scope_id = scope_id;
    label = label;
    token_hash = digest;
    enabled = true;
    created_at = now;
    updated_at = now;
  }
  insert_credential row (map (grant_row credential_id) grants)
  pure (record { record_of = row; credential = credential_id +++ ("." +++ secret) })

abbrev pub rotated : String → ℕ → CredentialRow → CredentialRow
rotated digest now c = record c { token_hash = digest; updated_at = now }

unfoldable pub rotate_scoped_credential : String → String → ℕ → Tx Issued
unfolding credential_row
rotate_scoped_credential scope_id credential_id now = do
  found ← gets (λ w. credential_row w scope_id credential_id)
  row ← or_fail found ErrorCode.not_found
  secret ← random_id ""
  digest ← gets (λ w. w.hashes.token_digest secret)
  alter (λ r. record r {
    credentials = update (is_credential scope_id credential_id) (rotated digest now) r.credentials;
  })
  pure (record {
    record_of = record row { updated_at = now };
    credential = credential_id +++ ("." +++ secret);
  })

abbrev pub same_bool : Bool → Bool → Bool
same_bool true b = b
same_bool false b = not b

abbrev pub switched : Bool → ℕ → CredentialRow → CredentialRow
switched enabled now c = record c { enabled = enabled; updated_at = now }

-- The credential, and whether it was changed.
unfoldable pub set_scoped_credential_enabled :
    String → String → Bool → ℕ → Tx (CredentialRow × Bool)
unfolding credential_row
set_scoped_credential_enabled scope_id credential_id enabled now = do
  found ← gets (λ w. credential_row w scope_id credential_id)
  row ← or_fail found ErrorCode.not_found
  if same_bool row.enabled enabled
      then pure (row, false)
      else (alter (λ r. record r {
        credentials =
            update (is_credential scope_id credential_id) (switched enabled now) r.credentials;
      })
          >>= λ _. pure (switched enabled now row, true))

-- strings.Cut at the first dot: whether there is one, and what stands before and behind it.
unfoldable pub contains_dot : String → Bool
contains_dot String.[] = false
contains_dot (String.◌∷◌ c s) = if code c == 46 then true else contains_dot s

unfoldable pub before_dot : String → String
before_dot String.[] = String.[]
before_dot (String.◌∷◌ c s) = if code c == 46 then String.[] else String.◌∷◌ c (before_dot s)

unfoldable pub after_dot : String → String
after_dot String.[] = String.[]
after_dot (String.◌∷◌ c s) = if code c == 46 then s else after_dot s

unfoldable pub split_scoped_credential : String → Option (String × String)
split_scoped_credential value =
    let credential_id = before_dot value in
    let secret = after_dot value in
    if not (contains_dot value)
      || ((credential_id is "") || ((secret is "") || contains_dot secret))
    then none
    else some (credential_id, secret)

abbrev pub is_granted : ScopedCredentialGrant → String → GrantRow → Bool
is_granted g credential_id x =
    (x.credential_id is credential_id)
    && ((x.resource_type is g.resource_type)
        && ((x.resource_id is g.resource_id) && (x.permission is g.permission)))

-- The JOIN: the credential of the identifier, where a row grants it the permission.
unfoldable pub granted_row : World → String → ScopedCredentialGrant → Option CredentialRow
granted_row w credential_id g =
    find
      (λ (c : CredentialRow).
        (c.credential_id is credential_id)
        && exists (is_granted g c.credential_id) w.resources.grants)
      w.resources.credentials

unfoldable pub authenticate_scoped_credential : String → ScopedCredentialGrant → Tx CredentialRow
unfolding split_scoped_credential granted_row
authenticate_scoped_credential supplied g = do
  (credential_id, secret) ← or_fail (split_scoped_credential supplied) ErrorCode.unauthenticated
  found ← gets (λ w. granted_row w credential_id g)
  row ← or_fail found ErrorCode.unauthenticated
  digest ← gets (λ w. w.hashes.token_digest secret)
  ensure (row.enabled && (row.token_hash is digest)) ErrorCode.unauthenticated
  pure row
