-- ===== src/Outputs/Principals.antt =====
-- bus/output_principals.go: the credentials of a stream, given out, renewed and switched off by the
-- owner of its scope.
pub mod Evolution
use october_bus.Base.{
  ℕ, String, Bool, true, false, not, Option, none, some, List, [], ◌∷◌, ◌&&◌, ◌||◌, if◌then◌else◌,
  ◌is◌, map, text_ltb,
}
use Prim.Native.String.{◌++◌ as ◌+++◌}
use october_bus.Protocol.{ErrorCode}
use october_bus.World.{World, CredentialRow, GrantRow, Attribute}
use october_bus.Rows.{select, sort_by}
use october_bus.Tx.{Tx, ◌>>=◌, ◌>>◌, pure, fail, gets, or_fail, ensure, when, now_millis}
use october_bus.Events.{append_event}
use october_bus.Session.{Context, begin_tx}
use october_bus.Credentials.{
  ScopedCredentialGrant, Issued, credential_row, create_scoped_credential, rotate_scoped_credential,
  set_scoped_credential_enabled,
}
use october_bus.Outputs.{output_stream_resource, stream_exists}

pub record CreateOutputPrincipalInput : Type 0 where
  pub stream_id : String
  pub label : String
  pub permissions : List String

pub record OutputPrincipal : Type 0 where
  pub record_of : CredentialRow
  pub stream_id : String
  pub permissions : List String

pub record IssuedOutputPrincipal : Type 0 where
  pub principal : OutputPrincipal
  pub credential : String

-- strings.Join with a comma
unfoldable pub output_permission_string : List String → String
output_permission_string [] = ""
output_permission_string (p ∷ []) = p
output_permission_string (p ∷ q ∷ ps) = p +++ ("," +++ output_permission_string (q ∷ ps))

abbrev stream_grant : String → String → ScopedCredentialGrant
stream_grant stream_id permission = record {
  resource_type = output_stream_resource;
  resource_id = stream_id;
  permission = permission;
}

unfoldable pub create_output_principal :
    Context → String → CreateOutputPrincipalInput → Tx IssuedOutputPrincipal
create_output_principal c scope_id input = do
  begin_tx c
  found ← gets (λ w. stream_exists w scope_id input.stream_id)
  ensure found ErrorCode.not_found
  now ← now_millis
  issued ←
      create_scoped_credential scope_id input.label
        (map (stream_grant input.stream_id) input.permissions) now
  append_event scope_id "credential.created" issued.record_of.credential_id
      (("resourceType", Attribute.text output_stream_resource)
        ∷ ("resourceId", Attribute.text input.stream_id)
        ∷ ("permissions", Attribute.text (output_permission_string input.permissions))
        ∷ ("enabled", Attribute.flag true)
        ∷ [])
      now
  pure (record {
    principal = record {
      record_of = issued.record_of;
      stream_id = input.stream_id;
      permissions = input.permissions;
    };
    credential = issued.credential;
  })

abbrev by_permission : GrantRow → GrantRow → Bool
by_permission x y = text_ltb x.permission y.permission

unfoldable pub stream_grants : World → String → List GrantRow
stream_grants w credential_id = sort_by by_permission (
    select (λ g. (g.credential_id is credential_id) && (g.resource_type is output_stream_resource))
      w.resources.grants)

-- The loop over the grants: all of them are on one stream, or the credential is inconsistent. The
-- identifier of a stream is not empty.
unfoldable pub granted_stream : String → List GrantRow → Tx String
granted_stream stream_id [] = pure stream_id
granted_stream stream_id (g ∷ gs) = do
  ensure ((stream_id is "") || (stream_id is g.resource_id)) ErrorCode.internal
  granted_stream g.resource_id gs

unfoldable pub output_principal_details : String → String → Tx (String × List String)
output_principal_details scope_id principal_id = do
  found ← gets (λ w. credential_row w scope_id principal_id)
  or_fail found ErrorCode.not_found
  grants ← gets (λ w. stream_grants w principal_id)
  stream_id ← granted_stream "" grants
  ensure (not (stream_id is "")) ErrorCode.not_found
  pure (stream_id, map (λ (g : GrantRow). g.permission) grants)

unfoldable pub rotate_output_principal : Context → String → String → Tx IssuedOutputPrincipal
rotate_output_principal c scope_id principal_id = do
  begin_tx c
  (stream_id, permissions) ← output_principal_details scope_id principal_id
  now ← now_millis
  issued ← rotate_scoped_credential scope_id principal_id now
  append_event scope_id "credential.rotated" issued.record_of.credential_id
      (("resourceType", Attribute.text output_stream_resource)
        ∷ ("resourceId", Attribute.text stream_id)
        ∷ ("permissions", Attribute.text (output_permission_string permissions))
        ∷ [])
      now
  pure (record {
    principal = record {
      record_of = issued.record_of;
      stream_id = stream_id;
      permissions = permissions;
    };
    credential = issued.credential;
  })

abbrev switch_event : Bool → String
switch_event true = "credential.enabled"
switch_event false = "credential.disabled"

unfoldable pub set_output_principal_enabled : Context → String → String → Bool → Tx OutputPrincipal
set_output_principal_enabled c scope_id principal_id enabled = do
  begin_tx c
  (stream_id, permissions) ← output_principal_details scope_id principal_id
  now ← now_millis
  (row, changed) ← set_scoped_credential_enabled scope_id principal_id enabled now
  when changed (
      append_event scope_id (switch_event enabled) row.credential_id
        (("resourceType", Attribute.text output_stream_resource)
          ∷ ("resourceId", Attribute.text stream_id)
          ∷ ("permissions", Attribute.text (output_permission_string permissions))
          ∷ ("enabled", Attribute.flag enabled)
          ∷ [])
        now)
  pure (record { record_of = row; stream_id = stream_id; permissions = permissions })
