-- ===== src/Outputs/Read.antt =====
-- readOutput of bus/output_streams.go: the history of a stream from a number on, and its last value.
pub mod Evolution
use october_bus.Base.{
  ℕ, zero, suc, String, Bool, true, false, not, Option, none, some, List, [], ◌∷◌, ◌&&◌, ◌||◌,
  if◌then◌else◌, ltb, leb, ◌==◌, ◌is◌, take,
}
use october_bus.Protocol.{ErrorCode}
use october_bus.World.{World, Resources, StreamRow, ValueRow}
use october_bus.Rows.{select, sort_by, find}
use october_bus.Tx.{Tx, ◌>>=◌, ◌>>◌, pure, fail, gets, or_fail, ensure, now_millis}
use october_bus.Session.{Context, begin_tx}
use october_bus.Credentials.{authenticate_scoped_credential}
use october_bus.Outputs.{stream_row, output_stream_resource}
use october_bus.Outputs.Publish.{consume_output_quota}

abbrev pub default_output_retention : ℕ
default_output_retention = 1000

abbrev pub max_output_retention : ℕ
max_output_retention = 10000

abbrev pub default_output_limit : ℕ
default_output_limit = 50

abbrev pub max_output_limit : ℕ
max_output_limit = 100

pub record OutputHistory : Type 0 where
  pub values : List ValueRow
  pub next_sequence : ℕ
  pub current_sequence : ℕ
  pub minimum_cursor : ℕ
  pub resync_required : Bool

abbrev pub before_value : ValueRow → ValueRow → Bool
before_value x y = ltb x.sequence y.sequence

-- The values behind `after`, by their number.
unfoldable pub values_after : String → ℕ → ℕ → List ValueRow → List ValueRow
values_after stream_id after limit values =
    take limit (
      sort_by before_value
        (select (λ v. (v.stream_id is stream_id) && ltb after v.sequence) values))

abbrev pub last_sequence : ℕ → List ValueRow → ℕ
last_sequence n [] = n
last_sequence n (v ∷ vs) = last_sequence v.sequence vs

unfoldable pub output_history : StreamRow → ℕ → ℕ → Tx OutputHistory
output_history row after limit =
    if ltb row.sequence after
    then fail ErrorCode.invalid_argument
    else (if ltb after row.floor_sequence
        then pure (record {
          values = [];
          next_sequence = row.sequence;
          current_sequence = row.sequence;
          minimum_cursor = row.floor_sequence;
          resync_required = true;
        })
        else (gets (λ w. values_after row.stream_id after limit w.resources.values) >>= λ page.
            pure (record {
              values = page;
              next_sequence = last_sequence after page;
              current_sequence = row.sequence;
              minimum_cursor = row.floor_sequence;
              resync_required = false;
            })))

-- The owner of a scope reads by its identifier, anyone else by a credential.
pub data OutputReader : Type 0 where
  owner : String → OutputReader
  credential : String → OutputReader

abbrev pub unread : OutputReader → ErrorCode
unread (OutputReader.owner s) = ErrorCode.not_found
unread (OutputReader.credential t) = ErrorCode.unauthenticated

-- A credential is counted against its rate.
unfoldable pub allow_reader : OutputReader → StreamRow → Tx (Unit {0})
allow_reader (OutputReader.owner scope_id) row =
    ensure (scope_id is row.scope_id) ErrorCode.not_found
allow_reader (OutputReader.credential t) row = do
  found ← authenticate_scoped_credential t (record {
    resource_type = output_stream_resource;
    resource_id = row.stream_id;
    permission = "read";
  })
  ensure (found.scope_id is row.scope_id) ErrorCode.unauthenticated
  now ← now_millis
  consume_output_quota row.scope_id "principal" found.credential_id false now

-- The part that both ways of reading share.
unfoldable pub open_output : Context → OutputReader → String → Tx StreamRow
open_output c reader stream_id = do
  known ← gets (λ w. stream_row w.resources stream_id)
  or_fail known (unread reader)
  begin_tx c
  found ← gets (λ w. stream_row w.resources stream_id)
  row ← or_fail found (unread reader)
  allow_reader reader row
  pure row

unfoldable pub read_history : Context → OutputReader → String → ℕ → ℕ → Tx OutputHistory
read_history c reader stream_id after limit = do
  row ← open_output c reader stream_id
  output_history row after limit

abbrev newest_value : ValueRow → ValueRow → Bool
newest_value x y = ltb y.sequence x.sequence

unfoldable pub first_value : List ValueRow → Option ValueRow
first_value [] = none
first_value (v ∷ vs) = some v

-- ORDER BY sequence DESC LIMIT 1
unfoldable pub read_latest : Context → OutputReader → String → Tx (Option ValueRow)
read_latest c reader stream_id = do
  open_output c reader stream_id
  gets (λ w.
      first_value
        (sort_by newest_value (select (λ v. v.stream_id is stream_id) w.resources.values)))

-- A value of 0 stands for the default.
unfoldable pub normalized_output_retention : ℕ → Option ℕ
normalized_output_retention value =
    if value == 0
    then some default_output_retention
    else (if ltb value 1 || ltb max_output_retention value then none else some value)

unfoldable pub normalized_output_limit : ℕ → Option ℕ
normalized_output_limit value =
    if value == 0
    then some default_output_limit
    else (if ltb value 1 || ltb max_output_limit value then none else some value)
