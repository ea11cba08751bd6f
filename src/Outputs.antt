-- ===== src/Outputs.antt =====
-- bus/output_streams.go: the streams of a scope, whose values keep their numbers while old ones are
-- dropped. This file has the operations of the scope's owner; the children publish and read.
pub mod Publish
pub mod Read
pub mod Principals
pub mod Rates
pub mod History
pub mod Evolution
use october_bus.Base.{
  ℕ, zero, suc, ◌-◌, ◌%◌, String, Bool, true, false, not, Option, none, some, List, [], ◌∷◌, ◌++◌,
  ◌&&◌, ◌||◌, if◌then◌else◌, ltb, leb, ◌==◌, ◌is◌, map, length, text_ltb,
}
use october_bus.Protocol.{ErrorCode, CreateOutputStreamInput}
use october_bus.World.{
  World, Resources, StreamRow, PublisherRow, ValueRow, GrantRow, CredentialRow, Attribute,
}
use october_bus.Rows.{find, exists, count, update, delete, select, sort_by}
use october_bus.Tx.{
  Tx, ◌>>=◌, ◌>>◌, pure, gets, or_fail, ensure, when, alter, now_millis, random_id, for_each,
}
use october_bus.Events.{append_event}
use october_bus.Session.{Context, begin_tx, agent_row}
use october_bus.Rows.{is_some}

abbrev pub max_output_streams : ℕ
max_output_streams = 1000

abbrev pub max_output_publishers : ℕ
max_output_publishers = 128

abbrev pub output_stream_resource : String
output_stream_resource = "outputStream"

-- A stream with the identifiers of its publishers.
pub record OutputStream : Type 0 where
  pub row : StreamRow
  pub publisher_agent_ids : List String

abbrev pub is_stream : String → StreamRow → Bool
is_stream stream_id r = r.stream_id is stream_id

abbrev pub is_stream_of : String → String → StreamRow → Bool
is_stream_of scope_id stream_id r = (r.scope_id is scope_id) && (r.stream_id is stream_id)

unfoldable pub stream_row : Resources → String → Option StreamRow
stream_row r stream_id = find (is_stream stream_id) r.streams

unfoldable pub stream_exists : World → String → String → Bool
stream_exists w scope_id stream_id = exists (is_stream_of scope_id stream_id) w.resources.streams

abbrev by_agent : PublisherRow → PublisherRow → Bool
by_agent x y = text_ltb x.agent_id y.agent_id

unfoldable pub output_publishers : Resources → String → String → List String
output_publishers r scope_id stream_id =
    map (λ (x : PublisherRow). x.agent_id)
      (sort_by by_agent
        (select (λ x. (x.scope_id is scope_id) && (x.stream_id is stream_id)) r.publishers))

unfoldable pub output_stream_from : Resources → StreamRow → OutputStream
unfolding output_publishers
output_stream_from r row = record {
  row = row;
  publisher_agent_ids = output_publishers r row.scope_id row.stream_id;
}

unfoldable pub output_stream_from_query : String → String → Tx OutputStream
output_stream_from_query scope_id stream_id = do
  found ← gets (λ w. find (is_stream_of scope_id stream_id) w.resources.streams)
  row ← or_fail found ErrorCode.not_found
  gets (λ w. output_stream_from w.resources row)

unfoldable pub require_publisher : String → String → Tx (Unit {0})
require_publisher scope_id agent_id = do
  found ← gets (λ w. agent_row w scope_id agent_id)
  ensure (is_some found) ErrorCode.not_found

abbrev new_stream : String → String → CreateOutputStreamInput → ℕ → StreamRow
new_stream stream_id scope_id input now = record {
  stream_id = stream_id;
  scope_id = scope_id;
  name = input.name;
  retention_limit = input.retention_limit;
  sequence = 0;
  floor_sequence = 0;
  created_at = now;
  updated_at = now;
}

-- The name is unique in the scope, and the identifier everywhere; a violation is a conflict.
unfoldable pub insert_stream : StreamRow → Tx (Unit {0})
insert_stream row = do
  taken ← gets (λ w.
      exists
        (λ (x : StreamRow).
          (x.stream_id is row.stream_id) || ((x.scope_id is row.scope_id) && (x.name is row.name)))
        w.resources.streams)
  ensure (not taken) ErrorCode.conflict
  alter (λ r. record r { streams = r.streams ++ row ∷ [] })

abbrev pub is_publisher : String → String → PublisherRow → Bool
is_publisher stream_id agent_id x = (x.stream_id is stream_id) && (x.agent_id is agent_id)

unfoldable pub insert_publisher : String → String → String → Tx (Unit {0})
insert_publisher stream_id scope_id agent_id = do
  taken ← gets (λ w. exists (is_publisher stream_id agent_id) w.resources.publishers)
  ensure (not taken) ErrorCode.internal
  alter (λ r. record r {
    publishers =
        r.publishers
        ++ record { stream_id = stream_id; scope_id = scope_id; agent_id = agent_id } ∷ [];
  })

unfoldable pub create_output_stream : Context → String → CreateOutputStreamInput → Tx OutputStream
create_output_stream c scope_id input = do
  begin_tx c
  existing ← gets (λ w. count (λ (x : StreamRow). x.scope_id is scope_id) w.resources.streams)
  ensure (ltb existing max_output_streams) ErrorCode.backpressure
  for_each input.publisher_agent_ids (require_publisher scope_id)
  stream_id ← random_id "out_"
  now ← now_millis
  insert_stream (new_stream stream_id scope_id input now)
  for_each input.publisher_agent_ids (insert_publisher stream_id scope_id)
  append_event scope_id "output.stream_created" stream_id
      (("retentionLimit", Attribute.number input.retention_limit) ∷ []) now
  output_stream_from_query scope_id stream_id

abbrev oldest_stream : StreamRow → StreamRow → Bool
oldest_stream x y =
    if x.created_at == y.created_at
    then text_ltb x.stream_id y.stream_id
    else ltb x.created_at y.created_at

unfoldable pub list_output_streams : Context → String → Tx (List OutputStream)
list_output_streams c scope_id = do
  begin_tx c
  gets (λ w.
      map (output_stream_from w.resources)
        (sort_by oldest_stream (select (λ x. x.scope_id is scope_id) w.resources.streams)))

abbrev pub grants_stream : String → GrantRow → Bool
grants_stream stream_id g =
    (g.resource_type is output_stream_resource) && (g.resource_id is stream_id)

-- The credentials that a grant on the stream names are deleted, with all their grants (ON DELETE
-- CASCADE).
unfoldable pub without_credentials : String → Resources → Resources
without_credentials stream_id r =
    let named = λ (id : String).
      exists (λ (g : GrantRow). grants_stream stream_id g && (g.credential_id is id)) r.grants in
    record r {
      credentials = delete (λ c. named c.credential_id) r.credentials;
      grants =
          delete
            (λ g.
              exists
                (λ (c : CredentialRow).
                  (c.credential_id is g.credential_id) && named c.credential_id)
                r.credentials)
            r.grants;
    }

-- The stream of the scope is deleted with its publishers and values (ON DELETE CASCADE).
unfoldable pub without_stream : String → String → Resources → Resources
without_stream scope_id stream_id r =
    let gone = λ (id : String).
      exists (λ (x : StreamRow). is_stream_of scope_id stream_id x && (x.stream_id is id))
        r.streams in
    record r {
      streams = delete (is_stream_of scope_id stream_id) r.streams;
      publishers = delete (λ x. gone x.stream_id) r.publishers;
      values = delete (λ x. gone x.stream_id) r.values;
    }

unfoldable pub remove_output_stream : Context → String → String → Tx (Unit {0})
remove_output_stream c scope_id stream_id = do
  begin_tx c
  found ← gets (λ w. stream_exists w scope_id stream_id)
  ensure found ErrorCode.not_found
  alter (without_credentials stream_id)
  alter (without_stream scope_id stream_id)
  now ← now_millis
  append_event scope_id "output.stream_removed" stream_id [] now

-- Adds or deletes the publisher, and tells whether that changed anything.
unfoldable pub change_publisher : String → String → String → Bool → Tx Bool
change_publisher scope_id stream_id agent_id true = do
  known ← gets (λ w. exists (is_publisher stream_id agent_id) w.resources.publishers)
  if known
      then pure false
      else (gets
            (λ w. count (λ (x : PublisherRow). x.stream_id is stream_id) w.resources.publishers)
          >>= λ number. ensure (ltb number max_output_publishers) ErrorCode.backpressure >>= λ _.
              insert_publisher stream_id scope_id agent_id >>= λ _. pure true)
change_publisher scope_id stream_id agent_id false = do
  removed ← gets (λ w.
      exists (λ (x : PublisherRow). (x.scope_id is scope_id) && is_publisher stream_id agent_id x)
        w.resources.publishers)
  alter (λ r. record r {
    publishers =
        delete (λ x. (x.scope_id is scope_id) && is_publisher stream_id agent_id x) r.publishers;
  })
  pure removed

abbrev publisher_event : Bool → String
publisher_event true = "output.publisher_added"
publisher_event false = "output.publisher_removed"

unfoldable pub touch_stream : String → String → ℕ → Resources → Resources
touch_stream scope_id stream_id now r = record r {
  streams = update (is_stream_of scope_id stream_id) (λ x. record x { updated_at = now }) r.streams;
}

unfoldable pub set_output_publisher : Context → String → String → String → Bool → Tx OutputStream
set_output_publisher c scope_id stream_id agent_id allowed = do
  begin_tx c
  found ← gets (λ w. stream_exists w scope_id stream_id)
  ensure found ErrorCode.not_found
  require_publisher scope_id agent_id
  now ← now_millis
  changed ← change_publisher scope_id stream_id agent_id allowed
  when changed (
      alter (touch_stream scope_id stream_id now) >>= λ _.
      append_event scope_id (publisher_event allowed) stream_id
        (("agentId", Attribute.text agent_id) ∷ []) now)
  output_stream_from_query scope_id stream_id
