-- ===== src/Outputs/Publish.antt =====
-- consumeOutputQuota and PublishOutput of bus/output_streams.go.
pub mod Frame
pub mod Values
pub mod Evolution
use october_bus.Base.{
  ℕ, zero, suc, ◌+◌, ◌-◌, ◌%◌, String, Bool, true, false, not, Option, none, some, List, [], ◌∷◌,
  ◌++◌, ◌&&◌, if◌then◌else◌, ltb, leb, ◌==◌, ◌is◌,
}
use october_bus.Protocol.{ErrorCode, Principal, PublishOutputInput}
use october_bus.World.{World, Resources, StreamRow, PublisherRow, ValueRow, UsageRow, Attribute}
use october_bus.Rows.{find, exists, update, delete, nullable_string}
use october_bus.Tx.{Tx, ◌>>=◌, ◌>>◌, pure, fail, gets, or_fail, ensure, when, alter, now_millis}
use october_bus.Events.{append_event}
use october_bus.Session.{Context, begin_tx, require_current_execution}
use october_bus.Credentials.{authenticate_scoped_credential}
use october_bus.Outputs.{is_stream, stream_row, output_stream_resource, is_publisher}

abbrev pub output_publish_rate : ℕ
output_publish_rate = 120

abbrev pub output_read_rate : ℕ
output_read_rate = 600

abbrev pub is_usage : String → String → String → ℕ → UsageRow → Bool
is_usage scope_id principal_type principal_id window u =
    (u.scope_id is scope_id)
    && ((u.principal_type is principal_type)
        && ((u.principal_id is principal_id) && (u.window_start == window)))

-- The column that is counted.
abbrev pub counted : Bool → UsageRow → ℕ
counted true u = u.publish_count
counted false u = u.read_count

abbrev pub count_request : Bool → UsageRow → UsageRow
count_request true u = record u { publish_count = u.publish_count + 1 }
count_request false u = record u { read_count = u.read_count + 1 }

abbrev pub rate_cap : Bool → ℕ
rate_cap true = output_publish_rate
rate_cap false = output_read_rate

-- INSERT ... ON CONFLICT DO UPDATE
unfoldable pub count_usage : String → String → String → ℕ → Bool → List UsageRow → List UsageRow
count_usage scope_id principal_type principal_id window publish rows =
    if exists (is_usage scope_id principal_type principal_id window) rows
    then update (is_usage scope_id principal_type principal_id window) (count_request publish) rows
    else rows
      ++ count_request publish (record {
        scope_id = scope_id;
        principal_type = principal_type;
        principal_id = principal_id;
        window_start = window;
        publish_count = 0;
        read_count = 0;
      })
        ∷ []

-- Windows begin at whole minutes; those before the last one are dropped.
unfoldable pub consume_output_quota : String → String → String → Bool → ℕ → Tx (Unit {0})
consume_output_quota scope_id principal_type principal_id publish now = do
  let window = now - now % 60000
  alter (λ r. record r {
    usage = delete (λ u. (u.scope_id is scope_id) && ltb u.window_start (window - 60000)) r.usage;
  })
  alter (λ r. record r {
    usage = count_usage scope_id principal_type principal_id window publish r.usage;
  })
  found ← gets (λ w. find (is_usage scope_id principal_type principal_id window) w.resources.usage)
  row ← or_fail found ErrorCode.internal
  ensure (leb (counted publish row) (rate_cap publish)) ErrorCode.backpressure

-- outputPublisher: an execution, or the text of a credential.
pub data OutputPublisher : Type 0 where
  agent : Principal → OutputPublisher
  credential : String → OutputPublisher

pub record Producer : Type 0 where
  pub producer_type : String
  pub producer_id : String

-- The error for a stream that is not there, which a credential is not told apart from an invalid one.
abbrev pub missing_stream : OutputPublisher → ErrorCode
missing_stream (OutputPublisher.agent p) = ErrorCode.not_found
missing_stream (OutputPublisher.credential t) = ErrorCode.unauthenticated

unfoldable pub producer_of : OutputPublisher → StreamRow → Tx Producer
producer_of (OutputPublisher.agent p) row = do
  ensure (p.scope_id is row.scope_id) ErrorCode.not_found
  now ← now_millis
  require_current_execution p now
  allowed ← gets (λ w.
      exists
        (λ (x : PublisherRow).
          (x.scope_id is row.scope_id) && is_publisher row.stream_id p.agent_id x)
        w.resources.publishers)
  ensure allowed ErrorCode.permission_denied
  pure (record { producer_type = "agent"; producer_id = p.agent_id })
producer_of (OutputPublisher.credential t) row = do
  found ← authenticate_scoped_credential t (record {
    resource_type = output_stream_resource;
    resource_id = row.stream_id;
    permission = "publish";
  })
  ensure (found.scope_id is row.scope_id) ErrorCode.unauthenticated
  pure (record { producer_type = "principal"; producer_id = found.credential_id })

unfoldable pub bump_stream : String → ℕ → Resources → Resources
bump_stream stream_id now r = record r {
  streams =
      update (is_stream stream_id) (λ x. record x { sequence = x.sequence + 1; updated_at = now })
        r.streams;
}

abbrev pub is_value : String → ℕ → ValueRow → Bool
is_value stream_id sequence v = (v.stream_id is stream_id) && (v.sequence == sequence)

unfoldable pub add_value : ValueRow → Resources → Resources
add_value v r = record r { values = r.values ++ v ∷ [] }

-- The number of a value is unique in its stream.
unfoldable pub insert_value : ValueRow → Tx (Unit {0})
insert_value v = do
  taken ← gets (λ w. exists (is_value v.stream_id v.sequence) w.resources.values)
  ensure (not taken) ErrorCode.internal
  alter (add_value v)

unfoldable pub drop_values : String → ℕ → Resources → Resources
drop_values stream_id floor r = record r {
  values = delete (λ v. (v.stream_id is stream_id) && leb v.sequence floor) r.values;
  streams = update (is_stream stream_id) (λ x. record x { floor_sequence = floor }) r.streams;
}

abbrev new_value : String → ℕ → Producer → PublishOutputInput → ℕ → ValueRow
new_value stream_id sequence producer input now = record {
  stream_id = stream_id;
  sequence = sequence;
  producer_type = producer.producer_type;
  producer_id = producer.producer_id;
  content_type = input.content_type;
  value = input.value;
  reference = nullable_string input.reference;
  created_at = now;
}

-- The next number, the value, and the new floor. The limit is compared with the number, so that the
-- difference is not below 0.
unfoldable pub append_value : StreamRow → Producer → PublishOutputInput → ℕ → Tx ValueRow
append_value row producer input now = do
  alter (bump_stream row.stream_id now)
  found ← gets (λ w. stream_row w.resources row.stream_id)
  bumped ← or_fail found ErrorCode.internal
  let value : ValueRow = new_value row.stream_id bumped.sequence producer input now
  insert_value value
  let floor = bumped.sequence - row.retention_limit
  when (ltb row.floor_sequence floor) (alter (drop_values row.stream_id floor))
  pure value

unfoldable pub publish_output :
    Context → OutputPublisher → String → PublishOutputInput → Tx ValueRow
publish_output c authority stream_id input = do
  known ← gets (λ w. stream_row w.resources stream_id)
  or_fail known (missing_stream authority)
  begin_tx c
  found ← gets (λ w. stream_row w.resources stream_id)
  row ← or_fail found (missing_stream authority)
  producer ← producer_of authority row
  now ← now_millis
  consume_output_quota row.scope_id producer.producer_type producer.producer_id true now
  value ← append_value row producer input now
  append_event row.scope_id "output.published" stream_id
      (("sequence", Attribute.number value.sequence)
        ∷ ("producerType", Attribute.text producer.producer_type)
        ∷ ("producerId", Attribute.text producer.producer_id)
        ∷ ("contentType", Attribute.text input.content_type)
        ∷ [])
      now
  pure value
