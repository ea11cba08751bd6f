-- ===== src/Tests/Streams.antt =====
-- The statements on streams, credentials, channels and the log, in a scope with a stream that keeps
-- two values and whose reader has the secret x.
use october_bus.Base.{
  ℕ, ◌+◌, ◌-◌, ◌%◌, ◌≤◌, ◌<◌, min, String, true, false, none, some, List, [], ◌∷◌, ◌≡◌, ◌≢◌, refl,
  ap, arith, ◌is◌, eq_iff, Bool-cases, inl, inr, map,
}
use Prim.Native.String.{◌++◌ as ◌+++◌}
use october_bus.Protocol.{ErrorCode, PublishOutputInput}
use october_bus.World.{World, StreamRow, ValueRow, CredentialRow, ScopeRow, EventRow}
use october_bus.Rows.{select, find, exists, count, update, delete}
use october_bus.Rows.Numbers.{numbers}
use october_bus.Tx.{
  Outcome, ok, err, ◌>>=◌, pure, gets, or_fail, ensure, when, alter, now_millis, random_id,
  update_scopes, insert_events,
}
use october_bus.Events.{
  event_attributes, number_events, append_batch, append_rounds, append_events, append_event,
}
use october_bus.Events.Reading.{EventBatch, event_batch, event_batch-consecutive}
use october_bus.Session.{begin_tx, agent_row, holds_agent, require_current_execution}
use october_bus.Evolution.Numbering.{IsNumbered, revisions}
use october_bus.Evolution.Windows.{sequences, WindowOf, IsWindowed}
use october_bus.Credentials.{
  ScopedCredentialGrant, Issued, credential_row, rotate_scoped_credential, contains_dot, before_dot,
  after_dot, split_scoped_credential, granted_row, authenticate_scoped_credential,
}
use october_bus.Credentials.Splitting.{
  split_scoped_credential-dotted, split_scoped_credential_sound,
}
use october_bus.Credentials.Authority.{
  IsProved, authenticate_scoped_credential_sound, rotate_scoped_credential-fences,
}
use october_bus.Outputs.{stream_row}
use october_bus.Outputs.Publish.{
  OutputPublisher, rate_cap, count_usage, consume_output_quota, producer_of, bump_stream, add_value,
  insert_value, drop_values, append_value, publish_output,
}
use october_bus.Outputs.Publish.Evolution.{publish_output-next}
use october_bus.Outputs.Rates.{requests_made, consume_output_quota-rate}
use october_bus.Outputs.Read.{OutputHistory, output_history}
use october_bus.Outputs.History.{output_history-consecutive}
use october_bus.Bus.{Request, publish_output as publish_request, run}
use october_bus.Bus.Windows.{run-IsWindowed}
use october_bus.Validation.{validate_identity, matches_identity, all_of}
use october_bus.Channels.{require_channel, join_channel, subscribe_channel}
use october_bus.Channels.Posting.{IsCapped, subscribe_channel-IsCapped}
use october_bus.Tests.Scene.{a, nobody, scene}

abbrev stream : StreamRow
stream = record {
  stream_id = "o";
  scope_id = "s";
  name = "log";
  retention_limit = 2;
  sequence = 3;
  floor_sequence = 1;
  created_at = 0;
  updated_at = 0;
}

abbrev value_at : ℕ → ValueRow
value_at n = record {
  stream_id = "o";
  sequence = n;
  producer_type = "agent";
  producer_id = "a";
  content_type = "text/plain";
  value = "\"v\"";
  reference = none;
  created_at = 0;
}

abbrev credential : CredentialRow
credential = record {
  credential_id = "c1";
  scope_id = "s";
  label = "reader";
  token_hash = "x";
  enabled = true;
  created_at = 0;
  updated_at = 0;
}

abbrev reading : ScopedCredentialGrant
reading = record { resource_type = "outputStream"; resource_id = "o"; permission = "read" }

abbrev studio : World
studio = record scene {
  resources = record {
    streams = stream ∷ [];
    publishers = record { stream_id = "o"; scope_id = "s"; agent_id = "a" } ∷ [];
    values = value_at 2 ∷ value_at 3 ∷ [];
    usage = [];
    credentials = credential ∷ [];
    grants =
        record {
          credential_id = "c1";
          resource_type = "outputStream";
          resource_id = "o";
          permission = "read";
        }
        ∷ [];
    channels =
        record {
          scope_id = "s";
          channel_id = "ch";
          name = "news";
          description = "";
          created_at = 0;
        }
        ∷ [];
    subscriptions = [];
    posts = [];
  };
}

studio-IsWindowed : IsWindowed studio.resources.streams studio.resources.values
unfolding IsWindowed WindowOf sequences select find count
studio-IsWindowed id = elim (Bool-cases ("o" is id)) [
  | inl e ↦ rw e (omega arith, (refl, omega arith, omega arith))
  | inr e ↦ rw e (omega arith, refl)
]

abbrev text_value : PublishOutputInput
text_value = record { content_type = "text/plain"; value = "\"w\""; reference = "" }

abbrev publications : List Request
publications =
    publish_request nobody (OutputPublisher.agent a) "o" text_value
    ∷ publish_request nobody (OutputPublisher.agent a) "o" text_value
    ∷ []

run-IsWindowed_example :
    IsWindowed
      (run studio publications).resources.streams
      (run studio publications).resources.values
run-IsWindowed_example = run-IsWindowed publications studio studio-IsWindowed

abbrev value_of : Outcome ValueRow → ValueRow
value_of (ok v w) = v
value_of (err c) = value_at 0

abbrev world_of : {A : Type 0} → Outcome A → World
world_of (ok x w) = w
world_of (err c) = studio

publish_output_runs :
    publish_output nobody (OutputPublisher.agent a) "o" text_value studio
    ≡ ok
        (value_of (publish_output nobody (OutputPublisher.agent a) "o" text_value studio))
        (world_of (publish_output nobody (OutputPublisher.agent a) "o" text_value studio))
unfolding publish_output producer_of consume_output_quota count_usage append_value bump_stream
    insert_value add_value drop_values stream_row ◌>>=◌ pure gets or_fail ensure when alter
    now_millis random_id begin_tx agent_row holds_agent require_current_execution find exists count
    select delete update event_attributes number_events append_batch append_rounds append_events
    append_event update_scopes insert_events
publish_output_runs = refl

publish_output-next_example :
    (row : StreamRow) × (stream_row studio.resources "o" ≡ some row)
    × ((value_of (publish_output nobody (OutputPublisher.agent a) "o" text_value studio)).stream_id
        ≡ "o")
    × ((value_of (publish_output nobody (OutputPublisher.agent a) "o" text_value studio)).sequence
        ≡ row.sequence + 1)
publish_output-next_example =
    publish_output-next nobody (OutputPublisher.agent a) "o" text_value studio
      (world_of (publish_output nobody (OutputPublisher.agent a) "o" text_value studio))
      (value_of (publish_output nobody (OutputPublisher.agent a) "o" text_value studio))
      publish_output_runs

stream_row_runs : stream_row studio.resources "o" ≡ some stream
unfolding stream_row find
stream_row_runs = refl

two_le_three : 2 ≤ 3
two_le_three = omega arith

one_le_two : 1 ≤ 2
one_le_two = omega arith

output_history-consecutive_example :
    (page : OutputHistory) × (output_history stream 2 10 studio ≡ ok page studio)
    × (map (λ (v : ValueRow). v.sequence) page.values ≡ numbers (2 + 1) (min 10 (3 - 2)))
    × (page.next_sequence ≡ 2 + min 10 (3 - 2))
    × (page.resync_required ≡ false)
output_history-consecutive_example =
    output_history-consecutive studio stream 2 10 studio-IsWindowed stream_row_runs one_le_two
      two_le_three

consume_output_quota-rate_example :
    let made =
      requests_made "s" "principal" "c1" (100 - 100 % 60000) false studio.resources.usage in
    (made < rate_cap false
      → (w' : World) × (consume_output_quota "s" "principal" "c1" false 100 studio ≡ ok tt w')
        × (requests_made "s" "principal" "c1" (100 - 100 % 60000) false w'.resources.usage
            ≡ made + 1))
    × (rate_cap false ≤ made
        → consume_output_quota "s" "principal" "c1" false 100 studio ≡ err ErrorCode.backpressure)
consume_output_quota-rate_example = consume_output_quota-rate "s" "principal" "c1" false 100 studio

abbrev credential_text : String
credential_text = "c1"

abbrev secret_text : String
secret_text = "x"

no_dot : (contains_dot "c1" ≡ false) × (contains_dot "x" ≡ false)
unfolding contains_dot
no_dot = (refl, refl)

named : credential_text ≢ ""
named e = absurd (differ ((eq_iff "c1" "").1 e))
  where
    differ : false ≡ true → ⊥
    differ h = cc

filled : secret_text ≢ ""
filled e = absurd (differ ((eq_iff "x" "").1 e))
  where
    differ : false ≡ true → ⊥
    differ h = cc

split_scoped_credential-dotted_example :
    split_scoped_credential ("c1" +++ ("." +++ "x")) ≡ some ("c1", "x")
split_scoped_credential-dotted_example =
    split_scoped_credential-dotted "c1" "x" no_dot.0 no_dot.1 named filled

split_scoped_credential_runs : split_scoped_credential "c1.x" ≡ some ("c1", "x")
unfolding split_scoped_credential contains_dot before_dot after_dot
split_scoped_credential_runs = refl

split_scoped_credential_sound_example :
    ("c1" +++ ("." +++ "x") ≡ "c1.x")
    × (credential_text ≢ "")
    × (secret_text ≢ "")
    × (contains_dot "x" ≡ false)
split_scoped_credential_sound_example =
    split_scoped_credential_sound "c1.x" "c1" "x" split_scoped_credential_runs

authenticate_scoped_credential_runs :
    authenticate_scoped_credential "c1.x" reading studio ≡ ok credential studio
unfolding authenticate_scoped_credential split_scoped_credential contains_dot before_dot after_dot
    granted_row find exists ◌>>=◌ pure gets or_fail ensure
authenticate_scoped_credential_runs = refl

authenticate_scoped_credential_sound_example :
    (secret : String) × (split_scoped_credential "c1.x" ≡ some ("c1", secret))
    × IsProved studio reading credential secret
    × (studio ≡ studio)
authenticate_scoped_credential_sound_example =
    authenticate_scoped_credential_sound "c1.x" reading studio studio credential
      authenticate_scoped_credential_runs

abbrev issued_of : Outcome Issued → Issued
issued_of (ok i w) = i
issued_of (err c) = record { record_of = credential; credential = "" }

rotate_scoped_credential_runs :
    rotate_scoped_credential "s" "c1" 7 studio
    ≡ ok
        (issued_of (rotate_scoped_credential "s" "c1" 7 studio))
        (world_of (rotate_scoped_credential "s" "c1" 7 studio))
unfolding rotate_scoped_credential credential_row find update ◌>>=◌ pure gets or_fail random_id
    alter
rotate_scoped_credential_runs = refl

rotate_scoped_credential-fences_example :
    (secret : String) × ((issued_of (rotate_scoped_credential "s" "c1" 7 studio)).credential
      ≡ "c1" +++ ("." +++ secret))
    × ((supplied : String) (g : ScopedCredentialGrant) (c : CredentialRow) (w'' : World)
        → authenticate_scoped_credential supplied g
            (world_of (rotate_scoped_credential "s" "c1" 7 studio))
          ≡ ok c w''
        → c.scope_id ≡ "s"
        → c.credential_id ≡ "c1"
        → (used : String) × (split_scoped_credential supplied ≡ some ("c1", used))
          × ((world_of (rotate_scoped_credential "s" "c1" 7 studio)).hashes.token_digest used
              ≡ (world_of (rotate_scoped_credential "s" "c1" 7 studio)).hashes.token_digest secret))
rotate_scoped_credential-fences_example =
    rotate_scoped_credential-fences "s" "c1" 7 studio
      (world_of (rotate_scoped_credential "s" "c1" 7 studio))
      (issued_of (rotate_scoped_credential "s" "c1" 7 studio)) rotate_scoped_credential_runs

empty-IsCapped : IsCapped studio.resources.subscriptions
unfolding IsCapped count
empty-IsCapped = (λ s c. omega arith, λ s c m. omega arith)

subscribe_channel_runs :
    subscribe_channel nobody a "ch" true studio
    ≡ ok tt (world_of (subscribe_channel nobody a "ch" true studio))
unfolding subscribe_channel require_channel join_channel validate_identity matches_identity all_of
    begin_tx agent_row holds_agent require_current_execution find exists count ◌>>=◌ pure gets
    or_fail ensure now_millis alter
subscribe_channel_runs = refl

subscribe_channel-IsCapped_example :
    IsCapped (world_of (subscribe_channel nobody a "ch" true studio)).resources.subscriptions
subscribe_channel-IsCapped_example =
    subscribe_channel-IsCapped nobody a "ch" true studio
      (world_of (subscribe_channel nobody a "ch" true studio)) tt empty-IsCapped
      subscribe_channel_runs

abbrev event_at : ℕ → EventRow
event_at n = record {
  event_id = "e";
  scope_id = "s";
  revision = n;
  event_type = "t";
  subject_id = "x";
  attributes = [];
  created_at = 0;
}

abbrev logged_scope : ScopeRow
logged_scope = record {
  scope_id = "s";
  token_hash = "token";
  created_at = 0;
  event_revision = 2;
  event_floor_revision = 0;
}

abbrev logged : World
logged = record scene { scopes = logged_scope ∷ []; events = event_at 1 ∷ event_at 2 ∷ [] }

logged-IsNumbered : IsNumbered logged.scopes logged.events
unfolding IsNumbered revisions select find
logged-IsNumbered s r h = elim (Bool-cases ("s" is s)) [
  | inl e ↦
      (let same : logged_scope ≡ r = injected (rw e at h) in
        rw e (ap (λ (x : ScopeRow). numbers 1 x.event_revision) same))
  | inr e ↦ cc (rw e at h)
]
  where
    injected : some logged_scope ≡ some r → logged_scope ≡ r
    injected k = cc

logged_scope_runs : find (λ (r : ScopeRow). r.scope_id is "s") logged.scopes ≡ some logged_scope
unfolding find
logged_scope_runs = refl

none_below : 0 ≤ 1
none_below = omega arith

event_batch-consecutive_example :
    (page : EventBatch) × (event_batch logged_scope 1 10 logged ≡ ok page logged)
    × (map (λ (e : EventRow). e.revision) page.events ≡ numbers (1 + 1) (min 10 (2 - 1)))
    × (page.next_revision ≡ 1 + min 10 (2 - 1))
    × (page.resync_required ≡ false)
event_batch-consecutive_example =
    event_batch-consecutive logged logged_scope 1 10 logged-IsNumbered logged_scope_runs none_below
      one_le_two
