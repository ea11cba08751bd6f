-- ===== src/World/Shared.antt =====
-- The tables of what a scope shares beside agents and messages: the output streams and the
-- credentials of bus/schema.go, and the channels of deploy/hosted/migrations/008_channels.sql.
use october_bus.Base.{ℕ, String, Bool, Option, List}
use october_bus.Protocol.{MessageParticipantKind}

-- output_streams
pub record StreamRow : Type 0 where
  pub stream_id : String
  pub scope_id : String
  pub name : String
  pub retention_limit : ℕ
  pub sequence : ℕ
  pub floor_sequence : ℕ
  pub created_at : ℕ
  pub updated_at : ℕ

-- output_stream_publishers
pub record PublisherRow : Type 0 where
  pub stream_id : String
  pub scope_id : String
  pub agent_id : String

-- output_values; `value` and `reference` are the JSON texts
pub record ValueRow : Type 0 where
  pub stream_id : String
  pub sequence : ℕ
  pub producer_type : String
  pub producer_id : String
  pub content_type : String
  pub value : String
  pub reference : Option String
  pub created_at : ℕ

-- output_rate_usage
pub record UsageRow : Type 0 where
  pub scope_id : String
  pub principal_type : String
  pub principal_id : String
  pub window_start : ℕ
  pub publish_count : ℕ
  pub read_count : ℕ

-- scoped_credentials
pub record CredentialRow : Type 0 where
  pub credential_id : String
  pub scope_id : String
  pub label : String
  pub token_hash : String
  pub enabled : Bool
  pub created_at : ℕ
  pub updated_at : ℕ

-- scoped_credential_grants
pub record GrantRow : Type 0 where
  pub credential_id : String
  pub resource_type : String
  pub resource_id : String
  pub permission : String

pub record ChannelRow : Type 0 where
  pub scope_id : String
  pub channel_id : String
  pub name : String
  pub description : String
  pub created_at : ℕ

-- channel_subscriptions
pub record SubscriptionRow : Type 0 where
  pub scope_id : String
  pub channel_id : String
  pub agent_id : String
  pub created_at : ℕ

-- channel_posts
pub record PostRow : Type 0 where
  pub scope_id : String
  pub post_id : String
  pub channel_id : String
  pub author_kind : MessageParticipantKind
  pub author_id : String
  pub body : String
  pub search_body : String
  pub thread_id : Option String
  pub idempotency_key : Option String
  pub request_hash : String
  pub created_at : ℕ

pub record Resources : Type 0 where
  pub streams : List StreamRow
  pub publishers : List PublisherRow
  pub values : List ValueRow
  pub usage : List UsageRow
  pub credentials : List CredentialRow
  pub grants : List GrantRow
  pub channels : List ChannelRow
  pub subscriptions : List SubscriptionRow
  pub posts : List PostRow
