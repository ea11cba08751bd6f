-- ===== src/World.antt =====
-- The tables of bus/schema.go with what a transaction reads beside them: the clock, the source of
-- random identifiers, and the hash functions, which are parameters. A nullable column is an
-- `Option`, a JSON column the value that it encodes, and a table the list of its rows in the order
-- of insertion.
pub mod Shared
pub use Shared.{
  Resources, StreamRow, PublisherRow, ValueRow, UsageRow, CredentialRow, GrantRow, ChannelRow,
  SubscriptionRow, PostRow,
}
use october_bus.Base.{ℕ, String, Bool, Option, List}
use october_bus.Protocol.{
  AgentLifecycle, MessageMode, MessageParticipantKind, DeliveryState, TaskStatus, EscalationStatus,
  A2aTaskState, AgentCapability, ContextItem, SendMessageInput, PostChannelInput,
  AcceptA2aMessageInput,
}

pub record ScopeRow : Type 0 where
  pub scope_id : String
  pub token_hash : String
  pub created_at : ℕ
  pub event_revision : ℕ
  pub event_floor_revision : ℕ

pub record AgentRow : Type 0 where
  pub scope_id : String
  pub agent_id : String
  pub display_name : String
  pub capabilities : List AgentCapability
  pub execution_id : String
  pub token_hash : String
  pub lifecycle : AgentLifecycle
  pub ready : Bool
  pub lease_expires_at : ℕ
  pub registered_at : ℕ
  pub updated_at : ℕ

pub record LinkRow : Type 0 where
  pub scope_id : String
  pub left_agent : String
  pub right_agent : String
  pub created_at : ℕ

pub record MessageRow : Type 0 where
  pub message_id : String
  pub scope_id : String
  pub from_kind : MessageParticipantKind
  pub from_id : String
  pub to_kind : MessageParticipantKind
  pub to_id : String
  pub mode : MessageMode
  pub body : String
  pub context : List ContextItem
  pub response_to : Option String
  pub idempotency_key : Option String
  pub request_hash : String
  pub state : DeliveryState
  pub reservation_id : Option String
  pub created_at : ℕ
  pub expires_at : Option ℕ
  pub delivered_at : Option ℕ
  pub acknowledged_at : Option ℕ
  pub replied_at : Option ℕ
  pub response_message_id : Option String

pub record ReservationRow : Type 0 where
  pub reservation_id : String
  pub scope_id : String
  pub agent_id : String
  pub created_at : ℕ
  pub expires_at : ℕ

pub record TaskRow : Type 0 where
  pub task_id : String
  pub scope_id : String
  pub title : String
  pub description : String
  pub created_by : Option String
  pub claimed_by : Option String
  pub claimed_execution_id : Option String
  pub status : TaskStatus
  pub dependencies : List String
  pub note : Option String
  pub created_at : ℕ
  pub updated_at : ℕ

pub record ProgressRow : Type 0 where
  pub task_id : String
  pub scope_id : String
  pub sequence : ℕ
  pub agent_id : String
  pub execution_id : String
  pub kind : String
  pub text : String
  pub created_at : ℕ

pub record EscalationRow : Type 0 where
  pub escalation_id : String
  pub scope_id : String
  pub agent_id : String
  pub question : String
  pub options : List String
  pub status : EscalationStatus
  pub answer : Option String
  pub created_at : ℕ
  pub resolved_at : Option ℕ

-- An attribute of an event before it is printed: a text, an instant in milliseconds, a number or
-- a flag.
pub data Attribute : Type 0 where
  text : String → Attribute
  instant : ℕ → Attribute
  number : ℕ → Attribute
  flag : Bool → Attribute

pub record EventRow : Type 0 where
  pub event_id : String
  pub scope_id : String
  pub revision : ℕ
  pub event_type : String
  pub subject_id : String
  pub attributes : List (String × Attribute)
  pub created_at : ℕ

pub record PublicationRow : Type 0 where
  pub publication_id : String
  pub scope_id : String
  pub agent_id : String
  pub enabled : Bool
  pub created_at : ℕ
  pub updated_at : ℕ

pub record A2aTaskRow : Type 0 where
  pub task_id : String
  pub scope_id : String
  pub context_id : String
  pub principal_id : String
  pub publication_id : String
  pub target_agent_id : String
  pub state : A2aTaskState
  pub created_at : ℕ
  pub updated_at : ℕ

pub record CorrelationRow : Type 0 where
  pub principal_id : String
  pub client_message_id : String
  pub task_id : String
  pub request_hash : String
  pub bus_request_message_id : String
  pub bus_response_message_id : Option String
  pub created_at : ℕ
  pub updated_at : ℕ

-- `tokenDigest`, `messageRequestHash`, `channelPostHash` and `a2aMessageRequestHash` are SHA-256 of
-- texts that the libraries encode; `to_lower` is strings.ToLower.
pub record Hashes : Type 0 where
  pub token_digest : String → String
  pub message_hash : SendMessageInput → String
  pub post_hash : PostChannelInput → String
  pub a2a_hash : AcceptA2aMessageInput → String
  pub to_lower : String → String

-- `clock` holds the readings of the clock to come, in milliseconds; `entropy` the random texts.
pub record World : Type 0 where
  pub scopes : List ScopeRow
  pub agents : List AgentRow
  pub links : List LinkRow
  pub messages : List MessageRow
  pub reservations : List ReservationRow
  pub tasks : List TaskRow
  pub progress : List ProgressRow
  pub escalations : List EscalationRow
  pub events : List EventRow
  pub publications : List PublicationRow
  pub a2a_tasks : List A2aTaskRow
  pub correlations : List CorrelationRow
  pub resources : Resources
  pub clock : ℕ → ℕ
  pub entropy : ℕ → String
  pub hashes : Hashes
