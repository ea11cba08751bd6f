-- ===== src/Protocol.antt =====
-- bus/protocol.go and bus/errors.go: the enumerations, the inputs of the operations, the error
-- codes and their HTTP status. An error keeps its code; its message text is not modelled.
use october_bus.Base.{ℕ, String, Bool, true, false, List}

pub data ErrorCode : Type 0 where
  invalid_argument unauthenticated permission_denied not_found : ErrorCode
  method_not_allowed conflict backpressure internal : ErrorCode

unfoldable pub error_status : ErrorCode → ℕ
error_status ErrorCode.invalid_argument = 400
error_status ErrorCode.unauthenticated = 401
error_status ErrorCode.permission_denied = 403
error_status ErrorCode.not_found = 404
error_status ErrorCode.method_not_allowed = 405
error_status ErrorCode.conflict = 409
error_status ErrorCode.backpressure = 429
error_status ErrorCode.internal = 500

pub data AgentLifecycle : Type 0 where
  starting ready working idle needs_input offline : AgentLifecycle

pub data MessageMode : Type 0 where
  notify request response : MessageMode

pub data MessageParticipantKind : Type 0 where
  agent human a2a_principal : MessageParticipantKind

pub data DeliveryState : Type 0 where
  queued reserved delivered acknowledged expired : DeliveryState

-- `opened` is the status that the source spells "open".
pub data TaskStatus : Type 0 where
  opened claimed done : TaskStatus

pub data EscalationStatus : Type 0 where
  pending resolved cancelled : EscalationStatus

pub data A2aTaskState : Type 0 where
  submitted working input_required completed failed canceled rejected : A2aTaskState

-- Comparisons of the enumerations.
abbrev pub same_kind : MessageParticipantKind → MessageParticipantKind → Bool
same_kind MessageParticipantKind.agent MessageParticipantKind.agent = true
same_kind MessageParticipantKind.human MessageParticipantKind.human = true
same_kind MessageParticipantKind.a2a_principal MessageParticipantKind.a2a_principal = true
same_kind _ _ = false

abbrev pub same_lifecycle : AgentLifecycle → AgentLifecycle → Bool
same_lifecycle AgentLifecycle.starting AgentLifecycle.starting = true
same_lifecycle AgentLifecycle.ready AgentLifecycle.ready = true
same_lifecycle AgentLifecycle.working AgentLifecycle.working = true
same_lifecycle AgentLifecycle.idle AgentLifecycle.idle = true
same_lifecycle AgentLifecycle.needs_input AgentLifecycle.needs_input = true
same_lifecycle AgentLifecycle.offline AgentLifecycle.offline = true
same_lifecycle _ _ = false

abbrev pub same_a2a_state : A2aTaskState → A2aTaskState → Bool
same_a2a_state A2aTaskState.submitted A2aTaskState.submitted = true
same_a2a_state A2aTaskState.working A2aTaskState.working = true
same_a2a_state A2aTaskState.input_required A2aTaskState.input_required = true
same_a2a_state A2aTaskState.completed A2aTaskState.completed = true
same_a2a_state A2aTaskState.failed A2aTaskState.failed = true
same_a2a_state A2aTaskState.canceled A2aTaskState.canceled = true
same_a2a_state A2aTaskState.rejected A2aTaskState.rejected = true
same_a2a_state _ _ = false

abbrev pub is_request : MessageMode → Bool
is_request MessageMode.request = true
is_request _ = false

abbrev pub is_response : MessageMode → Bool
is_response MessageMode.response = true
is_response _ = false

-- state NOT IN ('acknowledged','expired')
abbrev pub is_active : DeliveryState → Bool
is_active DeliveryState.acknowledged = false
is_active DeliveryState.expired = false
is_active _ = true

-- state IN ('queued','delivered')
abbrev pub is_waiting : DeliveryState → Bool
is_waiting DeliveryState.queued = true
is_waiting DeliveryState.delivered = true
is_waiting _ = false

abbrev pub is_reserved : DeliveryState → Bool
is_reserved DeliveryState.reserved = true
is_reserved _ = false

abbrev pub is_delivered : DeliveryState → Bool
is_delivered DeliveryState.delivered = true
is_delivered _ = false

abbrev pub is_expired : DeliveryState → Bool
is_expired DeliveryState.expired = true
is_expired _ = false

abbrev pub is_open : TaskStatus → Bool
is_open TaskStatus.opened = true
is_open _ = false

abbrev pub is_claimed : TaskStatus → Bool
is_claimed TaskStatus.claimed = true
is_claimed _ = false

abbrev pub is_done : TaskStatus → Bool
is_done TaskStatus.done = true
is_done _ = false

abbrev pub is_pending : EscalationStatus → Bool
is_pending EscalationStatus.pending = true
is_pending _ = false

pub record AgentCapability : Type 0 where
  pub name : String
  pub description : String

pub record ContextItem : Type 0 where
  pub kind : String
  pub title : String
  pub text : String
  pub uri : String
  pub media_type : String

-- `Principal` of bus/store.go: the execution that a request speaks for.
pub record Principal : Type 0 where
  pub scope_id : String
  pub agent_id : String
  pub execution_id : String

pub record RegisterAgentInput : Type 0 where
  pub id : String
  pub display_name : String
  pub capabilities : List AgentCapability
  pub lease_ms : ℕ
  pub connect_to : List String
  pub connect_workspace : Bool

pub record HeartbeatInput : Type 0 where
  pub lifecycle : AgentLifecycle
  pub ready : Bool
  pub lease_ms : ℕ

-- `mode` is the mode of the input, an absent one read as `notify`.
pub record SendMessageInput : Type 0 where
  pub to : String
  pub body : String
  pub mode : MessageMode
  pub response_to : String
  pub idempotency_key : String
  pub expires_in_ms : ℕ
  pub context : List ContextItem

pub record AddTaskInput : Type 0 where
  pub title : String
  pub description : String
  pub dependencies : List String

pub record AddTaskProgressInput : Type 0 where
  pub kind : String
  pub text : String

-- bus/channels.go
pub record CreateChannelInput : Type 0 where
  pub name : String
  pub description : String

pub record PostChannelInput : Type 0 where
  pub channel_id : String
  pub body : String
  pub thread_id : String
  pub idempotency_key : String

pub record ChannelHistoryInput : Type 0 where
  pub channel_id : String
  pub thread_id : String
  pub query : String
  pub before : String
  pub limit : ℕ

pub record AcceptA2aMessageInput : Type 0 where
  pub task_id : String
  pub context_id : String
  pub client_message_id : String
  pub body : String

pub record CreateOutputStreamInput : Type 0 where
  pub name : String
  pub retention_limit : ℕ
  pub publisher_agent_ids : List String

-- What PublishOutput gets after validation: the JSON texts of the value and of its reference.
pub record PublishOutputInput : Type 0 where
  pub content_type : String
  pub value : String
  pub reference : String

pub record AskHumanInput : Type 0 where
  pub question : String
  pub options : List String

-- How the enumerations are spelled.
unfoldable pub lifecycle_text : AgentLifecycle → String
lifecycle_text AgentLifecycle.starting = "starting"
lifecycle_text AgentLifecycle.ready = "ready"
lifecycle_text AgentLifecycle.working = "working"
lifecycle_text AgentLifecycle.idle = "idle"
lifecycle_text AgentLifecycle.needs_input = "needs_input"
lifecycle_text AgentLifecycle.offline = "offline"

unfoldable pub mode_text : MessageMode → String
mode_text MessageMode.notify = "notify"
mode_text MessageMode.request = "request"
mode_text MessageMode.response = "response"

unfoldable pub kind_text : MessageParticipantKind → String
kind_text MessageParticipantKind.agent = "agent"
kind_text MessageParticipantKind.human = "human"
kind_text MessageParticipantKind.a2a_principal = "a2aPrincipal"

unfoldable pub delivery_text : DeliveryState → String
delivery_text DeliveryState.queued = "queued"
delivery_text DeliveryState.reserved = "reserved"
delivery_text DeliveryState.delivered = "delivered"
delivery_text DeliveryState.acknowledged = "acknowledged"
delivery_text DeliveryState.expired = "expired"

unfoldable pub a2a_state_text : A2aTaskState → String
a2a_state_text A2aTaskState.submitted = "submitted"
a2a_state_text A2aTaskState.working = "working"
a2a_state_text A2aTaskState.input_required = "input-required"
a2a_state_text A2aTaskState.completed = "completed"
a2a_state_text A2aTaskState.failed = "failed"
a2a_state_text A2aTaskState.canceled = "canceled"
a2a_state_text A2aTaskState.rejected = "rejected"
