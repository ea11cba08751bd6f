-- ===== src/Delivery/Send.antt =====
-- sendMessageTx of bus/store.go, the one way by which a message enters a scope, and SendMessage.
pub mod Evolution
pub mod Admission
pub mod Limits
pub mod Repeats
use october_bus.Base.{
  ℕ, ◌+◌, String, Bool, true, false, not, Option, none, some, List, [], ◌∷◌, ◌&&◌, ltb, ◌==◌,
  if◌then◌else◌, ◌is◌,
}
use october_bus.Protocol.{
  ErrorCode, MessageMode, MessageParticipantKind, DeliveryState, Principal, SendMessageInput,
  same_kind, is_active, is_request, is_response, kind_text, mode_text, delivery_text,
}
use october_bus.World.{World, MessageRow, CorrelationRow, Attribute}
use october_bus.Rows.{find, count, holds, nullable_string, is_some}
use october_bus.Tx.{
  Tx, ◌>>=◌, ◌>>◌, pure, fail, gets, or_fail, ensure, when, now_millis, random_id, update_messages,
  insert_message, update_correlations,
}
use october_bus.Events.{append_event}
use october_bus.A2a.{transition_a2a_task_for_message, complete_answered}
use october_bus.Session.{Context, begin_tx, require_current_execution}
use october_bus.Peers.{linked_agents, agent_exists}
use october_bus.Delivery.{expire_messages}

-- Who sends: an agent, a human or a remote principal.
pub record Sender : Type 0 where
  pub kind : MessageParticipantKind
  pub id : String

abbrev pub message_backlog_cap : ℕ
message_backlog_cap = 10000

abbrev pub is_repeat : String → Sender → String → MessageRow → Bool
is_repeat scope_id sender key m =
    (m.scope_id is scope_id)
    && (same_kind m.from_kind sender.kind
        && ((m.from_id is sender.id) && holds m.idempotency_key key))

-- The message that an idempotency key stands for already.
unfoldable pub earlier_message : World → String → Sender → String → Option MessageRow
earlier_message w scope_id sender key =
    if key is "" then none else find (is_repeat scope_id sender key) w.messages

abbrev pub is_request_row : String → String → MessageRow → Bool
is_request_row scope_id message_id m =
    (m.message_id is message_id) && ((m.scope_id is scope_id) && is_request m.mode)

-- The checks of a response, and the kind of participant that it goes to.
unfoldable pub answer_kind : String → Sender → SendMessageInput → Tx MessageParticipantKind
answer_kind scope_id sender input = do
  ensure (not (input.response_to is "")) ErrorCode.invalid_argument
  found ← gets (λ w. find (is_request_row scope_id input.response_to) w.messages)
  r ← or_fail found ErrorCode.not_found
  ensure (same_kind r.to_kind sender.kind && ((r.to_id is sender.id) && (r.from_id is input.to)))
      ErrorCode.not_found
  ensure (is_some r.delivered_at) ErrorCode.conflict
  ensure (not (is_some r.replied_at)) ErrorCode.conflict
  pure r.from_kind

unfoldable pub recipient_kind : String → Sender → SendMessageInput → Tx MessageParticipantKind
recipient_kind scope_id sender input =
    if is_response input.mode then answer_kind scope_id sender input else do
      ensure (input.response_to is "") ErrorCode.invalid_argument
      pure MessageParticipantKind.agent

-- An agent writes to its linked peers only, but for the notification of a channel.
unfoldable pub check_recipient :
    String → Bool → Sender → MessageParticipantKind → String → Tx (Unit {0})
check_recipient scope_id channel_notification sender to_kind to =
    if same_kind sender.kind MessageParticipantKind.agent
      && (same_kind to_kind MessageParticipantKind.agent && not channel_notification)
    then (do
      linked ← gets (λ w. linked_agents w scope_id sender.id to)
      ensure linked ErrorCode.permission_denied)
    else if same_kind to_kind MessageParticipantKind.agent
    then (do present ← gets (λ w. agent_exists w scope_id to); ensure present ErrorCode.not_found)
    else pure tt

-- state NOT IN ('acknowledged','expired') in the scope
abbrev pub is_unfinished : String → MessageRow → Bool
is_unfinished scope_id m = (m.scope_id is scope_id) && is_active m.state

unfoldable pub check_backlog : String → Tx (Unit {0})
check_backlog scope_id = do
  backlog ← gets (λ w. count (is_unfinished scope_id) w.messages)
  ensure (ltb backlog message_backlog_cap) ErrorCode.backpressure

abbrev pub expiry : ℕ → ℕ → Option ℕ
expiry now expires_in_ms = if ltb 0 expires_in_ms then some (now + expires_in_ms) else none

-- The row of a new message. One for a remote principal counts as delivered and acknowledged.
unfoldable pub new_message :
    String → Sender → MessageParticipantKind → SendMessageInput → String → String → ℕ → MessageRow
new_message scope_id sender to_kind input hash message_id now = record {
  message_id = message_id;
  scope_id = scope_id;
  from_kind = sender.kind;
  from_id = sender.id;
  to_kind = to_kind;
  to_id = input.to;
  mode = input.mode;
  body = input.body;
  context = input.context;
  response_to = nullable_string input.response_to;
  idempotency_key = nullable_string input.idempotency_key;
  request_hash = hash;
  state =
      if same_kind to_kind MessageParticipantKind.a2a_principal
      then DeliveryState.acknowledged
      else DeliveryState.queued;
  reservation_id = none;
  created_at = now;
  expires_at = expiry now input.expires_in_ms;
  delivered_at = if same_kind to_kind MessageParticipantKind.a2a_principal then some now else none;
  acknowledged_at =
      if same_kind to_kind MessageParticipantKind.a2a_principal then some now else none;
  replied_at = none;
  response_message_id = none;
}

abbrev pub accepted_attributes : MessageRow → String → List (String × Attribute)
accepted_attributes m response_to =
    ("from", Attribute.text m.from_id)
    ∷ ("fromKind", Attribute.text (kind_text m.from_kind))
    ∷ ("to", Attribute.text m.to_id)
    ∷ ("toKind", Attribute.text (kind_text m.to_kind))
    ∷ ("mode", Attribute.text (mode_text m.mode))
    ∷ ("state", Attribute.text (delivery_text m.state))
    ∷ ("responseTo", Attribute.text response_to)
    ∷ []

-- The request that a response answers, while it has no answer.
abbrev pub is_answered_by :
    String → Sender → MessageParticipantKind → SendMessageInput → MessageRow → Bool
is_answered_by scope_id sender to_kind input m =
    (m.message_id is input.response_to)
    && ((m.scope_id is scope_id)
        && (same_kind m.from_kind to_kind
            && ((m.from_id is input.to)
                && (same_kind m.to_kind sender.kind
                    && ((m.to_id is sender.id) && not (is_some m.replied_at))))))

abbrev pub answer_row : ℕ → String → MessageRow → MessageRow
answer_row now message_id m = record m {
  replied_at = some now;
  response_message_id = some message_id;
}

unfoldable pub record_answer :
    String → Sender → MessageParticipantKind → SendMessageInput → String → ℕ → Tx (Unit {0})
record_answer scope_id sender to_kind input message_id now = do
  changed ←
      update_messages (is_answered_by scope_id sender to_kind input) (answer_row now message_id)
  ensure (changed == 1) ErrorCode.conflict
  append_event scope_id "message.replied" input.response_to
      (("responseMessageId", Attribute.text message_id)
        ∷ ("from", Attribute.text input.to)
        ∷ ("to", Attribute.text sender.id)
        ∷ [])
      now
  when (same_kind to_kind MessageParticipantKind.a2a_principal) (do
    update_correlations (λ (c : CorrelationRow). c.bus_request_message_id is input.response_to)
        (λ c. record c { bus_response_message_id = some message_id; updated_at = now })
    transition_a2a_task_for_message scope_id input.response_to complete_answered now)

unfoldable pub accept_message :
    String → Bool → Sender → SendMessageInput → String → ℕ → Tx MessageRow
accept_message scope_id channel_notification sender input hash now = do
  to_kind ← recipient_kind scope_id sender input
  check_recipient scope_id channel_notification sender to_kind input.to
  check_backlog scope_id
  message_id ← random_id "msg_"
  let m = new_message scope_id sender to_kind input hash message_id now
  append_event scope_id "message.accepted" message_id (accepted_attributes m input.response_to) now
  insert_message m
  when (is_response input.mode) (record_answer scope_id sender to_kind input message_id now)
  found ← gets (λ w. find (λ (r : MessageRow). r.message_id is message_id) w.messages)
  or_fail found ErrorCode.internal

-- The same key with the same content gets the message of the first time.
unfoldable pub resend : Option MessageRow → String → Tx MessageRow → Tx MessageRow
resend none hash new = new
resend (some m) hash new = if m.request_hash is hash then pure m else fail ErrorCode.conflict

unfoldable pub send_message_tx : String → Bool → Sender → SendMessageInput → Tx MessageRow
send_message_tx scope_id channel_notification sender input = do
  hash ← gets (λ w. w.hashes.message_hash input)
  now ← now_millis
  expire_messages scope_id now
  earlier ← gets (λ w. earlier_message w scope_id sender input.idempotency_key)
  resend earlier hash (accept_message scope_id channel_notification sender input hash now)

-- The receipt is read off the row: its id, state and times.
unfoldable pub send_message : Context → Principal → SendMessageInput → Tx MessageRow
send_message c p input = do
  begin_tx c
  now ← now_millis
  require_current_execution p now
  send_message_tx p.scope_id false (record { kind = MessageParticipantKind.agent; id = p.agent_id })
      input
