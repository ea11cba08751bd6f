-- ===== src/Delivery/Send/Evolution.antt =====
-- Accepting a message adds one sound row, and answers at most one request, once.
use october_bus.Base.{ℕ, String, Bool, true, Option, none, some, ◌≡◌, refl, arith, eq_iff}
use october_bus.Protocol.{MessageParticipantKind, Principal, SendMessageInput}
use october_bus.World.{MessageRow}
use october_bus.Rows.{is_some}
use october_bus.Tx.{Tx}
use october_bus.Tx.Keeps.{Keeps, keeps_rules}
use october_bus.Evolution.{evolution}
use october_bus.Evolution.Steps.{MessageStep, IsNewMessage}
use october_bus.Evolution.Statements.{statement_rules}
use october_bus.Events.Evolution.{append_event-Evolves}
use october_bus.A2a.Evolution.{transition-Evolves, complete_answered-SparesTerminal}
use october_bus.Session.{Context}
use october_bus.Session.Evolution.{begin_tx-Evolves, require_current_execution-Evolves}
use october_bus.Delivery.Evolution.{expire_messages-Evolves}
use october_bus.Delivery.Send.{
  Sender, answer_kind, recipient_kind, check_recipient, check_backlog, new_message, is_answered_by,
  answer_row, record_answer, accept_message, resend, send_message_tx, send_message,
}

new_message-IsNewMessage :
    (s : String) (sender : Sender) (to_kind : MessageParticipantKind) (input : SendMessageInput)
    (hash id : String) (now : ℕ)
    → IsNewMessage s (new_message s sender to_kind input hash id now)
unfolding new_message
new_message-IsNewMessage s sender MessageParticipantKind.agent input hash id now = ground arith
new_message-IsNewMessage s sender MessageParticipantKind.human input hash id now = ground arith
new_message-IsNewMessage s sender MessageParticipantKind.a2a_principal input hash id now =
    ground arith

answer_row-MessageStep :
    (s : String) (sender : Sender) (to_kind : MessageParticipantKind) (input : SendMessageInput)
    (now : ℕ) (id : String) (m : MessageRow)
    → is_answered_by s sender to_kind input m ≡ true
    → MessageStep s m (answer_row now id m)
answer_row-MessageStep s sender to_kind input now id m h = record {
  elsewhere = ground (arith, eq_iff m.scope_id s);
  content = refl;
  final = λ _. refl;
  delivered_once = λ _. refl;
  replied_once = λ k. absurd (open_request k);
  sound = λ k. record {
    reserved_held = k.reserved_held;
    delivered_timed = k.delivered_timed;
    acknowledged_timed = k.acknowledged_timed;
    queued_new = k.queued_new;
  };
}
  where
    open_request : is_some m.replied_at ≡ true → ⊥
    open_request k = ground arith

module _ (s : String) where
  answer_kind-Evolves :
      (sender : Sender) (input : SendMessageInput)
      → Keeps (evolution s) (answer_kind s sender input)
  unfolding answer_kind
  answer_kind-Evolves sender input = search keeps_rules depth 20

  recipient_kind-Evolves :
      (sender : Sender) (input : SendMessageInput)
      → Keeps (evolution s) (recipient_kind s sender input)
  unfolding recipient_kind
  recipient_kind-Evolves sender input = search (keeps_rules, answer_kind-Evolves) depth 12

  check_recipient-Evolves :
      (channel : Bool) (sender : Sender) (to_kind : MessageParticipantKind) (to : String)
      → Keeps (evolution s) (check_recipient s channel sender to_kind to)
  unfolding check_recipient
  check_recipient-Evolves channel sender to_kind to = search keeps_rules depth 12

  check_backlog-Evolves : Keeps (evolution s) (check_backlog s)
  unfolding check_backlog
  check_backlog-Evolves = search keeps_rules

  record_answer-Evolves :
      (sender : Sender) (to_kind : MessageParticipantKind) (input : SendMessageInput) (id : String)
      (now : ℕ)
      → Keeps (evolution s) (record_answer s sender to_kind input id now)
  unfolding record_answer
  record_answer-Evolves sender to_kind input id now =
      search
        (
          keeps_rules, statement_rules, append_event-Evolves, transition-Evolves,
          complete_answered-SparesTerminal, answer_row-MessageStep,
        )
        depth 20

  accept_message-Evolves :
      (channel : Bool) (sender : Sender) (input : SendMessageInput) (hash : String) (now : ℕ)
      → Keeps (evolution s) (accept_message s channel sender input hash now)
  unfolding accept_message
  accept_message-Evolves channel sender input hash now =
      search
        (
          keeps_rules, statement_rules, append_event-Evolves, recipient_kind-Evolves,
          check_recipient-Evolves, check_backlog-Evolves, record_answer-Evolves,
          new_message-IsNewMessage,
        )
        depth 24

  resend-Evolves :
      (earlier : Option MessageRow) (hash : String) (new : Tx MessageRow)
      → Keeps (evolution s) new
      → Keeps (evolution s) (resend earlier hash new)
  unfolding resend
  resend-Evolves none hash new k = k
  resend-Evolves (some m) hash new k = search keeps_rules

  pub send_message_tx-Evolves :
      (channel : Bool) (sender : Sender) (input : SendMessageInput)
      → Keeps (evolution s) (send_message_tx s channel sender input)
  unfolding send_message_tx
  send_message_tx-Evolves channel sender input =
      search
        (
          keeps_rules, statement_rules, expire_messages-Evolves, resend-Evolves,
          accept_message-Evolves,
        )
        depth 12

pub send_message-Evolves :
    (c : Context) (p : Principal) (input : SendMessageInput)
    → Keeps (evolution p.scope_id) (send_message c p input)
unfolding send_message
send_message-Evolves c p input =
    search
      (
        keeps_rules, statement_rules, begin_tx-Evolves, require_current_execution-Evolves,
        send_message_tx-Evolves,
      )
      depth 12
