-- ===== src/Escalations.antt =====
-- The questions of agents to a human in bus/store.go. An answer closes the question and goes back
-- to the agent as a message.
pub mod Evolution
pub mod Caps
use october_bus.Base.{
  ℕ, String, Bool, true, false, Option, none, some, List, [], ◌∷◌, ◌&&◌, ltb, ◌==◌, if◌then◌else◌,
  ◌is◌,
}
use Prim.Native.String.{◌++◌ as ◌+++◌}
use october_bus.Protocol.{
  ErrorCode, EscalationStatus, MessageMode, MessageParticipantKind, Principal, AskHumanInput,
  SendMessageInput, is_pending,
}
use october_bus.World.{World, EscalationRow, Attribute}
use october_bus.Rows.{find, count, text_or_empty}
use october_bus.Tx.{
  Tx, ◌>>=◌, ◌>>◌, pure, fail, gets, or_fail, ensure, now_millis, random_id, update_escalations,
  insert_escalation,
}
use october_bus.Events.{append_event}
use october_bus.Session.{Context, begin_tx, require_current_execution}
use october_bus.Delivery.Send.{Sender, send_message_tx}

abbrev pub pending_escalation_cap_per_agent : ℕ
pending_escalation_cap_per_agent = 100

abbrev pub pending_escalation_cap_per_scope : ℕ
pending_escalation_cap_per_scope = 1000

abbrev pub is_escalation : String → String → EscalationRow → Bool
is_escalation scope_id escalation_id e =
    (e.scope_id is scope_id) && (e.escalation_id is escalation_id)

unfoldable pub escalation_from : String → String → Tx EscalationRow
escalation_from scope_id escalation_id = do
  found ← gets (λ w. find (is_escalation scope_id escalation_id) w.escalations)
  or_fail found ErrorCode.not_found

abbrev pub is_pending_of_agent : String → String → EscalationRow → Bool
is_pending_of_agent scope_id agent_id e =
    (e.scope_id is scope_id) && ((e.agent_id is agent_id) && is_pending e.status)

abbrev pub is_pending_of_scope : String → EscalationRow → Bool
is_pending_of_scope scope_id e = (e.scope_id is scope_id) && is_pending e.status

unfoldable pub check_escalation_caps : Principal → Tx (Unit {0})
check_escalation_caps p = do
  of_agent ← gets (λ w. count (is_pending_of_agent p.scope_id p.agent_id) w.escalations)
  ensure (ltb of_agent pending_escalation_cap_per_agent) ErrorCode.backpressure
  of_scope ← gets (λ w. count (is_pending_of_scope p.scope_id) w.escalations)
  ensure (ltb of_scope pending_escalation_cap_per_scope) ErrorCode.backpressure

-- Store.AskHuman
unfoldable pub ask_human : Context → Principal → AskHumanInput → Tx EscalationRow
ask_human c p input = do
  begin_tx c
  t ← now_millis
  require_current_execution p t
  check_escalation_caps p
  id ← random_id "ask_"
  now ← now_millis
  insert_escalation (record {
    escalation_id = id;
    scope_id = p.scope_id;
    agent_id = p.agent_id;
    question = input.question;
    options = input.options;
    status = EscalationStatus.pending;
    answer = none;
    created_at = now;
    resolved_at = none;
  })
  append_event p.scope_id "escalation.created" id
      (("agentId", Attribute.text p.agent_id) ∷ ("status", Attribute.text "pending") ∷ []) now
  escalation_from p.scope_id id

abbrev pub is_unresolved : String → String → EscalationRow → Bool
is_unresolved scope_id escalation_id e =
    (e.scope_id is scope_id) && ((e.escalation_id is escalation_id) && is_pending e.status)

abbrev pub resolved_row : String → ℕ → EscalationRow → EscalationRow
resolved_row answer now e = record e {
  status = EscalationStatus.resolved;
  answer = some answer;
  resolved_at = some now;
}

-- The message that carries the answer.
unfoldable pub answer_message : EscalationRow → SendMessageInput
answer_message e = record {
  to = e.agent_id;
  body =
      "Answer to your question ("
      +++ (e.escalation_id +++ ("):\n" +++ (e.question +++ ("\n\n" +++ text_or_empty e.answer))));
  mode = MessageMode.notify;
  response_to = "";
  idempotency_key = "human-answer:" +++ e.escalation_id;
  expires_in_ms = 0;
  context = [];
}

-- An unknown escalation is NOT_FOUND, and one that was resolved before is CONFLICT.
unfoldable pub explain_unresolved : String → String → Tx (Unit {0})
explain_unresolved scope_id escalation_id = do
  e ← escalation_from scope_id escalation_id
  fail ErrorCode.conflict

-- Store.ResolveEscalation, where the owner of the scope answers.
unfoldable pub resolve_escalation : Context → String → String → String → Tx EscalationRow
resolve_escalation c scope_id escalation_id answer = do
  begin_tx c
  now ← now_millis
  changed ← update_escalations (is_unresolved scope_id escalation_id) (resolved_row answer now)
  if changed == 1 then pure tt else explain_unresolved scope_id escalation_id
  e ← escalation_from scope_id escalation_id
  append_event scope_id "escalation.resolved" escalation_id
      (("agentId", Attribute.text e.agent_id) ∷ ("status", Attribute.text "resolved") ∷ []) now
  escalation ← escalation_from scope_id escalation_id
  send_message_tx scope_id false (record { kind = MessageParticipantKind.human; id = "owner" })
      (answer_message escalation)
  pure escalation
