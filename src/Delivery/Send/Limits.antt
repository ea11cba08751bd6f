-- ===== src/Delivery/Send/Limits.antt =====
-- The admission of a message by sendMessageTx of bus/store.go: the backlog of its scope, and the link
-- of sender and recipient.
use october_bus.Base.{
  ℕ, ◌+◌, ◌≤◌, String, Bool, true, false, List, [], ◌∷◌, ◌++◌, ◌≡◌, refl, sym, ◌∙◌, arith, ap,
  subst, ltb, ◌is◌, Bool-cases, inl, inr,
}
use october_bus.Protocol.{MessageParticipantKind, SendMessageInput, same_kind, is_response}
use october_bus.World.{World, MessageRow}
use october_bus.Rows.{count}
use october_bus.Rows.Laws.{count-append, count-update_keeping}
use october_bus.Tx.{ok}
use october_bus.Tx.Success.{through, through_gets, through_ensure, pure-ok, ensure-ok}
use october_bus.Peers.{linked_agents}
use october_bus.Delivery.Send.{
  Sender, message_backlog_cap, recipient_kind, check_recipient, is_unfinished, new_message,
  is_answered_by, answer_row, accept_message,
}
use october_bus.Delivery.Send.Admission.{
  accept_message-IsAccepted, answered, recipient_kind-unchanged,
}

bounded : (n : ℕ) → ltb n message_backlog_cap ≡ true → n + 1 ≤ message_backlog_cap
bounded n h = ground arith

one_row : (s : String) (m : MessageRow) → count (is_unfinished s) (m ∷ []) ≤ 1
unfolding count
one_row s m = ground arith

answered-count :
    (s : String) (sender : Sender) (kind : MessageParticipantKind) (input : SendMessageInput)
    (now : ℕ) (id : String) (rows : List MessageRow)
    → count (is_unfinished s) (answered s sender kind input now id rows)
      ≡ count (is_unfinished s) rows
answered-count s sender kind input now id rows = elim (Bool-cases (is_response input.mode)) [
  | inl e ↦ rw e (
      count-update_keeping (is_unfinished s) (is_answered_by s sender kind input)
        (answer_row now id) (λ m k. refl) rows)
  | inr e ↦ rw e refl
]

-- A scope never holds more than 10000 messages in flight: no message is accepted that would make
-- it more, whoever sends it.
pub accept_message-backlog :
    (s : String) (channel : Bool) (sender : Sender) (input : SendMessageInput) (hash : String)
    (now : ℕ) (w : World) (m : MessageRow) (w' : World)
    → accept_message s channel sender input hash now w ≡ ok m w'
    → count (is_unfinished s) w'.messages ≤ message_backlog_cap
accept_message-backlog s channel sender input hash now w m w' h =
    let a = accept_message-IsAccepted s channel sender input hash now w m w' h in
    let row = new_message s sender a.kind input hash a.id now in
    let total : count (is_unfinished s) w'.messages
        ≡ count (is_unfinished s) w.messages + count (is_unfinished s) (row ∷ []) =
      ap (count (is_unfinished s)) a.messages
      ∙ answered-count s sender a.kind input now a.id (w.messages ++ row ∷ [])
      ∙ count-append (is_unfinished s) w.messages (row ∷ []) in
    let room = bounded (count (is_unfinished s) w.messages) a.room in
    let one = one_row s row in omega arith

fresh_recipient :
    (s : String) (sender : Sender) (input : SendMessageInput) (w : World)
    (kind : MessageParticipantKind) (w' : World)
    → is_response input.mode ≡ false
    → recipient_kind s sender input w ≡ ok kind w'
    → MessageParticipantKind.agent ≡ kind
unfolding recipient_kind
fresh_recipient s sender input w kind w' fresh h =
    through_ensure _ _ (input.response_to is "") (rw fresh at h) λ none_named h₁. (pure-ok h₁).0

check_recipient-linked :
    (s : String) (sender : Sender) (to : String) (w : World) (u : Unit {0}) (w' : World)
    → same_kind sender.kind MessageParticipantKind.agent ≡ true
    → check_recipient s false sender MessageParticipantKind.agent to w ≡ ok u w'
    → linked_agents w s sender.id to ≡ true
unfolding check_recipient
check_recipient-linked s sender to w u w' agent h =
    (ensure-ok _ _ (through_gets (λ w. linked_agents w s sender.id to) _ (rw agent at h))).0

-- What an agent writes, but for its answers and the notifications of channels, goes to an agent
-- that it is linked with.
pub accept_message-linked :
    (s : String) (sender : Sender) (input : SendMessageInput) (hash : String) (now : ℕ) (w : World)
    (m : MessageRow) (w' : World)
    → is_response input.mode ≡ false
    → same_kind sender.kind MessageParticipantKind.agent ≡ true
    → accept_message s false sender input hash now w ≡ ok m w'
    → linked_agents w s sender.id input.to ≡ true
unfolding accept_message
accept_message-linked s sender input hash now w m w' fresh agent h =
    through (recipient_kind s sender input) _ h λ kind w₁ e₁ h₁.
      through (check_recipient s false sender kind input.to) _ h₁ λ u₂ w₂ e₂ h₂.
        let same = (recipient_kind-unchanged s sender input).at w kind w₁ e₁ in
        let to_agent = fresh_recipient s sender input w kind w₁ fresh e₁ in
        subst (λ v. linked_agents v s sender.id input.to ≡ true) same
          (check_recipient-linked s sender input.to w₁ u₂ w₂ agent (
            subst (λ k. check_recipient s false sender k input.to w₁ ≡ ok u₂ w₂) (sym to_agent) e₂))
