-- ===== src/Delivery/Send/Admission.antt =====
-- What it takes for a message to enter a scope, and what is then in the table.
use october_bus.Base.{
  ℕ, some, not, ◌&&◌, arith, eq_iff, String, Bool, true, false, List, [], ◌∷◌, ◌++◌, ◌≡◌, refl, sym,
  ◌∙◌, ap, subst, ltb, ◌==◌, ◌is◌, if◌then◌else◌, Bool-cases, inl, inr,
}
use october_bus.Protocol.{
  ErrorCode, MessageParticipantKind, SendMessageInput, same_kind, is_response,
}
use october_bus.World.{World, MessageRow}
use october_bus.Rows.{count, exists, update, find, is_some}
use october_bus.Rows.Laws.{find_sound}
use october_bus.Tx.{ok, err, ◌>>=◌, gets, ensure, when, random_id, insert_message}
use october_bus.Tx.Keeps.{Keeps, Keeps-when, Keeps-bind, keeps_rules, ok_world}
use october_bus.Tx.Frame.{
  IsApart, still, still-random_id, still-append_event, still-update_correlations, still-transition,
}
use october_bus.Tx.Success.{
  through, through_gets, through_ensure, through_or_fail, through_update_messages, pure-ok,
  ensure-ok, or_fail-ok,
}
use october_bus.Events.{append_event}
use october_bus.Peers.{linked_agents, agent_exists}
use october_bus.Delivery.Send.{
  is_request_row, Sender, message_backlog_cap, answer_kind, recipient_kind, check_recipient,
  is_unfinished, check_backlog, new_message, is_answered_by, answer_row, record_answer,
  accept_message,
}

abbrev table : World → List MessageRow
table w = w.messages

pub table-IsApart : IsApart (λ (w : World). w.messages)
table-IsApart = record {
  clock = λ w c. refl;
  entropy = λ w c. refl;
  scopes = λ w rows. refl;
  events = λ w rows. refl;
  a2a_tasks = λ w rows. refl;
  correlations = λ w rows. refl;
  reservations = λ w rows. refl;
}

module _ (s : String) (sender : Sender) (input : SendMessageInput) where
  answer_kind-unchanged : Keeps (still (λ w. w)) (answer_kind s sender input)
  unfolding answer_kind
  answer_kind-unchanged = search keeps_rules depth 12

  pub recipient_kind-unchanged : Keeps (still (λ w. w)) (recipient_kind s sender input)
  unfolding recipient_kind
  recipient_kind-unchanged = search (keeps_rules, answer_kind-unchanged)

  pub check_recipient-unchanged :
      (channel : Bool) (kind : MessageParticipantKind) (to : String)
      → Keeps (still (λ w. w)) (check_recipient s channel sender kind to)
  unfolding check_recipient
  check_recipient-unchanged channel kind to = search keeps_rules

-- What a response answers: a request of the scope that went to the sender, was delivered and has no
-- answer yet.
pub record IsAnswer (s : String) (sender : Sender) (input : SendMessageInput)
    (kind : MessageParticipantKind) (w : World) : Type 0 where
  pub request : MessageRow
  pub found : find (is_request_row s input.response_to) w.messages ≡ some request
  pub from_kind : request.from_kind ≡ kind
  pub from : request.from_id ≡ input.to
  pub to_kind : same_kind request.to_kind sender.kind ≡ true
  pub to : request.to_id ≡ sender.id
  pub delivered : is_some request.delivered_at ≡ true
  pub unanswered : is_some request.replied_at ≡ false

-- Whom a message may go to: the sender of the request for a response, and an agent otherwise.
abbrev pub IsAddressed :
    Bool → String → Sender → SendMessageInput → MessageParticipantKind → World → Type 0
IsAddressed true s sender input kind w = IsAnswer s sender input kind w
IsAddressed false s sender input kind w =
    (input.response_to ≡ "") × (kind ≡ MessageParticipantKind.agent)

-- Between agents a link, but for the notification of a channel; else the agent is there.
abbrev pub is_reachable : World → String → Bool → Sender → MessageParticipantKind → String → Bool
is_reachable w s channel sender kind to =
    if same_kind kind MessageParticipantKind.agent
    then (if same_kind sender.kind MessageParticipantKind.agent && not channel
        then linked_agents w s sender.id to
        else agent_exists w s to)
    else true

both : {a b : Bool} → (a && b) ≡ true → (a ≡ true) × (b ≡ true)
both h = (ground (arith, h), ground (arith, h))

answer_kind-ok :
    (s : String) (sender : Sender) (input : SendMessageInput) (w : World)
    (kind : MessageParticipantKind) (w' : World)
    → answer_kind s sender input w ≡ ok kind w'
    → IsAnswer s sender input kind w
unfolding answer_kind
answer_kind-ok s sender input w kind w' h = through_ensure _ _ _ h λ named h₁.
    through_or_fail _ _ (find (is_request_row s input.response_to) w.messages)
      (through_gets (λ w. find (is_request_row s input.response_to) w.messages) _ h₁)
      λ r found h₂.
        through_ensure _ _
          (same_kind r.to_kind sender.kind && ((r.to_id is sender.id) && (r.from_id is input.to)))
          h₂
          λ mine h₃. through_ensure _ _ (is_some r.delivered_at) h₃ λ delivered h₄.
            through_ensure _ _ (not (is_some r.replied_at)) h₄ λ open_yet h₅.
              let (k, rest) = both mine in
              let (to, from) = both rest in
              record {
                request = r;
                found = found;
                from_kind = (pure-ok h₅).0;
                from = (eq_iff r.from_id input.to).0 from;
                to_kind = k;
                to = (eq_iff r.to_id sender.id).0 to;
                delivered = delivered;
                unanswered = ground (arith, open_yet);
              }

recipient_kind-ok :
    (s : String) (sender : Sender) (input : SendMessageInput) (w : World)
    (kind : MessageParticipantKind) (w' : World)
    → recipient_kind s sender input w ≡ ok kind w'
    → IsAddressed (is_response input.mode) s sender input kind w
unfolding recipient_kind
recipient_kind-ok s sender input w kind w' h = elim (Bool-cases (is_response input.mode)) [
  | inl e ↦ rw e (answer_kind-ok s sender input w kind w' (rw e at h))
  | inr e ↦ rw e (
      through_ensure _ _ (input.response_to is "") (rw e at h)
        λ none_named h₁. ((eq_iff input.response_to "").0 none_named, sym (pure-ok h₁).0))
]

check_recipient-ok :
    (s : String) (channel : Bool) (sender : Sender) (kind : MessageParticipantKind) (to : String)
    (w : World) (u : Unit {0}) (w' : World)
    → check_recipient s channel sender kind to w ≡ ok u w'
    → is_reachable w s channel sender kind to ≡ true
unfolding check_recipient
check_recipient-ok s channel sender kind to w u w' h =
    elim (Bool-cases (same_kind sender.kind MessageParticipantKind.agent)) [
      | inl f ↦ elim (Bool-cases (same_kind kind MessageParticipantKind.agent)) [
        | inl e ↦ elim (Bool-cases channel) [
          | inl g ↦ rw (e, f, g) (there (rw (f, e, g) at h))
          | inr g ↦ rw (e, f, g) (linked (rw (f, e, g) at h))
        ]
        | inr e ↦ rw e refl
      ]
      | inr f ↦ elim (Bool-cases (same_kind kind MessageParticipantKind.agent)) [
        | inl e ↦ rw (e, f) (there (rw (f, e) at h))
        | inr e ↦ rw e refl
      ]
    ]
  where
    linked :
        (gets (λ w. linked_agents w s sender.id to) >>= λ b. ensure b ErrorCode.permission_denied) w
          ≡ ok u w'
        → linked_agents w s sender.id to ≡ true
    linked k = (ensure-ok _ _ (through_gets (λ w. linked_agents w s sender.id to) _ k)).0

    there :
        (gets (λ w. agent_exists w s to) >>= λ b. ensure b ErrorCode.not_found) w ≡ ok u w'
        → agent_exists w s to ≡ true
    there k = (ensure-ok _ _ (through_gets (λ w. agent_exists w s to) _ k)).0

check_backlog-ok :
    (s : String) (w : World) (u : Unit {0}) (w' : World)
    → check_backlog s w ≡ ok u w'
    → (ltb (count (is_unfinished s) w.messages) message_backlog_cap ≡ true) × (w ≡ w')
unfolding check_backlog
check_backlog-ok s w u w' h =
    ensure-ok _ _ (through_gets (λ w. count (is_unfinished s) w.messages) _ h)

insert_message-ok :
    (r : MessageRow) (w : World) (u : Unit {0}) (w' : World)
    → insert_message r w ≡ ok u w'
    → (exists (λ (m : MessageRow). m.message_id is r.message_id) w.messages ≡ false)
      × (w'.messages ≡ w.messages ++ r ∷ [])
unfolding insert_message
insert_message-ok r w u w' h =
    elim (Bool-cases (exists (λ (m : MessageRow). m.message_id is r.message_id) w.messages)) [
      | inl e ↦ absurd (differ (rw e at h))
      | inr e ↦ (e, grown (rw e at h))
    ]
  where
    differ : {c : ErrorCode} → err c ≡ ok u w' → ⊥
    differ k = cc

    grown :
        ok tt (record w { messages = w.messages ++ r ∷ [] }) ≡ ok u w'
        → w'.messages ≡ w.messages ++ r ∷ []
    grown k = sym (ap table (ok_world k))

-- What the table holds after a message, whose reply state is that of `answered`.
abbrev pub answered :
    String
    → Sender
    → MessageParticipantKind
    → SendMessageInput
    → ℕ
    → String
    → List MessageRow
    → List MessageRow
answered s sender kind input now id rows =
    if is_response input.mode
    then update (is_answered_by s sender kind input) (answer_row now id) rows
    else rows

-- A message was accepted: there was room, its name is new, and it stands behind the others.
pub record IsAccepted (s : String) (channel : Bool) (sender : Sender) (input : SendMessageInput)
    (hash : String) (now : ℕ) (w : World) (m : MessageRow) (w' : World) : Type 0 where
  pub kind : MessageParticipantKind
  pub id : String
  pub named : m.message_id ≡ id
  pub addressed : IsAddressed (is_response input.mode) s sender input kind w
  pub reachable : is_reachable w s channel sender kind input.to ≡ true
  pub room : ltb (count (is_unfinished s) w.messages) message_backlog_cap ≡ true
  pub fresh : exists (λ (m : MessageRow). m.message_id is id) w.messages ≡ false
  pub messages :
      w'.messages
      ≡ answered s sender kind input now id
          (w.messages ++ new_message s sender kind input hash id now ∷ [])

record_answer-ok :
    (s : String) (sender : Sender) (kind : MessageParticipantKind) (input : SendMessageInput)
    (id : String) (now : ℕ) (w : World) (u : Unit {0}) (w' : World)
    → record_answer s sender kind input id now w ≡ ok u w'
    → (count (is_answered_by s sender kind input) w.messages == 1 ≡ true)
      × (w'.messages ≡ update (is_answered_by s sender kind input) (answer_row now id) w.messages)
unfolding record_answer
record_answer-ok s sender kind input id now w u w' h =
    through_update_messages (is_answered_by s sender kind input) (answer_row now id) _ w h
      λ w₁ updated h₁.
        through_ensure _ _ (count (is_answered_by s sender kind input) w.messages == 1) h₁ λ one h₂.
          through (append_event s _ input.response_to _ now) _ h₂ λ u₂ w₂ e₂ h₃. (
            one,
            (Keeps-when (still table) (same_kind kind MessageParticipantKind.a2a_principal) _ (λ _.
                    Keeps-bind (still table) _ _ (still-update_correlations table table-IsApart _ _)
                      (λ _. still-transition table table-IsApart s _ _ now))).at
                  w₂ u w' h₃
                ∙ (still-append_event table table-IsApart s _ input.response_to _ now).at w₁ u₂ w₂
                    e₂
                ∙ updated,
          )

answered-ok :
    (s : String) (sender : Sender) (kind : MessageParticipantKind) (input : SendMessageInput)
    (id : String) (now : ℕ) (w : World) (u : Unit {0}) (w' : World)
    → when (is_response input.mode) (record_answer s sender kind input id now) w ≡ ok u w'
    → w'.messages ≡ answered s sender kind input now id w.messages
unfolding when
answered-ok s sender kind input id now w u w' h = elim (Bool-cases (is_response input.mode)) [
  | inl e ↦ rw e (record_answer-ok s sender kind input id now w u w' (rw e at h)).1
  | inr e ↦ rw e (ap table (sym (pure-ok (rw e at h)).1))
]

pub accept_message-IsAccepted :
    (s : String) (channel : Bool) (sender : Sender) (input : SendMessageInput) (hash : String)
    (now : ℕ) (w : World) (m : MessageRow) (w' : World)
    → accept_message s channel sender input hash now w ≡ ok m w'
    → IsAccepted s channel sender input hash now w m w'
unfolding accept_message new_message
accept_message-IsAccepted s channel sender input hash now w m w' h =
    through (recipient_kind s sender input) _ h λ kind w₁ e₁ h₁.
      through (check_recipient s channel sender kind input.to) _ h₁ λ u₂ w₂ e₂ h₂.
        through (check_backlog s) _ h₂ λ u₃ w₃ e₃ h₃. through (random_id "msg_") _ h₃ λ id w₄ e₄ h₄.
          through (append_event s _ id _ now) _ h₄ λ u₅ w₅ e₅ h₅.
            through (insert_message _) _ h₅ λ u₆ w₆ e₆ h₆.
              through (when (is_response input.mode) _) _ h₆ λ u₇ w₇ e₇ h₇.
                let here : w₁ ≡ w = (recipient_kind-unchanged s sender input).at w kind w₁ e₁ in
                let (room, same₃) = check_backlog-ok s w₂ u₃ w₃ e₃ in
                let same₂ : w₂ ≡ w =
                  (check_recipient-unchanged s sender input channel kind input.to).at w₁ u₂ w₂ e₂
                  ∙ here in
                let log : w₅.messages ≡ w.messages =
                  (still-append_event table table-IsApart s _ id _ now).at w₄ u₅ w₅ e₅
                  ∙ (still-random_id table table-IsApart "msg_").at w₃ id w₄ e₄
                  ∙ ap table (sym same₃ ∙ same₂) in
                let (fresh, grown) = insert_message-ok _ w₅ u₆ w₆ e₆ in
                let (read, final) = or_fail-ok _ _ (through_gets _ _ h₇) in
                record {
                  kind = kind;
                  id = id;
                  named =
                      (eq_iff m.message_id id).0
                        (find_sound (λ (r : MessageRow). r.message_id is id) w₇.messages m read);
                  addressed = recipient_kind-ok s sender input w kind w₁ e₁;
                  reachable =
                      subst (λ v. is_reachable v s channel sender kind input.to ≡ true) here
                        (check_recipient-ok s channel sender kind input.to w₁ u₂ w₂ e₂);
                  room =
                      subst
                        (λ v. ltb (count (is_unfinished s) (table v)) message_backlog_cap ≡ true)
                        same₂ room;
                  fresh =
                      subst (λ rows. exists (λ (m : MessageRow). m.message_id is id) rows ≡ false)
                        log fresh;
                  messages =
                      ap table (sym final)
                      ∙ answered-ok s sender kind input id now w₆ u₇ w₇ e₇
                      ∙ ap (answered s sender kind input now id) (
                          grown
                          ∙ ap (λ rows. rows ++ new_message s sender kind input hash id now ∷ [])
                              log);
                }
