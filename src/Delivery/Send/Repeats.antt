-- ===== src/Delivery/Send/Repeats.antt =====
-- The idempotency key of sendMessageTx in bus/store.go: the row that a key stands for.
use october_bus.Base.{
  ℕ, String, Bool, true, false, Option, none, some, List, [], ◌∷◌, ◌++◌, ◌≡◌, refl, sym, ap, ◌∙◌,
  ◌is◌, eq_iff, if◌then◌else◌, Bool-cases, Option-cases, inl, inr,
}
use october_bus.Protocol.{
  ErrorCode, MessageParticipantKind, SendMessageInput, same_kind, is_response,
}
use october_bus.World.{World, MessageRow}
use october_bus.Rows.{find, update}
use october_bus.Rows.Keys.{find-append, find-update_any, changed}
use october_bus.Tx.{Tx, ok, err, fail, now_millis}
use october_bus.Tx.Success.{through, through_gets, pure-ok}
use october_bus.Evolution.{Evolves, Along, message_rule}
use october_bus.Evolution.Statements.{now_millis-Evolves}
use october_bus.Delivery.{expire_messages}
use october_bus.Delivery.Evolution.{expire_messages-Evolves}
use october_bus.Delivery.Send.{
  Sender, is_repeat, earlier_message, new_message, is_answered_by, answer_row, accept_message,
  resend, send_message_tx,
}
use october_bus.Delivery.Send.Admission.{IsAccepted, accept_message-IsAccepted}

-- A key stands for a row with this name and this hash.
pub record Stands (s : String) (sender : Sender) (key id hash : String) (w : World) : Type 0 where
  pub row : MessageRow
  pub found : find (is_repeat s sender key) w.messages ≡ some row
  pub named : row.message_id ≡ id
  pub hashed : row.request_hash ≡ hash

module _ (s : String) (sender : Sender) (key : String) where
  find-Along :
      (t : String) (xs ys : List MessageRow) (a : MessageRow)
      → find (is_repeat s sender key) xs ≡ some a
      → Along (message_rule t) xs ys
      → (b : MessageRow) × (find (is_repeat s sender key) ys ≡ some b)
        × (b.message_id ≡ a.message_id)
        × (b.request_hash ≡ a.request_hash)
  unfolding find
  find-Along t [] ys a h g = cc h
  find-Along t (x ∷ xs) [] a h g = absurd g
  find-Along t (x ∷ xs) (y ∷ ys) a h g =
      let same : is_repeat s sender key y ≡ is_repeat s sender key x =
        ap (is_repeat s sender key) g.0.content in
      elim (Bool-cases (is_repeat s sender key x)) [
        | inl e ↦
            (let first : some x ≡ some a = rw e at h in
              rw (same, e)
                (
                  y,
                  refl,
                  ap (λ (r : MessageRow). r.message_id) g.0.content
                      ∙ ap (λ (r : MessageRow). r.message_id) (injected first),
                  ap (λ (r : MessageRow). r.request_hash) g.0.content
                      ∙ ap (λ (r : MessageRow). r.request_hash) (injected first),
                ))
        | inr e ↦ rw (same, e) (find-Along t xs ys a (rw e at h) g.1)
      ]
    where
      injected : {a b : MessageRow} → some a ≡ some b → a ≡ b
      injected k = cc

  -- What a key stands for stays, whatever requests come.
  pub Stands-Evolves :
      (id hash t : String) (v w : World)
      → Evolves t v w
      → Stands s sender key id hash v
      → Stands s sender key id hash w
  Stands-Evolves id hash t v w e h =
      let (b, f, g, k) = find-Along t v.messages w.messages h.row h.found e.messages in
      record { row = b; found = f; named = g ∙ h.named; hashed = k ∙ h.hashed }

is_refl : (a : String) → (a is a) ≡ true
is_refl a = (eq_iff a a).1 refl

same_kind_refl : (k : MessageParticipantKind) → same_kind k k ≡ true
same_kind_refl MessageParticipantKind.agent = refl
same_kind_refl MessageParticipantKind.human = refl
same_kind_refl MessageParticipantKind.a2a_principal = refl

new_message-repeats :
    (s : String) (sender : Sender) (kind : MessageParticipantKind) (input : SendMessageInput)
    (hash id : String) (now : ℕ)
    → (input.idempotency_key is "") ≡ false
    → is_repeat s sender input.idempotency_key (new_message s sender kind input hash id now) ≡ true
unfolding new_message
new_message-repeats s sender kind input hash id now keyed =
    rw
      (
        is_refl s,
        same_kind_refl sender.kind,
        is_refl sender.id,
        keyed,
        is_refl input.idempotency_key,
      )
      refl

-- The table after an acceptance has the new row as the one of its key.
accepted-Stands :
    (s : String) (channel : Bool) (sender : Sender) (input : SendMessageInput) (hash : String)
    (now : ℕ) (w : World) (m : MessageRow) (w' : World)
    → (input.idempotency_key is "") ≡ false
    → find (is_repeat s sender input.idempotency_key) w.messages ≡ none
    → IsAccepted s channel sender input hash now w m w'
    → Stands s sender input.idempotency_key m.message_id hash w'
unfolding new_message
accepted-Stands s channel sender input hash now w m w' keyed absent a =
    elim (Bool-cases (is_response input.mode)) [
      | inl e ↦
          (let rows : w'.messages
                ≡ update (is_answered_by s sender a.kind input) (answer_row now a.id)
                    (w.messages ++ row ∷ []) =
              rw e at a.messages in
            record {
              row =
                  if is_answered_by s sender a.kind input row then answer_row now a.id row else row;
              found =
                  ap (find repeat) rows
                  ∙ find-update_any repeat (is_answered_by s sender a.kind input)
                      (answer_row now a.id) (λ x. refl) (w.messages ++ row ∷ [])
                  ∙ ap (changed (is_answered_by s sender a.kind input) (answer_row now a.id)) grown;
              named = named_either (is_answered_by s sender a.kind input row) ∙ sym a.named;
              hashed = hashed_either (is_answered_by s sender a.kind input row);
            })
      | inr e ↦
          (let rows : w'.messages ≡ w.messages ++ row ∷ [] = rw e at a.messages in
            record {
              row = row;
              found = ap (find repeat) rows ∙ grown;
              named = sym a.named;
              hashed = refl;
            })
    ]
  where
    row : MessageRow
    row = new_message s sender a.kind input hash a.id now

    repeat : MessageRow → Bool
    repeat = is_repeat s sender input.idempotency_key

    grown : find repeat (w.messages ++ row ∷ []) ≡ some row
    grown =
        find-append repeat w.messages row
        ∙ rw (absent, new_message-repeats s sender a.kind input hash a.id now keyed) refl

    named_either : (b : Bool) → (if b then answer_row now a.id row else row).message_id ≡ a.id
    named_either true = refl
    named_either false = refl

    hashed_either : (b : Bool) → (if b then answer_row now a.id row else row).request_hash ≡ hash
    hashed_either true = refl
    hashed_either false = refl

resend-ok :
    (o : Option MessageRow) (hash : String) (new : Tx MessageRow) (w : World) (m : MessageRow)
    (w' : World) (x : MessageRow)
    → o ≡ some x
    → resend o hash new w ≡ ok m w'
    → (m ≡ x) × (x.request_hash ≡ hash) × (w ≡ w')
unfolding resend fail
resend-ok o hash new w m w' x e h = elim (Bool-cases (x.request_hash is hash)) [
  | inl k ↦ (let (f, g) = pure-ok (rw (e, k) at h) in (sym f, (eq_iff x.request_hash hash).0 k, g))
  | inr k ↦ absurd (differ (rw (e, k) at h))
]
  where
    differ : err ErrorCode.conflict ≡ ok m w' → ⊥
    differ q = cc

earlier-found :
    (w : World) (s : String) (sender : Sender) (key : String)
    → (key is "") ≡ false
    → earlier_message w s sender key ≡ find (is_repeat s sender key) w.messages
unfolding earlier_message
earlier-found w s sender key keyed = rw keyed refl

-- A sending that succeeds leaves its key standing for the row that it answers with.
pub send_message_tx-Stands :
    (s : String) (channel : Bool) (sender : Sender) (input : SendMessageInput) (w : World)
    (m : MessageRow) (w' : World)
    → (input.idempotency_key is "") ≡ false
    → send_message_tx s channel sender input w ≡ ok m w'
    → Stands s sender input.idempotency_key m.message_id (w.hashes.message_hash input) w'
unfolding send_message_tx accept_message resend
send_message_tx-Stands s channel sender input w m w' keyed h =
    through now_millis _ (through_gets (λ w. w.hashes.message_hash input) _ h) λ now w₁ e₁ h₁.
      through (expire_messages s now) _ h₁ λ u₂ w₂ e₂ h₂.
        let h₃ = through_gets (λ w. earlier_message w s sender input.idempotency_key) _ h₂ in
        let read = earlier-found w₂ s sender input.idempotency_key keyed in
        elim (Option-cases (find (is_repeat s sender input.idempotency_key) w₂.messages)) [
          | inl none_yet ↦
              accepted-Stands s channel sender input (w.hashes.message_hash input) now w₂ m w' keyed
                none_yet
                (accept_message-IsAccepted s channel sender input (w.hashes.message_hash input) now
                  w₂ m w' (fresh w₂ now (read ∙ none_yet) h₃))
          | inr (x, there) ↦
              (let (same, hash, at) = resend-ok _ _ _ w₂ m w' x (read ∙ there) h₃ in
                record {
                  row = x;
                  found =
                      ap (λ (v : World). find (is_repeat s sender input.idempotency_key) v.messages)
                        (sym at)
                      ∙ there;
                  named = ap (λ (r : MessageRow). r.message_id) (sym same);
                  hashed = hash;
                })
        ]
  where
    fresh :
        (v : World) (now : ℕ)
        → earlier_message v s sender input.idempotency_key ≡ none
        → resend
            (earlier_message v s sender input.idempotency_key)
            (w.hashes.message_hash input)
            (accept_message s channel sender input (w.hashes.message_hash input) now)
            v
          ≡ ok m w'
        → accept_message s channel sender input (w.hashes.message_hash input) now v ≡ ok m w'
    fresh v now e k = rw e at k

-- A sending under a key that stands for a row answers with that row.
pub send_message_tx-repeats :
    (s : String) (channel : Bool) (sender : Sender) (input : SendMessageInput) (id hash : String)
    (w : World) (m : MessageRow) (w' : World)
    → (input.idempotency_key is "") ≡ false
    → Stands s sender input.idempotency_key id hash w
    → send_message_tx s channel sender input w ≡ ok m w'
    → (m.message_id ≡ id) × (w.hashes.message_hash input ≡ hash)
unfolding send_message_tx now_millis
send_message_tx-repeats s channel sender input id hash w m w' keyed stands h =
    through now_millis _ (through_gets (λ w. w.hashes.message_hash input) _ h) λ now w₁ e₁ h₁.
      through (expire_messages s now) _ h₁ λ u₂ w₂ e₂ h₂.
        let h₃ = through_gets (λ w. earlier_message w s sender input.idempotency_key) _ h₂ in
        let there =
          Stands-Evolves s sender input.idempotency_key id hash s w₁ w₂
            ((expire_messages-Evolves s now).at w₁ u₂ w₂ e₂)
            (Stands-Evolves s sender input.idempotency_key id hash s w w₁
              ((now_millis-Evolves s).at w now w₁ e₁) stands) in
        let (same, hashes, at) =
          resend-ok _ _ _ w₂ m w' there.row
            (earlier-found w₂ s sender input.idempotency_key keyed ∙ there.found) h₃ in
        (ap (λ (r : MessageRow). r.message_id) same ∙ there.named, sym hashes ∙ there.hashed)
