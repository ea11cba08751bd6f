-- ===== src/Delivery/Inbox.antt =====
-- The inbox of an agent in bus/store.go: messages are reserved, then committed or released, and
-- acknowledged at last.
pub mod Evolution
pub mod Reservations
pub mod Order
pub mod Commits
use october_bus.Base.{
  ℕ, ◌+◌, String, Bool, true, false, not, Option, none, some, List, [], ◌∷◌, ◌&&◌, ◌||◌, ltb, leb,
  ◌==◌, if◌then◌else◌, ◌is◌, take, map,
}
use october_bus.Protocol.{
  ErrorCode, MessageParticipantKind, DeliveryState, Principal, same_kind, is_waiting, is_reserved,
  is_delivered,
}
use october_bus.World.{World, MessageRow, ReservationRow}
use october_bus.Rows.{select, find, sort_by, is_some, unique}
use october_bus.Tx.{
  Tx, ◌>>=◌, ◌>>◌, pure, gets, or_fail, when, for_each, now_millis, random_id, update_messages,
  insert_reservation, delete_reservations, Reply, value, error,
}
use october_bus.Events.{append_event}
use october_bus.A2a.{transition_a2a_task_for_message, start_submitted}
use october_bus.Session.{Context, begin_tx, require_current_execution}
use october_bus.Delivery.{
  addressed_to, has_expired, delivery_attributes, is_held, is_reservation, expire_messages,
  release_reservation,
}

abbrev pub reservation_ttl : ℕ
reservation_ttl = 30000

-- expires_at IS NULL OR expires_at > now
abbrev pub is_available : String → String → ℕ → MessageRow → Bool
is_available scope_id agent_id now m =
    addressed_to scope_id agent_id m && (is_waiting m.state && not (has_expired now m.expires_at))

abbrev pub is_waiting_for : String → String → String → MessageRow → Bool
is_waiting_for scope_id agent_id message_id m =
    (m.message_id is message_id) && (addressed_to scope_id agent_id m && is_waiting m.state)

abbrev pub reserve_row : String → MessageRow → MessageRow
reserve_row reservation_id m = record m {
  state = DeliveryState.reserved;
  reservation_id = some reservation_id;
}

-- ORDER BY created_at
abbrev pub older : MessageRow → MessageRow → Bool
older m n = leb m.created_at n.created_at

unfoldable pub reserve_message : Principal → String → ℕ → MessageRow → Tx MessageRow
reserve_message p reservation_id now m = do
  changed ←
      update_messages (is_waiting_for p.scope_id p.agent_id m.message_id)
        (reserve_row reservation_id)
  if changed == 1
      then (do
        append_event p.scope_id "message.reserved" m.message_id
            (delivery_attributes m DeliveryState.reserved) now
        pure (record m { state = DeliveryState.reserved }))
      else pure m

unfoldable pub reserve_each : Principal → String → ℕ → List MessageRow → Tx (List MessageRow)
reserve_each p reservation_id now [] = pure []
reserve_each p reservation_id now (m ∷ messages) = do
  first ← reserve_message p reservation_id now m
  rest ← reserve_each p reservation_id now messages
  pure (first ∷ rest)

abbrev pub is_lapsed : String → ℕ → ReservationRow → Bool
is_lapsed scope_id now r = (r.scope_id is scope_id) && leb r.expires_at now

pub record InboxReservation : Type 0 where
  pub id : String
  pub expires_at : ℕ
  pub messages : List MessageRow

unfoldable pub reserve_found : Principal → ℕ → List MessageRow → Tx (Option InboxReservation)
reserve_found p now [] = pure none
reserve_found p now (m ∷ rest) = do
  reservation_id ← random_id "res_"
  insert_reservation (record {
    reservation_id = reservation_id;
    scope_id = p.scope_id;
    agent_id = p.agent_id;
    created_at = now;
    expires_at = now + reservation_ttl;
  })
  messages ← reserve_each p reservation_id now (m ∷ rest)
  pure (
      some
        (record { id = reservation_id; expires_at = now + reservation_ttl; messages = messages }))

-- The expired reservations of the scope are released, whosever they are.
unfoldable pub release_lapsed_reservations : String → ℕ → Tx (Unit {0})
release_lapsed_reservations scope_id now = do
  lapsed ← gets (λ w. select (is_lapsed scope_id now) w.reservations)
  for_each lapsed (λ r. release_reservation r.scope_id r.agent_id r.reservation_id)

-- Store.ReserveInbox: the oldest messages, at most `limit`.
unfoldable pub reserve_inbox : Context → Principal → ℕ → Tx (Option InboxReservation)
reserve_inbox c p limit = do
  begin_tx c
  now ← now_millis
  require_current_execution p now
  expire_messages p.scope_id now
  release_lapsed_reservations p.scope_id now
  found ←
      gets (λ w.
        take limit (sort_by older (select (is_available p.scope_id p.agent_id now) w.messages)))
  reserve_found p now found

-- COALESCE(delivered_at, now)
abbrev pub first_time : Option ℕ → ℕ → Option ℕ
first_time none now = some now
first_time (some t) now = some t

abbrev pub deliver_row : ℕ → MessageRow → MessageRow
deliver_row now m = record m {
  state = DeliveryState.delivered;
  delivered_at = first_time m.delivered_at now;
  reservation_id = none;
}

unfoldable pub announce_delivery : String → ℕ → MessageRow → Tx (Unit {0})
announce_delivery scope_id now m = do
  when (same_kind m.from_kind MessageParticipantKind.a2a_principal)
      (transition_a2a_task_for_message scope_id m.message_id start_submitted now)
  append_event scope_id "message.delivered" m.message_id
      (delivery_attributes m DeliveryState.delivered) now

-- The part of CommitInbox for a reservation that holds.
unfoldable pub commit_held : Principal → String → Tx (Reply (List MessageRow))
commit_held p reservation_id = do
  now ← now_millis
  expire_messages p.scope_id now
  held ←
      gets (λ w. sort_by older (select (is_held p.scope_id p.agent_id reservation_id) w.messages))
  delivered_at ← now_millis
  update_messages (is_held p.scope_id p.agent_id reservation_id) (deliver_row delivered_at)
  delete_reservations (λ r. r.reservation_id is reservation_id)
  for_each held (announce_delivery p.scope_id delivered_at)
  pure (value (map (deliver_row delivered_at) held))

-- A reservation that has lapsed is released, which is committed, and the caller gets an error.
unfoldable pub release_lapsed : Principal → String → Tx (Reply (List MessageRow))
release_lapsed p reservation_id = do
  release_reservation p.scope_id p.agent_id reservation_id
  pure (error ErrorCode.conflict)

-- Store.CommitInbox
unfoldable pub commit_inbox : Context → Principal → String → Tx (Reply (List MessageRow))
commit_inbox c p reservation_id = do
  begin_tx c
  t ← now_millis
  require_current_execution p t
  found ← gets (λ w. find (is_reservation p.scope_id p.agent_id reservation_id) w.reservations)
  r ← or_fail found ErrorCode.not_found
  now ← now_millis
  if leb r.expires_at now then release_lapsed p reservation_id else commit_held p reservation_id

-- Store.ReleaseInbox
unfoldable pub release_inbox : Context → Principal → String → Tx (Unit {0})
release_inbox c p reservation_id = do
  begin_tx c
  t ← now_millis
  require_current_execution p t
  now ← now_millis
  expire_messages p.scope_id now
  release_reservation p.scope_id p.agent_id reservation_id

abbrev pub is_to_acknowledge : String → String → String → MessageRow → Bool
is_to_acknowledge scope_id agent_id message_id m =
    (m.message_id is message_id) && (addressed_to scope_id agent_id m && is_delivered m.state)

abbrev pub acknowledge_row : ℕ → MessageRow → MessageRow
acknowledge_row now m = record m { state = DeliveryState.acknowledged; acknowledged_at = some now }

unfoldable pub announce_acknowledged : String → String → ℕ → Tx (Unit {0})
announce_acknowledged scope_id message_id now = do
  found ← gets (λ w. find (λ (m : MessageRow). m.message_id is message_id) w.messages)
  m ← or_fail found ErrorCode.internal
  append_event scope_id "message.acknowledged" message_id
      (delivery_attributes m DeliveryState.acknowledged) now

unfoldable pub acknowledge_message : Principal → String → Tx ℕ
acknowledge_message p message_id = do
  now ← now_millis
  changed ←
      update_messages (is_to_acknowledge p.scope_id p.agent_id message_id) (acknowledge_row now)
  when (changed == 1) (announce_acknowledged p.scope_id message_id now)
  pure changed

-- The loop of AcknowledgeMessages with its count.
unfoldable pub acknowledge_each : Principal → ℕ → List String → Tx ℕ
acknowledge_each p total [] = pure total
acknowledge_each p total (message_id ∷ rest) = do
  changed ← acknowledge_message p message_id
  acknowledge_each p (total + changed) rest

-- Store.AcknowledgeMessages
unfoldable pub acknowledge_messages : Context → Principal → List String → Tx ℕ
acknowledge_messages c p message_ids = do
  begin_tx c
  t ← now_millis
  require_current_execution p t
  now ← now_millis
  expire_messages p.scope_id now
  acknowledge_each p 0 (unique message_ids)

abbrev pub is_party : String → String → String → MessageRow → Bool
is_party scope_id agent_id message_id m =
    (m.message_id is message_id)
    && ((m.scope_id is scope_id)
        && ((same_kind m.from_kind MessageParticipantKind.agent && (m.from_id is agent_id))
            || (same_kind m.to_kind MessageParticipantKind.agent && (m.to_id is agent_id))))

-- Store.Receipt: the message, for its sender or its recipient.
unfoldable pub receipt : Context → Principal → String → Tx MessageRow
receipt c p message_id = do
  begin_tx c
  t ← now_millis
  require_current_execution p t
  now ← now_millis
  expire_messages p.scope_id now
  found ← gets (λ w. find (is_party p.scope_id p.agent_id message_id) w.messages)
  or_fail found ErrorCode.not_found
