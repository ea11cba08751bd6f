-- ===== src/Delivery.antt =====
-- The messages of bus/store.go: their expiry, their reservations, and how one is accepted.
pub mod Send
pub mod Inbox
pub mod Evolution
use october_bus.Base.{
  ℕ, ◌+◌, String, Bool, true, false, not, Option, none, some, List, [], ◌∷◌, ◌&&◌, ltb, leb, ◌==◌,
  if◌then◌else◌, ◌is◌,
}
use october_bus.Protocol.{
  ErrorCode, MessageParticipantKind, DeliveryState, same_kind, is_active, is_reserved, mode_text,
  delivery_text,
}
use october_bus.World.{World, MessageRow, ReservationRow, Attribute}
use october_bus.Rows.{select, holds, is_some}
use october_bus.Tx.{
  Tx, ◌>>=◌, ◌>>◌, pure, gets, when, for_each, now_millis, update_messages, delete_reservations,
}
use october_bus.Events.{append_event}
use october_bus.A2a.{transition_a2a_task_for_message, fail_unfinished}

-- expires_at IS NOT NULL AND expires_at <= now
abbrev pub has_expired : ℕ → Option ℕ → Bool
has_expired now none = false
has_expired now (some t) = leb t now

abbrev pub addressed_to : String → String → MessageRow → Bool
addressed_to scope_id agent_id m =
    (m.scope_id is scope_id)
    && (same_kind m.to_kind MessageParticipantKind.agent && (m.to_id is agent_id))

abbrev pub delivery_attributes : MessageRow → DeliveryState → List (String × Attribute)
delivery_attributes m state =
    ("from", Attribute.text m.from_id)
    ∷ ("to", Attribute.text m.to_id)
    ∷ ("mode", Attribute.text (mode_text m.mode))
    ∷ ("state", Attribute.text (delivery_text state))
    ∷ []

abbrev pub expire_row : MessageRow → MessageRow
expire_row m = record m { state = DeliveryState.expired; reservation_id = none }

abbrev pub is_active_message : String → String → MessageRow → Bool
is_active_message scope_id message_id m =
    (m.message_id is message_id) && ((m.scope_id is scope_id) && is_active m.state)

unfoldable pub expire_message : String → ℕ → MessageRow → Tx (Unit {0})
expire_message scope_id now v = do
  changed ← update_messages (is_active_message scope_id v.message_id) expire_row
  when (changed == 1) (do
    when (not (is_some v.delivered_at))
        (transition_a2a_task_for_message scope_id v.message_id fail_unfinished now)
    append_event scope_id "message.expired" v.message_id
        (delivery_attributes v DeliveryState.expired) now)

abbrev pub is_expiring : String → ℕ → MessageRow → Bool
is_expiring scope_id now m =
    (m.scope_id is scope_id) && (has_expired now m.expires_at && is_active m.state)

unfoldable pub expire_messages : String → ℕ → Tx (Unit {0})
expire_messages scope_id now = do
  values ← gets (λ w. select (is_expiring scope_id now) w.messages)
  for_each values (expire_message scope_id now)

-- CASE WHEN delivered_at IS NULL THEN 'queued' ELSE 'delivered' END
abbrev pub released_state : Option ℕ → DeliveryState
released_state none = DeliveryState.queued
released_state (some t) = DeliveryState.delivered

abbrev pub release_row : MessageRow → MessageRow
release_row m = record m { state = released_state m.delivered_at; reservation_id = none }

abbrev pub is_held : String → String → String → MessageRow → Bool
is_held scope_id agent_id reservation_id m =
    holds m.reservation_id reservation_id
    && (addressed_to scope_id agent_id m && is_reserved m.state)

abbrev pub is_reservation : String → String → String → ReservationRow → Bool
is_reservation scope_id agent_id reservation_id r =
    (r.reservation_id is reservation_id) && ((r.scope_id is scope_id) && (r.agent_id is agent_id))

unfoldable pub release_reservation : String → String → String → Tx (Unit {0})
release_reservation scope_id agent_id reservation_id = do
  values ← gets (λ w. select (is_held scope_id agent_id reservation_id) w.messages)
  update_messages (is_held scope_id agent_id reservation_id) release_row
  delete_reservations (is_reservation scope_id agent_id reservation_id)
  now ← now_millis
  for_each values (λ v.
      append_event scope_id "message.released" v.message_id
        (delivery_attributes v (released_state v.delivered_at)) now)
