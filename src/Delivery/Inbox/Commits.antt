-- ===== src/Delivery/Inbox/Commits.antt =====
-- CommitInbox of bus/store.go: what a commit answers and what it leaves in the table.
use october_bus.Base.{
  ℕ, String, some, eq_iff, true, false, none, List, [], ◌∷◌, ◌≡◌, refl, sym, ◌∙◌, arith, ap, All,
  map,
}
use october_bus.Protocol.{Principal, DeliveryState, is_reserved}
use october_bus.World.{World, MessageRow}
use october_bus.Rows.{count, select, sort_by, update}
use october_bus.Rows.Laws.{count-update_leaving, select_sound}
use october_bus.Tx.{ok, for_each, now_millis, delete_reservations, value}
use october_bus.Tx.Keeps.{Keeps, Keeps-for_each, keeps_rules}
use october_bus.Tx.Frame.{
  still, still-now_millis, still-append_event, still-delete_reservations, still-transition,
}
use october_bus.Tx.Success.{through, through_gets, through_update_messages, pure-ok}
use october_bus.Rows.Laws.{holds-eq}
use october_bus.Delivery.{is_held, expire_messages}
use october_bus.Delivery.Send.Admission.{table-IsApart}
use october_bus.Delivery.Inbox.{older, first_time, deliver_row, announce_delivery, commit_held}
use october_bus.Delivery.Inbox.Reservations.{table}

deliver-leaves :
    (p : Principal) (id : String) (now : ℕ) (m : MessageRow)
    → is_held p.scope_id p.agent_id id m ≡ true
    → is_held p.scope_id p.agent_id id (deliver_row now m) ≡ false
deliver-leaves p id now m h = ground arith

announce_delivery-still :
    (s : String) (now : ℕ) (m : MessageRow) → Keeps (still table) (announce_delivery s now m)
unfolding announce_delivery
announce_delivery-still s now m =
    search
      (keeps_rules, still-append_event table table-IsApart, still-transition table table-IsApart)

reply_injective : {A : Type 0} {a b : A} → value a ≡ value b → a ≡ b
reply_injective h = cc

-- A message that the agent holds under a reservation.
pub record IsReservedFor (p : Principal) (id : String) (m : MessageRow) : Type 0 where
  pub reservation : m.reservation_id ≡ some id
  pub scope : m.scope_id ≡ p.scope_id
  pub to : m.to_id ≡ p.agent_id
  pub state : m.state ≡ DeliveryState.reserved

is_reserved-eq : (s : DeliveryState) → is_reserved s ≡ true → s ≡ DeliveryState.reserved
is_reserved-eq DeliveryState.reserved h = refl
is_reserved-eq DeliveryState.queued h = cc
is_reserved-eq DeliveryState.delivered h = cc
is_reserved-eq DeliveryState.acknowledged h = cc
is_reserved-eq DeliveryState.expired h = cc

is_held-IsReservedFor :
    (p : Principal) (id : String) (m : MessageRow)
    → is_held p.scope_id p.agent_id id m ≡ true
    → IsReservedFor p id m
is_held-IsReservedFor p id m h = record {
  reservation = holds-eq m.reservation_id id (ground (arith, h));
  scope = (eq_iff m.scope_id p.scope_id).0 (ground (arith, h));
  to = (eq_iff m.to_id p.agent_id).0 (ground (arith, h));
  state = is_reserved-eq m.state (ground (arith, h));
}

All-IsReservedFor :
    (p : Principal) (id : String) (ms : List MessageRow)
    → All (λ m. is_held p.scope_id p.agent_id id m ≡ true) ms
    → All (IsReservedFor p id) ms
All-IsReservedFor p id [] h = tt
All-IsReservedFor p id (m ∷ ms) h =
    (is_held-IsReservedFor p id m h.0, All-IsReservedFor p id ms h.1)

-- A message that a commit has delivered: the first time of delivery stays.
abbrev pub delivered : ℕ → MessageRow → MessageRow
delivered at m = record m {
  state = DeliveryState.delivered;
  delivered_at = first_time m.delivered_at at;
  reservation_id = none;
}

-- What a commit does to the messages that are left once those that are due have expired: the ones
-- that the agent holds under the reservation are delivered, and answered in their order.
pub record IsCommitted (p : Principal) (id : String) (w : World) (ms : List MessageRow) (w' : World)
    : Type 0 where
  pub now : ℕ
  pub at : ℕ
  pub begun : World
  pub left : World
  pub read : now_millis w ≡ ok now begun
  pub expired : expire_messages p.scope_id now begun ≡ ok tt left
  pub held : All (IsReservedFor p id) (select (is_held p.scope_id p.agent_id id) left.messages)
  pub answer :
      ms
      ≡ map (delivered at) (sort_by older (select (is_held p.scope_id p.agent_id id) left.messages))
  pub table : w'.messages ≡ update (is_held p.scope_id p.agent_id id) (delivered at) left.messages
  pub none_held : count (is_held p.scope_id p.agent_id id) w'.messages ≡ 0

-- A commit expires what is due, and then delivers exactly the messages of the agent that are
-- reserved under the reservation: they are marked delivered and free of it in the table, no other
-- row changes, the answer has them, the oldest first, and none is held under it afterwards.
pub commit_held-delivered :
    (p : Principal) (id : String) (w : World) (ms : List MessageRow) (w' : World)
    → commit_held p id w ≡ ok (value ms) w'
    → IsCommitted p id w ms w'
unfolding commit_held
commit_held-delivered p id w ms w' h = through now_millis _ h λ now w₁ e₁ h₁.
    through (expire_messages p.scope_id now) _ h₁ λ u₂ w₂ e₂ h₂.
      through now_millis _ (through_gets _ _ h₂) λ at w₃ e₃ h₃.
        through_update_messages (is_held p.scope_id p.agent_id id) (deliver_row at) _ w₃ h₃
          λ w₄ updated h₄. through (delete_reservations _) _ h₄ λ u₅ w₅ e₅ h₅.
            through (for_each _ (announce_delivery p.scope_id at)) _ h₅ λ u₆ w₆ e₆ h₆.
              let (f, g) = pure-ok h₆ in
              let same : w₃.messages ≡ w₂.messages =
                (still-now_millis table table-IsApart).at w₂ at w₃ e₃ in
              let kept : w₆.messages ≡ w₄.messages =
                (Keeps-for_each (still table) _ _ (announce_delivery-still p.scope_id at)).at w₅ u₆
                  w₆ e₆
                ∙ (still-delete_reservations table table-IsApart _).at w₄ u₅ w₅ e₅ in
              let rows : w'.messages
                  ≡ update (is_held p.scope_id p.agent_id id) (deliver_row at) w₂.messages =
                ap table (sym g)
                ∙ kept
                ∙ updated
                ∙ ap (update (is_held p.scope_id p.agent_id id) (deliver_row at)) same in
              record {
                now = now;
                at = at;
                begun = w₁;
                left = w₂;
                read = e₁;
                expired = e₂;
                held =
                    All-IsReservedFor p id _
                      (select_sound (is_held p.scope_id p.agent_id id) w₂.messages);
                answer = sym (reply_injective f);
                table = rows;
                none_held =
                    ap (count (is_held p.scope_id p.agent_id id)) rows
                    ∙ count-update_leaving (is_held p.scope_id p.agent_id id) (deliver_row at)
                        (deliver-leaves p id at) w₂.messages;
              }
