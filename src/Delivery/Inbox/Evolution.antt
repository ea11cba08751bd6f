-- ===== src/Delivery/Inbox/Evolution.antt =====
-- Reserving, committing, releasing and acknowledging move messages along their steps.
use october_bus.Base.{
  ℕ, ◌+◌, String, true, Option, none, some, List, [], ◌∷◌, ◌≡◌, refl, arith, eq_iff, subst,
  Bool-cases, inl, inr, All,
}
use october_bus.Protocol.{Principal}
use october_bus.World.{MessageRow, ReservationRow}
use october_bus.Rows.{is_some, select}
use october_bus.Tx.Keeps.{
  Keeps, keeps_rules, Keeps-bind, Keeps-bind-Returns, Keeps-gets, Keeps-pure, Returns-gets,
  Keeps-for_each-All,
}
use october_bus.Evolution.{evolution}
use october_bus.Evolution.Steps.{MessageStep}
use october_bus.Evolution.Statements.{statement_rules}
use october_bus.Events.Evolution.{append_event-Evolves}
use october_bus.A2a.Evolution.{transition-Evolves, start_submitted-SparesTerminal}
use october_bus.Session.{Context}
use october_bus.Session.Evolution.{begin_tx-Evolves, require_current_execution-Evolves}
use october_bus.Delivery.{is_held, release_reservation}
use october_bus.Delivery.Evolution.{
  expire_messages-Evolves, release_reservation-Evolves, held-active,
}
use october_bus.Delivery.Inbox.{
  is_lapsed, is_waiting_for, reserve_row, reserve_message, reserve_each, reserve_found,
  release_lapsed_reservations, reserve_inbox, first_time, deliver_row, announce_delivery,
  commit_held, release_lapsed, commit_inbox, release_inbox, is_to_acknowledge, acknowledge_row,
  announce_acknowledged, acknowledge_message, acknowledge_each, acknowledge_messages, receipt,
}

reserve_row-MessageStep :
    (s agent id reservation : String) (m : MessageRow)
    → is_waiting_for s agent id m ≡ true
    → MessageStep s m (reserve_row reservation m)
reserve_row-MessageStep s agent id reservation m h = record {
  elsewhere = ground (arith, eq_iff m.scope_id s);
  content = refl;
  final = ground arith;
  delivered_once = λ _. refl;
  replied_once = λ _. (refl, refl);
  sound = λ k. record {
    reserved_held = refl;
    delivered_timed = λ e. cc;
    acknowledged_timed = λ e. cc;
    queued_new = λ e. cc;
  };
}

first_time-some : (d : Option ℕ) (now : ℕ) → is_some (first_time d now) ≡ true
first_time-some none now = refl
first_time-some (some t) now = refl

first_time-kept : (d : Option ℕ) (now : ℕ) → is_some d ≡ true → first_time d now ≡ d
first_time-kept none now h = cc
first_time-kept (some t) now h = refl

deliver_row-MessageStep :
    (s agent id : String) (now : ℕ) (m : MessageRow)
    → is_held s agent id m ≡ true
    → MessageStep s m (deliver_row now m)
deliver_row-MessageStep s agent id now m h =
    let f = held-active s agent id m h in
    record {
      elsewhere = ground (arith, eq_iff m.scope_id s);
      content = refl;
      final = ground arith;
      delivered_once = first_time-kept m.delivered_at now;
      replied_once = λ _. (refl, refl);
      sound = λ k. record {
        reserved_held = refl;
        delivered_timed = λ e. first_time-some m.delivered_at now;
        acknowledged_timed = λ e. cc;
        queued_new = λ e. cc;
      };
    }

acknowledge_row-MessageStep :
    (s agent id : String) (now : ℕ) (m : MessageRow)
    → is_to_acknowledge s agent id m ≡ true
    → MessageStep s m (acknowledge_row now m)
acknowledge_row-MessageStep s agent id now m h = record {
  elsewhere = ground (arith, eq_iff m.scope_id s);
  content = refl;
  final = ground arith;
  delivered_once = λ _. refl;
  replied_once = λ _. (refl, refl);
  sound = λ k. record {
    reserved_held = ground (arith, k.reserved_held);
    delivered_timed = λ e. cc;
    acknowledged_timed = λ e. ground (arith, k.delivered_timed);
    queued_new = λ e. cc;
  };
}

ruleset inbox_rules = (
  keeps_rules, statement_rules, append_event-Evolves, begin_tx-Evolves,
  require_current_execution-Evolves, expire_messages-Evolves, release_reservation-Evolves,
  reserve_row-MessageStep, deliver_row-MessageStep, acknowledge_row-MessageStep, transition-Evolves,
  start_submitted-SparesTerminal,
)

module _ (p : Principal) where
  reserve_message-Evolves :
      (reservation : String) (now : ℕ) (m : MessageRow)
      → Keeps (evolution p.scope_id) (reserve_message p reservation now m)
  unfolding reserve_message
  reserve_message-Evolves reservation now m = search inbox_rules depth 16

  reserve_each-Evolves :
      (reservation : String) (now : ℕ) (ms : List MessageRow)
      → Keeps (evolution p.scope_id) (reserve_each p reservation now ms)
  unfolding reserve_each
  reserve_each-Evolves reservation now [] = search keeps_rules
  reserve_each-Evolves reservation now (m ∷ ms) =
      Keeps-bind _ _ _ (reserve_message-Evolves reservation now m)
        λ first. Keeps-bind _ _ _ (reserve_each-Evolves reservation now ms) λ rest. Keeps-pure _ _

  reserve_found-Evolves :
      (now : ℕ) (ms : List MessageRow) → Keeps (evolution p.scope_id) (reserve_found p now ms)
  unfolding reserve_found
  reserve_found-Evolves now [] = search keeps_rules
  reserve_found-Evolves now (m ∷ ms) = search (inbox_rules, reserve_each-Evolves) depth 12

  announce_delivery-Evolves :
      (now : ℕ) (m : MessageRow) → Keeps (evolution p.scope_id) (announce_delivery p.scope_id now m)
  unfolding announce_delivery
  announce_delivery-Evolves now m = search inbox_rules depth 12

  commit_held-Evolves : (r : String) → Keeps (evolution p.scope_id) (commit_held p r)
  unfolding commit_held
  commit_held-Evolves r = search (inbox_rules, announce_delivery-Evolves) depth 24

  release_lapsed-Evolves : (r : String) → Keeps (evolution p.scope_id) (release_lapsed p r)
  unfolding release_lapsed
  release_lapsed-Evolves r = search inbox_rules

  announce_acknowledged-Evolves :
      (id : String) (now : ℕ)
      → Keeps (evolution p.scope_id) (announce_acknowledged p.scope_id id now)
  unfolding announce_acknowledged
  announce_acknowledged-Evolves id now = search inbox_rules depth 12

  acknowledge_message-Evolves :
      (id : String) → Keeps (evolution p.scope_id) (acknowledge_message p id)
  unfolding acknowledge_message
  acknowledge_message-Evolves id = search (inbox_rules, announce_acknowledged-Evolves) depth 16

  acknowledge_each-Evolves :
      (total : ℕ) (ids : List String) → Keeps (evolution p.scope_id) (acknowledge_each p total ids)
  unfolding acknowledge_each
  acknowledge_each-Evolves total [] = search keeps_rules
  acknowledge_each-Evolves total (id ∷ ids) =
      Keeps-bind _ _ _ (acknowledge_message-Evolves id)
        λ n. acknowledge_each-Evolves (total + n) ids

is_lapsed-here :
    (s : String) (now : ℕ) (rs : List ReservationRow)
    → All (λ (r : ReservationRow). r.scope_id ≡ s) (select (is_lapsed s now) rs)
unfolding select
is_lapsed-here s now [] = tt
is_lapsed-here s now (r ∷ rs) = elim (Bool-cases (is_lapsed s now r)) [
  | inl e ↦ rw e (ground (arith, eq_iff r.scope_id s), is_lapsed-here s now rs)
  | inr e ↦ rw e (is_lapsed-here s now rs)
]

release_all-Evolves :
    (s : String) (now : ℕ) → Keeps (evolution s) (release_lapsed_reservations s now)
unfolding release_lapsed_reservations
release_all-Evolves s now =
    Keeps-bind-Returns _ _ _ _ (Keeps-gets _ _)
      (Returns-gets _ _ (λ w. is_lapsed-here s now w.reservations))
      λ rows here. Keeps-for_each-All _ _ _ _ here λ r e.
        subst
          (λ t. Keeps (evolution t) (release_reservation r.scope_id r.agent_id r.reservation_id)) e
          (release_reservation-Evolves r.scope_id r.agent_id r.reservation_id)

module _ (c : Context) (p : Principal) where
  pub reserve_inbox-Evolves : (limit : ℕ) → Keeps (evolution p.scope_id) (reserve_inbox c p limit)
  unfolding reserve_inbox
  reserve_inbox-Evolves limit =
      search (inbox_rules, release_all-Evolves, reserve_found-Evolves) depth 20

  pub commit_inbox-Evolves : (r : String) → Keeps (evolution p.scope_id) (commit_inbox c p r)
  unfolding commit_inbox
  commit_inbox-Evolves r =
      search (inbox_rules, commit_held-Evolves, release_lapsed-Evolves) depth 20

  pub release_inbox-Evolves : (r : String) → Keeps (evolution p.scope_id) (release_inbox c p r)
  unfolding release_inbox
  release_inbox-Evolves r = search inbox_rules depth 16

  pub acknowledge_messages-Evolves :
      (ids : List String) → Keeps (evolution p.scope_id) (acknowledge_messages c p ids)
  unfolding acknowledge_messages
  acknowledge_messages-Evolves ids = search (inbox_rules, acknowledge_each-Evolves) depth 16

  pub receipt-Evolves : (id : String) → Keeps (evolution p.scope_id) (receipt c p id)
  unfolding receipt
  receipt-Evolves id = search inbox_rules depth 16
