-- ===== src/Delivery/Evolution.antt =====
-- Expiring messages and releasing a reservation move messages along their steps.
use october_bus.Base.{ℕ, String, true, false, Option, none, some, ◌≡◌, refl, arith, ◌is◌, eq_iff}
use october_bus.Protocol.{DeliveryState, is_reserved, is_delivered}
use october_bus.World.{MessageRow}
use october_bus.Rows.{is_some}
use october_bus.Tx.Keeps.{Keeps, keeps_rules}
use october_bus.Evolution.{evolution}
use october_bus.Evolution.Steps.{MessageStep}
use october_bus.Evolution.Statements.{statement_rules}
use october_bus.Events.Evolution.{append_event-Evolves}
use october_bus.A2a.Evolution.{transition-Evolves, fail_unfinished-SparesTerminal}
use october_bus.Delivery.{
  is_active_message, expire_row, expire_message, expire_messages, is_held, release_row,
  released_state, release_reservation,
}

expire_row-MessageStep :
    (s id : String) (m : MessageRow)
    → is_active_message s id m ≡ true
    → MessageStep s m (expire_row m)
expire_row-MessageStep s id m h = record {
  elsewhere = ground (arith, eq_iff m.scope_id s);
  content = refl;
  final = ground arith;
  delivered_once = λ _. refl;
  replied_once = λ _. (refl, refl);
  sound = λ k. record {
    reserved_held = refl;
    delivered_timed = λ e. cc;
    acknowledged_timed = λ e. cc;
    queued_new = λ e. cc;
  };
}

pub held-active :
    (s agent id : String) (m : MessageRow)
    → is_held s agent id m ≡ true
    → ((m.scope_id is s) ≡ true) × (m.state ≡ DeliveryState.reserved)
held-active s agent id m h = ground arith

released-IsSound :
    (m : MessageRow) (d : Option ℕ)
    → m.delivered_at ≡ d
    → (is_reserved (released_state d) ≡ false)
      × (is_delivered (released_state d) ≡ true → is_some d ≡ true)
      × (released_state d ≡ DeliveryState.queued → d ≡ none)
      × ¬ (released_state d ≡ DeliveryState.acknowledged)
released-IsSound m none e = (refl, (λ k. cc), (λ k. refl), (λ k. cc))
released-IsSound m (some t) e = (refl, (λ k. refl), (λ k. cc), (λ k. cc))

release_row-MessageStep :
    (s agent id : String) (m : MessageRow)
    → is_held s agent id m ≡ true
    → MessageStep s m (release_row m)
release_row-MessageStep s agent id m h =
    let f = held-active s agent id m h in
    let r = released-IsSound m m.delivered_at refl in
    record {
      elsewhere = ground (arith, eq_iff m.scope_id s);
      content = refl;
      final = ground arith;
      delivered_once = λ _. refl;
      replied_once = λ _. (refl, refl);
      sound = λ k. record {
        reserved_held = r.0;
        delivered_timed = r.1;
        acknowledged_timed = λ e. absurd (r.3 e);
        queued_new = r.2;
      };
    }

module _ (s : String) where
  expire_message-Evolves : (now : ℕ) (v : MessageRow) → Keeps (evolution s) (expire_message s now v)
  unfolding expire_message
  expire_message-Evolves now v =
      search
        (
          keeps_rules, statement_rules, append_event-Evolves, transition-Evolves,
          fail_unfinished-SparesTerminal, expire_row-MessageStep,
        )
        depth 12

  pub expire_messages-Evolves : (now : ℕ) → Keeps (evolution s) (expire_messages s now)
  unfolding expire_messages
  expire_messages-Evolves now = search (keeps_rules, expire_message-Evolves)

  pub release_reservation-Evolves :
      (agent id : String) → Keeps (evolution s) (release_reservation s agent id)
  unfolding release_reservation
  release_reservation-Evolves agent id =
      search (keeps_rules, statement_rules, append_event-Evolves, release_row-MessageStep) depth 12
