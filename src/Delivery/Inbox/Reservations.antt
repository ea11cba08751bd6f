-- ===== src/Delivery/Inbox/Reservations.antt =====
-- ReserveInbox of bus/store.go: what an agent gets from its inbox.
use october_bus.Base.{
  ℕ, ◌≤◌, String, true, none, some, List, [], ◌∷◌, ◌≡◌, refl, ◌∙◌, arith, ap, subst, ◌==◌,
  Bool-cases, inl, inr, All, All-take, take, length, length-take,
}
use october_bus.Protocol.{Principal}
use october_bus.World.{World, MessageRow}
use october_bus.Rows.{select, sort_by}
use october_bus.Rows.Laws.{All-sort_by, select_sound}
use october_bus.Tx.{ok, now_millis, random_id, update_messages, insert_reservation}
use october_bus.Tx.Keeps.{Returns}
use october_bus.Tx.Success.{through, through_gets, pure-ok}
use october_bus.Events.{append_event}
use october_bus.Session.{Context, begin_tx, require_current_execution}
use october_bus.Delivery.{addressed_to, expire_messages}
use october_bus.Delivery.Inbox.Order.{
  IsOldestFirst, Follows, sort_by-IsOldestFirst, take-IsOldestFirst, Follows-length, Follows-All,
  Follows-IsOldestFirst,
}
use october_bus.Delivery.Inbox.{
  is_available, older, reserve_message, reserve_each, reserve_found, release_lapsed_reservations,
  reserve_inbox, InboxReservation,
}

abbrev pub table : World → List MessageRow
table w = w.messages

reserve_message-same :
    (p : Principal) (id : String) (now : ℕ) (m : MessageRow)
    → Returns (λ n. n ≡ record m { state = n.state }) (reserve_message p id now m)
unfolding reserve_message
reserve_message-same p id now m = record {
  at = λ w n w' h. through (update_messages _ _) _ h λ changed v e h₁.
      elim (Bool-cases (changed == 1)) [
        | inl k ↦
            through (append_event p.scope_id _ m.message_id _ now) _ (rw k at h₁) λ u v₂ e₂ h₂.
              subst (λ (x : MessageRow). x ≡ record m { state = x.state }) (pure-ok h₂).0 refl
        | inr k ↦
            subst (λ (x : MessageRow). x ≡ record m { state = x.state }) (pure-ok (rw k at h₁)).0
              refl
      ];
}

reserve_each-Follows :
    (p : Principal) (id : String) (now : ℕ) (ms : List MessageRow) (w : World)
    (ns : List MessageRow) (w' : World)
    → reserve_each p id now ms w ≡ ok ns w'
    → Follows ms ns
unfolding reserve_each
reserve_each-Follows p id now [] w ns w' h = subst (Follows []) (pure-ok h).0 tt
reserve_each-Follows p id now (m ∷ ms) w ns w' h =
    through (reserve_message p id now m) _ h λ n w₁ e₁ h₁.
      through (reserve_each p id now ms) _ h₁ λ rest w₂ e₂ h₂.
        subst (Follows (m ∷ ms)) (pure-ok h₂).0 (
          (reserve_message-same p id now m).at w n w₁ e₁,
          reserve_each-Follows p id now ms w₁ rest w₂ e₂,
        )

some_injective : {A : Type 0} {a b : A} → some a ≡ some b → a ≡ b
some_injective h = cc

reserve_found-Follows :
    (p : Principal) (now : ℕ) (ms : List MessageRow) (w : World) (r : InboxReservation) (w' : World)
    → reserve_found p now ms w ≡ ok (some r) w'
    → Follows ms r.messages
unfolding reserve_found
reserve_found-Follows p now [] w r w' h = absurd (differ (pure-ok h).0)
  where
    differ : none ≡ some r → ⊥
    differ e = cc
reserve_found-Follows p now (m ∷ ms) w r w' h = through (random_id "res_") _ h λ id w₁ e₁ h₁.
    through (insert_reservation _) _ h₁ λ u w₂ e₂ h₂.
      through (reserve_each p id now (m ∷ ms)) _ h₂ λ ns w₃ e₃ h₃.
        subst (λ (x : InboxReservation). Follows (m ∷ ms) x.messages)
          (some_injective (pure-ok h₃).0) (reserve_each-Follows p id now (m ∷ ms) w₂ ns w₃ e₃)

-- What a reservation holds for the agent: at most `limit` messages, its own, the oldest first.
pub record IsServed (p : Principal) (limit : ℕ) (r : InboxReservation) : Type 0 where
  pub bounded : length r.messages ≤ limit
  pub own : All (λ m. addressed_to p.scope_id p.agent_id m ≡ true) r.messages
  pub in_order : IsOldestFirst r.messages

own_of :
    (p : Principal) (now : ℕ) (m : MessageRow)
    → is_available p.scope_id p.agent_id now m ≡ true
    → addressed_to p.scope_id p.agent_id m ≡ true
own_of p now m h = ground arith

All-own :
    (p : Principal) (now : ℕ) (ms : List MessageRow)
    → All (λ m. is_available p.scope_id p.agent_id now m ≡ true) ms
    → All (λ m. addressed_to p.scope_id p.agent_id m ≡ true) ms
All-own p now [] h = tt
All-own p now (m ∷ ms) h = (own_of p now m h.0, All-own p now ms h.1)

found-IsServed :
    (p : Principal) (now limit : ℕ) (rows : List MessageRow) (r : InboxReservation)
    → Follows
        (take limit (sort_by older (select (is_available p.scope_id p.agent_id now) rows)))
        r.messages
    → IsServed p limit r
found-IsServed p now limit rows r h =
    let available = is_available p.scope_id p.agent_id now in
    let sorted = sort_by older (select available rows) in
    record {
      bounded =
          let a = Follows-length (take limit sorted) r.messages h in
          let b = length-take limit sorted in omega arith;
      own =
          Follows-All (λ m. addressed_to p.scope_id p.agent_id m ≡ true)
            (λ m n e k. ap (addressed_to p.scope_id p.agent_id) e ∙ k) (take limit sorted)
            r.messages h
            (All-take _ limit sorted (
              All-sort_by _ older (select available rows)
                (All-own p now (select available rows) (select_sound available rows))));
      in_order =
          Follows-IsOldestFirst (take limit sorted) r.messages h
            (take-IsOldestFirst limit sorted (sort_by-IsOldestFirst (select available rows)));
    }

-- ReserveInbox hands out at most `limit` messages, each addressed to the agent itself, the oldest
-- first.
pub reserve_inbox-IsServed :
    (c : Context) (p : Principal) (limit : ℕ) (w : World) (r : InboxReservation) (w' : World)
    → reserve_inbox c p limit w ≡ ok (some r) w'
    → IsServed p limit r
unfolding reserve_inbox
reserve_inbox-IsServed c p limit w r w' h = through (begin_tx c) _ h λ u₁ w₁ e₁ h₁.
    through now_millis _ h₁ λ now w₂ e₂ h₂.
      through (require_current_execution p now) _ h₂ λ u₃ w₃ e₃ h₃.
        through (expire_messages p.scope_id now) _ h₃ λ u₄ w₄ e₄ h₄.
          through (release_lapsed_reservations p.scope_id now) _ h₄ λ u₅ w₅ e₅ h₅.
            found-IsServed p now limit w₅.messages r
              (reserve_found-Follows p now _ w₅ r w' (through_gets _ _ h₅))
