-- ===== src/Channels/Posting.antt =====
-- SubscribeChannel of bus/channels.go: the subscriptions of a channel.
use october_bus.Base.{
  ℕ, ◌≤◌, ◌<◌, String, Bool, true, false, some, List, [], ◌∷◌, ◌++◌, ◌≡◌, refl, sym, ◌∙◌, subst,
  arith, ◌&&◌, ◌is◌, eq_iff, Bool-cases, inl, inr, if◌then◌else◌,
}
use october_bus.Protocol.{Principal}
use october_bus.World.{World, SubscriptionRow}
use october_bus.Rows.{count, exists}
use october_bus.Rows.Laws.{count-append}
use october_bus.Rows.Keys.{count-of_none, count-delete_le}
use october_bus.Tx.{ok, alter, now_millis}
use october_bus.Tx.Keeps.{Keeps, ok_world, keeps_rules}
use october_bus.Tx.Success.{through, through_gets, through_ensure, pure-ok}
use october_bus.Tx.Frame.{IsApart, still, still-now_millis}
use october_bus.Session.{Context, begin_tx}
use october_bus.Session.Frame.{still-begin_tx}
use october_bus.Channels.{
  is_subscription, is_own, join_channel, leave_channel, require_channel, subscribe_channel,
}

abbrev pub is_member : String → String → String → SubscriptionRow → Bool
is_member scope_id channel_id agent_id x =
    is_subscription scope_id channel_id x && (x.agent_id is agent_id)

-- No channel has more than 128 subscriptions, and no agent two on one channel.
unfoldable pub IsCapped : List SubscriptionRow → Type 0
IsCapped rows =
    ((s c : String) → count (is_subscription s c) rows ≤ 128)
    × ((s c a : String) → count (is_member s c a) rows ≤ 1)

both_true : (a b : Bool) → (a && b) ≡ true → (a ≡ true) × (b ≡ true)
both_true true b h = (refl, h)
both_true false b h = cc

-- The row of a new subscription.
module _ (row : SubscriptionRow) (rows : List SubscriptionRow) (h : IsCapped rows)
    (free : count (is_subscription row.scope_id row.channel_id) rows < 128)
    (fresh : count (is_member row.scope_id row.channel_id row.agent_id) rows ≡ 0) where
  same_channel :
      (s c : String) → is_subscription s c row ≡ true → (row.scope_id ≡ s) × (row.channel_id ≡ c)
  same_channel s c e =
      let (p, q) = both_true (row.scope_id is s) (row.channel_id is c) e in
      ((eq_iff row.scope_id s).0 p, (eq_iff row.channel_id c).0 q)

  counted : (s c : String) → count (is_subscription s c) (rows ++ row ∷ []) ≤ 128
  unfolding IsCapped count
  counted s c =
      rw (count-append (is_subscription s c) rows (row ∷ []))
        (elim (Bool-cases (is_subscription s c row)) [
          | inl e ↦
              (let (p, q) = same_channel s c e in
                let few : count (is_subscription s c) rows < 128 =
                  subst (λ x. count (is_subscription x c) rows < 128) p
                    (subst (λ x. count (is_subscription row.scope_id x) rows < 128) q free) in
                rw e (omega (arith, few)))
          | inr e ↦ (let most = h.0 s c in rw e (omega (arith, most)))
        ])

  single : (s c a : String) → count (is_member s c a) (rows ++ row ∷ []) ≤ 1
  unfolding IsCapped count
  single s c a =
      rw (count-append (is_member s c a) rows (row ∷ [])) (elim (Bool-cases (is_member s c a row)) [
        | inl e ↦
            (let (k, l) = both_true (is_subscription s c row) (row.agent_id is a) e in
              let (p, q) = same_channel s c k in
              let none_yet : count (is_member s c a) rows ≡ 0 =
                subst (λ x. count (is_member x c a) rows ≡ 0) p
                  (subst (λ x. count (is_member row.scope_id x a) rows ≡ 0) q
                    (subst (λ x. count (is_member row.scope_id row.channel_id x) rows ≡ 0)
                      ((eq_iff row.agent_id a).0 l) fresh)) in
              rw e (omega (arith, none_yet)))
        | inr e ↦ (let most = h.1 s c a in rw e (omega (arith, most)))
      ])

  IsCapped-append : IsCapped (rows ++ row ∷ [])
  unfolding IsCapped
  IsCapped-append = (counted, single)

abbrev table : World → List SubscriptionRow
table w = w.resources.subscriptions

table-IsApart : IsApart table
table-IsApart = record {
  clock = λ w c. refl;
  entropy = λ w c. refl;
  scopes = λ w c. refl;
  events = λ w c. refl;
  a2a_tasks = λ w c. refl;
  correlations = λ w c. refl;
  reservations = λ w c. refl;
}

join_channel-IsCapped :
    (p : Principal) (id : String) (w w' : World) (u : Unit {0})
    → IsCapped (table w)
    → join_channel p id w ≡ ok u w'
    → IsCapped (table w')
unfolding join_channel alter
join_channel-IsCapped p id w w' u h e =
    let step = through_gets _ _ (through_gets _ _ e) in
    elim (Bool-cases (exists (is_own p id) (table w))) [
      | inl f ↦ subst (λ x. IsCapped (table x)) (pure-ok (rw f at step)).1 h
      | inr f ↦ through_ensure _ _ _ (rw f at step) λ free e₁.
          through now_millis _ e₁ λ now w₂ e₂ e₃.
            let same = (still-now_millis table table-IsApart).at w now w₂ e₂ in
            let row : SubscriptionRow = record {
              scope_id = p.scope_id;
              channel_id = id;
              agent_id = p.agent_id;
              created_at = now;
            } in
            subst (λ x. IsCapped (table x)) (ok_world e₃)
              (subst (λ rows. IsCapped (rows ++ row ∷ [])) (sym same)
                (IsCapped-append row (table w) h (ground (arith, free))
                  (count-of_none (is_own p id) (table w) f)))
    ]

leave_channel-IsCapped :
    (p : Principal) (id : String) (w w' : World) (u : Unit {0})
    → IsCapped (table w)
    → leave_channel p id w ≡ ok u w'
    → IsCapped (table w')
unfolding leave_channel alter IsCapped
leave_channel-IsCapped p id w w' u (few, one) e =
    subst (λ x. IsCapped (table x)) (ok_world e)
      (
        λ s c.
            fewer 128 _ _ (count-delete_le (is_subscription s c) (is_own p id) (table w)) (few s c),
        λ s c a.
            fewer 1 _ _ (count-delete_le (is_member s c a) (is_own p id) (table w)) (one s c a),
      )
  where
    fewer : (n m k : ℕ) → m ≤ k → k ≤ n → m ≤ n
    fewer n m k f g = omega arith

require_channel-table : (s id : String) → Keeps (still table) (require_channel s id)
unfolding require_channel
require_channel-table s id = search keeps_rules

-- If no channel has more than 128 subscriptions and no agent two on one channel, then that is so
-- after a call that subscribes or unsubscribes an agent.
pub subscribe_channel-IsCapped :
    (c : Context) (p : Principal) (id : String) (join : Bool) (w w' : World) (u : Unit {0})
    → IsCapped w.resources.subscriptions
    → subscribe_channel c p id join w ≡ ok u w'
    → IsCapped w'.resources.subscriptions
unfolding subscribe_channel
subscribe_channel-IsCapped c p id join w w' u h e = through_ensure _ _ _ e λ valid e₁.
    through (begin_tx (record c { execution = some p })) _ e₁ λ u₁ w₁ e₂ e₃.
      through (require_channel p.scope_id id) _ e₃ λ name w₂ e₄ e₅.
        let began =
          (still-begin_tx table table-IsApart (record c { execution = some p })).at w u₁ w₁ e₂ in
        let found = require_channel-still.at w₁ name w₂ e₄ in
        changed join w₂ e₅ (subst IsCapped (sym (found ∙ began)) h)
  where
    require_channel-still : Keeps (still table) (require_channel p.scope_id id)
    require_channel-still = require_channel-table p.scope_id id

    changed :
        (join : Bool) (v : World)
        → (if join then join_channel p id else leave_channel p id) v ≡ ok u w'
        → IsCapped (table v)
        → IsCapped (table w')
    changed true v k g = join_channel-IsCapped p id v w' u g k
    changed false v k g = leave_channel-IsCapped p id v w' u g k
