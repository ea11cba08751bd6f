-- ===== src/Tx/Frame.antt =====
-- What a transaction leaves alone: a part of the world that the bookkeeping of the log, the clock
-- and the tasks of remote principals does not touch.
use october_bus.Base.{
  ℕ, String, Bool, Option, none, some, List, [], ◌∷◌, ◌≡◌, refl, ◌∙◌, ap, sym, zero, suc, ◌+◌, take,
}
use october_bus.Protocol.{Principal, A2aTaskState}
use october_bus.World.{
  World, ScopeRow, EventRow, A2aTaskRow, CorrelationRow, ReservationRow, Attribute,
}
use october_bus.Tx.{
  now_millis, random_id, update_scopes, insert_events, update_a2a_tasks, update_correlations,
  delete_reservations,
}
use october_bus.Tx.Keeps.{Guarantee, Keeps, ok_world, keeps_rules, Keeps-bind, Keeps-pure}
use october_bus.Events.{
  PendingEvent, number_events, append_batch, append_rounds, append_events, append_event, drop,
}
use october_bus.Session.{require_current_execution}
use october_bus.A2a.{apply_transition, transition_found, transition_a2a_task_for_message}

-- `get` reads nothing of the log, of the clock, of the reservations and of the remote tasks.
pub record IsApart {A : Type 0} (get : World → A) : Type 0 where
  pub clock : (w : World) (c : ℕ → ℕ) → get (record w { clock = c }) ≡ get w
  pub entropy : (w : World) (c : ℕ → String) → get (record w { entropy = c }) ≡ get w
  pub scopes : (w : World) (rows : List ScopeRow) → get (record w { scopes = rows }) ≡ get w
  pub events : (w : World) (rows : List EventRow) → get (record w { events = rows }) ≡ get w
  pub a2a_tasks : (w : World) (rows : List A2aTaskRow) → get (record w { a2a_tasks = rows }) ≡ get w
  pub correlations :
      (w : World) (rows : List CorrelationRow) → get (record w { correlations = rows }) ≡ get w
  pub reservations :
      (w : World) (rows : List ReservationRow) → get (record w { reservations = rows }) ≡ get w

abbrev pub still : {A : Type 0} → (World → A) → Guarantee
still get = record {
  Rel = λ v w. get w ≡ get v;
  rel_refl = λ w. refl;
  rel_trans = λ u v w g h. h ∙ g;
}

module _ {A : Type 0} (get : World → A) (apart : IsApart get) where
  pub still-now_millis : Keeps (still get) now_millis
  unfolding now_millis
  still-now_millis = record { at = λ w a w' h. sym (ap get (ok_world h)) ∙ apart.clock w _ }

  pub still-random_id : (prefix : String) → Keeps (still get) (random_id prefix)
  unfolding random_id
  still-random_id prefix = record { at = λ w a w' h. sym (ap get (ok_world h)) ∙ apart.entropy w _ }

  still-update_scopes :
      (p : ScopeRow → Bool) (f : ScopeRow → ScopeRow) → Keeps (still get) (update_scopes p f)
  unfolding update_scopes
  still-update_scopes p f = record { at = λ w a w' h. sym (ap get (ok_world h)) ∙ apart.scopes w _ }

  still-insert_events : (rows : List EventRow) → Keeps (still get) (insert_events rows)
  unfolding insert_events
  still-insert_events rows = record {
    at = λ w a w' h. sym (ap get (ok_world h)) ∙ apart.events w _;
  }

  still-update_a2a_tasks :
      (p : A2aTaskRow → Bool) (f : A2aTaskRow → A2aTaskRow)
      → Keeps (still get) (update_a2a_tasks p f)
  unfolding update_a2a_tasks
  still-update_a2a_tasks p f = record {
    at = λ w a w' h. sym (ap get (ok_world h)) ∙ apart.a2a_tasks w _;
  }

  pub still-update_correlations :
      (p : CorrelationRow → Bool) (f : CorrelationRow → CorrelationRow)
      → Keeps (still get) (update_correlations p f)
  unfolding update_correlations
  still-update_correlations p f = record {
    at = λ w a w' h. sym (ap get (ok_world h)) ∙ apart.correlations w _;
  }

  pub still-delete_reservations :
      (p : ReservationRow → Bool) → Keeps (still get) (delete_reservations p)
  unfolding delete_reservations
  still-delete_reservations p = record {
    at = λ w a w' h. sym (ap get (ok_world h)) ∙ apart.reservations w _;
  }

  still-number_events :
      (s : String) (at n : ℕ) (es : List PendingEvent) → Keeps (still get) (number_events s at n es)
  unfolding number_events
  still-number_events s at n [] = Keeps-pure (still get) []
  still-number_events s at n (e ∷ es) = Keeps-bind (still get) _ _ (still-random_id "evt_") (λ id.
      Keeps-bind (still get) _ _ (still-number_events s at (n + 1) es)
        (λ rest. Keeps-pure (still get) _))

  still-append_batch :
      (s : String) (es : List PendingEvent) (at : ℕ) → Keeps (still get) (append_batch s es at)
  unfolding append_batch
  still-append_batch s [] at = Keeps-pure (still get) tt
  still-append_batch s (e ∷ es) at =
      search (keeps_rules, still-update_scopes, still-insert_events, still-number_events) depth 12

  still-append_rounds :
      (fuel : ℕ) (s : String) (es : List PendingEvent) (at : ℕ)
      → Keeps (still get) (append_rounds fuel s es at)
  unfolding append_rounds
  still-append_rounds zero s es at = still-append_batch s es at
  still-append_rounds (suc fuel) s es at = search (
    keeps_rules,
    still-append_batch s es at,
    still-append_batch s (take 128 es) at,
    still-append_rounds fuel s (drop 128 es) at,
  )

  pub still-append_events :
      (s : String) (es : List PendingEvent) (at : ℕ) → Keeps (still get) (append_events s es at)
  unfolding append_events
  still-append_events s es at = still-append_rounds _ s es at

  pub still-append_event :
      (s kind subject : String) (values : List (String × Attribute)) (at : ℕ)
      → Keeps (still get) (append_event s kind subject values at)
  unfolding append_event
  still-append_event s kind subject values at = still-append_events s _ at

  pub still-require_current_execution :
      (p : Principal) (now : ℕ) → Keeps (still get) (require_current_execution p now)
  unfolding require_current_execution
  still-require_current_execution p now = search keeps_rules

  still-apply_transition :
      (s : String) (t : A2aTaskRow) (next : A2aTaskState × Bool) (now : ℕ)
      → Keeps (still get) (apply_transition s t next now)
  unfolding apply_transition
  still-apply_transition s t next now =
      search (keeps_rules, still-update_a2a_tasks, still-append_event)

  still-transition_found :
      (s : String) (next : A2aTaskState → A2aTaskState × Bool) (now : ℕ) (found : Option A2aTaskRow)
      → Keeps (still get) (transition_found s next now found)
  unfolding transition_found
  still-transition_found s next now none = search keeps_rules
  still-transition_found s next now (some t) = still-apply_transition s t (next t.state) now

  pub still-transition :
      (s id : String) (next : A2aTaskState → A2aTaskState × Bool) (now : ℕ)
      → Keeps (still get) (transition_a2a_task_for_message s id next now)
  unfolding transition_a2a_task_for_message
  still-transition s id next now = search (keeps_rules, still-transition_found)
