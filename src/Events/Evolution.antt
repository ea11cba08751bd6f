-- ===== src/Events/Evolution.antt =====
-- Appending events only adds rows of the scope, and raises its revision.
use october_bus.Base.{
  ℕ, zero, suc, ◌∙◌, ◌+◌, ◌-◌, Bool, some, ◌++◌, ap, sym, subst, map, String, List, [], ◌∷◌, ◌≡◌,
  refl, arith, All, length, eq_iff, take, ◌is◌, true,
}
use october_bus.World.{World, ScopeRow, EventRow, Attribute}
use october_bus.Tx.Keeps.{
  Guarantee, ok_world, Keeps, Returns, Returns-pure, Returns-then, Returns-bind, keeps_rules,
  Keeps-bind, Keeps-pure,
}
use october_bus.Tx.{Tx, ok, ◌>>=◌, random_id, update_scopes, insert_events}
use october_bus.Evolution.{Evolves, Along, scope_rule, append_rule, evolution}
use october_bus.Rows.Numbers.{numbers}
use october_bus.Evolution.Numbering.{raise, IsNumbered, IsNumbered-append}
use october_bus.Evolution.Tables.{Along-update, Along-append}
use october_bus.Rows.{find, count, update}
use october_bus.Tx.Success.{through, through_gets, through_or_fail}
use october_bus.Evolution.Steps.{ScopeStep}
use october_bus.Evolution.Statements.{random_id-Evolves}
use october_bus.Events.{
  PendingEvent, number_events, append_batch, append_rounds, append_events, append_event, drop,
}

abbrev log_still : Guarantee
log_still = record {
  Rel = λ v w. (w.scopes ≡ v.scopes) × (w.events ≡ v.events);
  rel_refl = λ w. (refl, refl);
  rel_trans = λ u v w g h. (h.0 ∙ g.0, h.1 ∙ g.1);
}

random_id-still : (prefix : String) → Keeps log_still (random_id prefix)
unfolding random_id
random_id-still prefix = record {
  at = λ w a w' h. (
    sym (ap (λ (v : World). v.scopes) (ok_world h)),
    sym (ap (λ (v : World). v.events) (ok_world h)),
  );
}

through_update_scopes :
    {B : Type 0} {w' : World} {b : B} (p : ScopeRow → Bool) (g : ScopeRow → ScopeRow) (f : ℕ → Tx B)
    (w : World)
    → (update_scopes p g >>= f) w ≡ ok b w'
    → f (count p w.scopes) (record w { scopes = update p g w.scopes }) ≡ ok b w'
unfolding ◌>>=◌ update_scopes
through_update_scopes p g f w h = h

insert_events-ok :
    (rows : List EventRow) (w : World) (u : Unit {0}) (w' : World)
    → insert_events rows w ≡ ok u w'
    → record w { events = w.events ++ rows } ≡ w'
unfolding insert_events
insert_events-ok rows w u w' h = ok_world h

module _ (s : String) (now : ℕ) where
  number_events-Evolves :
      (r : ℕ) (es : List PendingEvent) → Keeps (evolution s) (number_events s now r es)
  unfolding number_events
  number_events-Evolves r [] = search keeps_rules
  number_events-Evolves r (e ∷ es) =
      Keeps-bind _ _ _ (random_id-Evolves s "evt_")
        λ i. Keeps-bind _ _ _ (number_events-Evolves (r + 1) es) λ k. Keeps-pure _ _

  number_events-here :
      (r : ℕ) (es : List PendingEvent)
      → Returns (All (λ (x : EventRow). x.scope_id ≡ s)) (number_events s now r es)
  unfolding number_events
  number_events-here r [] = Returns-pure _ _ tt
  number_events-here r (e ∷ es) =
      Returns-then _ _ _ λ i.
        Returns-bind _ _ _ _ (number_events-here (r + 1) es) λ rest h. Returns-pure _ _ (refl, h)

  number_events-still :
      (r : ℕ) (es : List PendingEvent) → Keeps log_still (number_events s now r es)
  unfolding number_events
  number_events-still r [] = Keeps-pure log_still []
  number_events-still r (e ∷ es) =
      Keeps-bind log_still _ _ (random_id-still "evt_")
        λ i. Keeps-bind log_still _ _ (number_events-still (r + 1) es) λ k. Keeps-pure log_still _

  number_events-numbers :
      (r : ℕ) (es : List PendingEvent)
      → Returns
          (λ rows. map (λ (x : EventRow). x.revision) rows ≡ numbers r (length es))
          (number_events s now r es)
  unfolding number_events
  number_events-numbers r [] = Returns-pure _ _ refl
  number_events-numbers r (e ∷ es) = Returns-then _ _ _ λ i.
      Returns-bind _ _ _ _ (number_events-numbers (r + 1) es)
        λ rest h. Returns-pure _ _ (ap (λ zs. r ∷ zs) h)

  raised : (k : ℕ) (r : ScopeRow) → (r.scope_id is s) ≡ true → ScopeStep s r (raise k r)
  raised k r h = record {
    elsewhere = λ x. absurd (x ((eq_iff r.scope_id s).0 h));
    content = refl;
    grows = omega arith;
  }

  -- The counter is raised first, and the rows are numbered up to it.
  batch :
      (k : ℕ) (es : List PendingEvent) (w : World) (row : ScopeRow) (rows : List EventRow)
      (w₂ : World)
      → length es ≡ k
      → find (λ (r : ScopeRow). r.scope_id is s) (update (λ r. r.scope_id is s) (raise k) w.scopes)
        ≡ some row
      → number_events s now
          (row.event_revision - k + 1)
          es
          (record w { scopes = update (λ r. r.scope_id is s) (raise k) w.scopes })
        ≡ ok rows w₂
      → Evolves s w (record w₂ { events = w₂.events ++ rows })
  batch k es w row rows w₂ size found h =
      let w₁ : World = record w { scopes = update (λ r. r.scope_id is s) (raise k) w.scopes } in
      let first = row.event_revision - k + 1 in
      let e : Evolves s w₁ w₂ = (number_events-Evolves first es).at w₁ rows w₂ h in
      let (q₁, q₂) = (number_events-still first es).at w₁ rows w₂ h in
      let here = (number_events-here first es).at w₁ rows w₂ h in
      let count =
        subst (λ n. map (λ (x : EventRow). x.revision) rows ≡ numbers first n) size
          ((number_events-numbers first es).at w₁ rows w₂ h) in
      record {
        scopes =
            subst (Along (scope_rule s) w.scopes) (sym q₁)
              (Along-update (scope_rule s) (λ r. r.scope_id is s) (raise k) (raised k) w.scopes);
        agents = e.agents;
        links = e.links;
        messages = e.messages;
        tasks = e.tasks;
        progress = e.progress;
        escalations = e.escalations;
        events =
            subst (λ z. Along (append_rule (λ (r : EventRow). r.scope_id) s) w.events (z ++ rows))
              (sym q₂)
              (Along-append (append_rule (λ (r : EventRow). r.scope_id) s) w.events rows here);
        a2a_tasks = e.a2a_tasks;
        publications = e.publications;
        others = e.others;
        hashes = e.hashes;
        windowed = e.windowed;
        numbered = λ n.
            subst (λ z. IsNumbered z (w₂.events ++ rows)) (sym q₁)
              (subst
                (λ z. IsNumbered (update (λ r. r.scope_id is s) (raise k) w.scopes) (z ++ rows))
                (sym q₂) (IsNumbered-append s k w.scopes w.events rows n row found here count));
      }

  append_batch-Evolves : (es : List PendingEvent) → Keeps (evolution s) (append_batch s es now)
  unfolding append_batch
  append_batch-Evolves [] = Keeps-pure (evolution s) tt
  append_batch-Evolves (e ∷ es) = record {
    at = λ w u w' h.
        through_or_fail _ _
          (find (λ (r : ScopeRow). r.scope_id is s)
            (update (λ r. r.scope_id is s) (raise (length (e ∷ es))) w.scopes))
          (through_gets _ _ (through_update_scopes _ _ _ w h))
          λ row found h₁.
            through (number_events s now (row.event_revision - length (e ∷ es) + 1) (e ∷ es)) _ h₁
              λ rows w₂ e₂ h₂.
                subst (Evolves s w) (insert_events-ok rows w₂ u w' h₂)
                  (batch (length (e ∷ es)) (e ∷ es) w row rows w₂ refl found e₂);
  }

  append_rounds-Evolves :
      (fuel : ℕ) (es : List PendingEvent) → Keeps (evolution s) (append_rounds fuel s es now)
  unfolding append_rounds
  append_rounds-Evolves zero es = append_batch-Evolves es
  append_rounds-Evolves (suc fuel) es = search (
    keeps_rules,
    append_batch-Evolves es,
    append_batch-Evolves (take 128 es),
    append_rounds-Evolves fuel (drop 128 es),
  )

  pub append_events-Evolves :
      (es : List PendingEvent) → Keeps (evolution s) (append_events s es now)
  unfolding append_events
  append_events-Evolves es = append_rounds-Evolves (length es) es

pub append_event-Evolves :
    (s type subject : String) (values : List (String × Attribute)) (now : ℕ)
    → Keeps (evolution s) (append_event s type subject values now)
unfolding append_event
append_event-Evolves s type subject values now = append_events-Evolves s now _
