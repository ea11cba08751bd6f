-- ===== src/Outputs/Publish/Values.antt =====
-- What adding a value to a stream leaves, and the value itself.
use october_bus.Base.{
  ℕ, ◌+◌, ◌-◌, String, Bool, true, false, some, ◌≡◌, refl, sym, ap, ◌∙◌, subst, Bool-cases, inl,
  inr, ltb,
}
use october_bus.Protocol.{PublishOutputInput}
use october_bus.World.{World, Resources, StreamRow, ValueRow}
use october_bus.Rows.{find}
use october_bus.Rows.Keys.{find-update_any, changed}
use october_bus.Rows.Laws.{find_sound}
use october_bus.Tx.{ok, when, alter}
use october_bus.Tx.Keeps.{ok_world}
use october_bus.Tx.Success.{through, through_gets, through_or_fail, through_ensure, pure-ok}
use october_bus.Evolution.{Evolves}
use october_bus.Evolution.Unlogged.{Evolves-resources}
use october_bus.Evolution.Others.{KeepsOthers, KeepsOthers-apart}
use october_bus.Evolution.Windows.{IsWindowed, has_id}
use october_bus.Evolution.Windows.Publishing.{IsWindowed-append, IsWindowed-drop}
use october_bus.Outputs.{stream_row}
use october_bus.Outputs.Publish.{
  Producer, bump_stream, add_value, insert_value, drop_values, new_value, append_value,
}

alter-ok :
    (f : Resources → Resources) (w w' : World) (u : Unit {0})
    → alter f w ≡ ok u w'
    → w' ≡ record w { resources = f w.resources }
unfolding alter
alter-ok f w w' u h = sym (ok_world h)

insert_value-ok :
    (v : ValueRow) (w w' : World) (u : Unit {0})
    → insert_value v w ≡ ok u w'
    → w' ≡ record w { resources = add_value v w.resources }
unfolding insert_value
insert_value-ok v w w' u h =
    through_ensure _ _ _ (through_gets _ _ h) λ free h₁. alter-ok (add_value v) w w' u h₁

abbrev altered : Bool → (Resources → Resources) → Resources → Resources
altered true f r = f r
altered false f r = r

when-ok :
    (c : Bool) (f : Resources → Resources) (w w' : World) (u : Unit {0})
    → when c (alter f) w ≡ ok u w'
    → w' ≡ record w { resources = altered c f w.resources }
unfolding when
when-ok true f w w' u h = alter-ok f w w' u h
when-ok false f w w' u h = sym (pure-ok h).1

-- What adding a value leaves, and the value, from the row that was read.
module _ (row : StreamRow) (producer : Producer) (input : PublishOutputInput) (now : ℕ) where
  abbrev pub next_value : ValueRow
  next_value = new_value row.stream_id (row.sequence + 1) producer input now

  abbrev pub next_floor : ℕ
  next_floor = row.sequence + 1 - row.retention_limit

  abbrev pub published : Resources → Resources
  published r =
      altered (ltb row.floor_sequence next_floor) (drop_values row.stream_id next_floor)
        (add_value next_value (bump_stream row.stream_id now r))

  bumped_row :
      (r : Resources) (bumped : StreamRow)
      → find (has_id row.stream_id) r.streams ≡ some row
      → stream_row (bump_stream row.stream_id now r) row.stream_id ≡ some bumped
      → bumped ≡ record row { sequence = row.sequence + 1; updated_at = now }
  unfolding stream_row bump_stream
  bumped_row r bumped found h = injected (
      sym h
      ∙ find-update_any (has_id row.stream_id) (has_id row.stream_id)
          (λ x. record x { sequence = x.sequence + 1; updated_at = now }) (λ x. refl) r.streams
      ∙ ap
          (changed (has_id row.stream_id)
            (λ x. record x { sequence = x.sequence + 1; updated_at = now }))
          found
      ∙ rw (find_sound (has_id row.stream_id) r.streams row found) refl)
    where
      injected : {a b : StreamRow} → some a ≡ some b → a ≡ b
      injected g = cc

  pub append_value-ok :
      (w w' : World) (v : ValueRow)
      → find (has_id row.stream_id) w.resources.streams ≡ some row
      → append_value row producer input now w ≡ ok v w'
      → (v ≡ next_value) × (w' ≡ record w { resources = published w.resources })
  unfolding append_value
  append_value-ok w w' v found h =
      through (alter (bump_stream row.stream_id now)) _ h λ u₁ w₁ e₁ h₁.
        through_or_fail _ _ _ (through_gets _ _ h₁) λ bumped e₂ h₂.
          through (insert_value (new_value row.stream_id bumped.sequence producer input now)) _ h₂
            λ u₃ w₃ e₃ h₃.
              through
                (when (ltb row.floor_sequence (bumped.sequence - row.retention_limit))
                  (alter (drop_values row.stream_id (bumped.sequence - row.retention_limit))))
                _ h₃
                λ u₄ w₄ e₄ h₄.
                  let s₁ = alter-ok _ w w₁ u₁ e₁ in
                  let same =
                    ap (λ (x : StreamRow). x.sequence)
                      (bumped_row w.resources bumped found (
                        subst (λ (x : World). stream_row x.resources row.stream_id ≡ some bumped) s₁
                          e₂)) in
                  let s₃ = insert_value-ok _ w₁ w₃ u₃ e₃ in
                  let s₄ = when-ok _ _ w₃ w₄ u₄ e₄ in
                  let (value, last) = pure-ok h₄ in
                  (
                    sym value ∙ ap (λ n. new_value row.stream_id n producer input now) same,
                    sym last ∙ s₄ ∙ after_insert w₁ w₃ bumped same s₃ ∙ after_bump w₁ s₁,
                  )
    where
      step : ℕ → Resources → Resources
      step n r =
          altered (ltb row.floor_sequence (n - row.retention_limit))
            (drop_values row.stream_id (n - row.retention_limit))
            (add_value (new_value row.stream_id n producer input now) r)

      after_insert :
          (w₁ w₃ : World) (bumped : StreamRow)
          → bumped.sequence ≡ row.sequence + 1
          → w₃ ≡ record w₁ {
            resources =
                add_value (new_value row.stream_id bumped.sequence producer input now) w₁.resources;
          }
          → record w₃ {
            resources =
                altered
                  (ltb row.floor_sequence (bumped.sequence - row.retention_limit))
                  (drop_values row.stream_id (bumped.sequence - row.retention_limit))
                  w₃.resources;
          }
            ≡ record w₁ { resources = step (row.sequence + 1) w₁.resources }
      after_insert w₁ w₃ bumped same e =
          ap
            (λ (x : World). record x {
              resources =
                  altered (ltb row.floor_sequence (bumped.sequence - row.retention_limit))
                    (drop_values row.stream_id (bumped.sequence - row.retention_limit)) x.resources;
            })
            e
          ∙ ap (λ n. record w₁ { resources = step n w₁.resources }) same

      after_bump :
          (w₁ : World)
          → w₁ ≡ record w { resources = bump_stream row.stream_id now w.resources }
          → record w₁ { resources = step (row.sequence + 1) w₁.resources }
            ≡ record w { resources = published w.resources }
      after_bump w₁ e =
          ap (λ (x : World). record x { resources = step (row.sequence + 1) x.resources }) e

  published-keeps :
      (r : Resources)
      → find (has_id row.stream_id) r.streams ≡ some row
      → IsWindowed r.streams r.values
      → IsWindowed (published r).streams (published r).values
  unfolding bump_stream add_value drop_values
  published-keeps r found h = elim (Bool-cases (ltb row.floor_sequence next_floor)) [
    | inl e ↦ rw e (
        IsWindowed-drop r.streams r.values h row.stream_id now next_value row found refl refl
          next_floor refl e)
    | inr e ↦
        rw e (
          IsWindowed-append r.streams r.values h row.stream_id now next_value row found refl refl e)
  ]

  published-others : (s : String) (r : Resources) → KeepsOthers s r (published r)
  unfolding bump_stream add_value drop_values
  published-others s r = elim (Bool-cases (ltb row.floor_sequence next_floor)) [
    | inl e ↦ rw e (KeepsOthers-apart s _ _ refl refl refl refl)
    | inr e ↦ rw e (KeepsOthers-apart s _ _ refl refl refl refl)
  ]

module _ (s : String) where
  pub append_value-Evolves :
      (row : StreamRow) (producer : Producer) (input : PublishOutputInput) (now : ℕ) (w w' : World)
      (v : ValueRow)
      → find (has_id row.stream_id) w.resources.streams ≡ some row
      → append_value row producer input now w ≡ ok v w'
      → Evolves s w w'
  append_value-Evolves row producer input now w w' v found h =
      subst (Evolves s w) (sym (append_value-ok row producer input now w w' v found h).1) (
        Evolves-resources s w (published row producer input now w.resources)
          (published-keeps row producer input now w.resources found)
          (published-others row producer input now s w.resources))
