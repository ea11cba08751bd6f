-- ===== src/Events/Fuel.antt =====
-- The fuel of the loop of appendEvents: as many rounds as there are events are enough.
use october_bus.Base.{
  ℕ, zero, suc, ◌≤◌, ◌+◌, String, List, [], ◌∷◌, ◌≡◌, refl, sym, ap, ◌∙◌, arith, length, ltb, take,
  Bool-cases, inl, inr,
}
use october_bus.Tx.{Tx, ◌>>=◌}
use october_bus.Events.{PendingEvent, append_batch, append_rounds, append_events, drop}

length-drop : (n : ℕ) (es : List PendingEvent) → length (drop n es) ≤ length es
length-drop zero es = omega arith
length-drop (suc n) [] = omega arith
length-drop (suc n) (e ∷ es) = let h = length-drop n es in omega arith

module _ (s : String) (now : ℕ) where
  one_more_round :
      (fuel : ℕ) (es : List PendingEvent)
      → length es ≤ fuel
      → append_rounds fuel s es now ≡ append_rounds (suc fuel) s es now
  unfolding append_rounds
  one_more_round zero [] h = refl
  one_more_round zero (e ∷ es) h = absurd (omega arith)
  one_more_round (suc fuel) [] h = refl
  one_more_round (suc fuel) (e ∷ es) h = elim (Bool-cases (ltb 128 (length (e ∷ es)))) [
    | inl k ↦ rw k (
        ap (λ (r : Tx (Unit {0})). append_batch s (take 128 (e ∷ es)) now >>= λ _. r)
          (one_more_round fuel (drop 128 (e ∷ es)) (let d = length-drop 127 es in omega arith)))
    | inr k ↦ rw k refl
  ]

  -- With any number of rounds from the number of events on, the loop does the same, so that the
  -- number of events is enough.
  pub append_rounds-append_events :
      (more : ℕ) (es : List PendingEvent)
      → append_rounds (length es + more) s es now ≡ append_events s es now
  unfolding append_events
  append_rounds-append_events zero es = ap (λ n. append_rounds n s es now) (right_zero (length es))
    where
      right_zero : (n : ℕ) → n + 0 ≡ n
      right_zero n = omega arith
  append_rounds-append_events (suc more) es =
      ap (λ n. append_rounds n s es now) (right_suc (length es) more)
      ∙ sym (one_more_round (length es + more) es (omega arith))
      ∙ append_rounds-append_events more es
    where
      right_suc : (n m : ℕ) → n + suc m ≡ suc (n + m)
      right_suc n m = omega arith
