-- ===== src/Escalations/Caps.antt =====
-- The questions that wait for a human are bounded, for each agent and for the scope.
use october_bus.Base.{
  ℕ, ◌+◌, ◌≤◌, none, String, Bool, true, List, [], ◌∷◌, ◌++◌, ◌≡◌, refl, sym, ap, subst, ◌∙◌, arith,
  ltb, ◌is◌, Bool-cases, inl, inr,
}
use october_bus.Protocol.{EscalationStatus, ErrorCode, Principal, AskHumanInput}
use october_bus.World.{World, EscalationRow}
use october_bus.Rows.{count, exists}
use october_bus.Rows.Laws.{count-append}
use october_bus.Tx.{ok, err, now_millis, random_id, insert_escalation}
use october_bus.Tx.Keeps.{ok_world}
use october_bus.Tx.Frame.{IsApart, still-now_millis, still-random_id, still-append_event}
use october_bus.Tx.Success.{through, through_gets, through_ensure, ensure-ok, or_fail-ok}
use october_bus.Events.{append_event}
use october_bus.Session.{begin_tx, Context, require_current_execution}
use october_bus.Escalations.{
  ask_human, check_escalation_caps, escalation_from, is_pending_of_agent, is_pending_of_scope,
  pending_escalation_cap_per_agent, pending_escalation_cap_per_scope,
}

abbrev table : World → List EscalationRow
table w = w.escalations

table-IsApart : IsApart (λ (w : World). w.escalations)
table-IsApart = record {
  clock = λ w c. refl;
  entropy = λ w c. refl;
  scopes = λ w rows. refl;
  events = λ w rows. refl;
  a2a_tasks = λ w rows. refl;
  correlations = λ w rows. refl;
  reservations = λ w rows. refl;
}

insert_escalation-ok :
    (r : EscalationRow) (w : World) (u : Unit {0}) (w' : World)
    → insert_escalation r w ≡ ok u w'
    → w'.escalations ≡ w.escalations ++ r ∷ []
unfolding insert_escalation
insert_escalation-ok r w u w' h =
    elim (Bool-cases
      (exists (λ (e : EscalationRow). e.escalation_id is r.escalation_id) w.escalations)) [
        | inl e ↦ absurd (differ (rw e at h))
        | inr e ↦ sym (ap table (ok_world (rw e at h)))
      ]
  where
    differ : {c : ErrorCode} → err c ≡ ok u w' → ⊥
    differ k = cc

-- The pending questions of an agent and of its scope are within their caps.
pub record IsWithinCaps (p : Principal) (rows : List EscalationRow) : Type 0 where
  pub of_agent :
      count (is_pending_of_agent p.scope_id p.agent_id) rows ≤ pending_escalation_cap_per_agent
  pub of_scope : count (is_pending_of_scope p.scope_id) rows ≤ pending_escalation_cap_per_scope

at_most_one : (q : EscalationRow → Bool) (r : EscalationRow) → count q (r ∷ []) ≤ 1
unfolding count
at_most_one q r = ground arith

one_more :
    (q : EscalationRow → Bool) (rows : List EscalationRow) (r : EscalationRow)
    → count q (rows ++ r ∷ []) ≤ count q rows + 1
one_more q rows r = let a = count-append q rows (r ∷ []) in let b = at_most_one q r in omega arith

less : (n m : ℕ) → ltb n m ≡ true → n + 1 ≤ m
less n m h = ground arith

check_escalation_caps-ok :
    (p : Principal) (w : World) (u : Unit {0}) (w' : World)
    → check_escalation_caps p w ≡ ok u w'
    → (count (is_pending_of_agent p.scope_id p.agent_id) w.escalations + 1
        ≤ pending_escalation_cap_per_agent)
      × (count (is_pending_of_scope p.scope_id) w.escalations + 1
          ≤ pending_escalation_cap_per_scope)
      × (w ≡ w')
unfolding check_escalation_caps
check_escalation_caps-ok p w u w' h =
    through_ensure _ _
      (ltb (count (is_pending_of_agent p.scope_id p.agent_id) w.escalations)
        pending_escalation_cap_per_agent)
      (through_gets _ _ h)
      λ a h₁.
        let (b, same) =
          ensure-ok _
            (ltb (count (is_pending_of_scope p.scope_id) w.escalations)
              pending_escalation_cap_per_scope)
            (through_gets _ _ h₁) in
        (less _ _ a, less _ _ b, same)

kept :
    (p : Principal) (rows : List EscalationRow) (r : EscalationRow)
    → count (is_pending_of_agent p.scope_id p.agent_id) rows + 1 ≤ pending_escalation_cap_per_agent
    → count (is_pending_of_scope p.scope_id) rows + 1 ≤ pending_escalation_cap_per_scope
    → IsWithinCaps p (rows ++ r ∷ [])
kept p rows r agent scope =
    let a = one_more (is_pending_of_agent p.scope_id p.agent_id) rows r in
    let b = one_more (is_pending_of_scope p.scope_id) rows r in
    record { of_agent = omega arith; of_scope = omega arith }

abbrev asked : Principal → AskHumanInput → String → ℕ → EscalationRow
asked p input id now = record {
  escalation_id = id;
  scope_id = p.scope_id;
  agent_id = p.agent_id;
  question = input.question;
  options = input.options;
  status = EscalationStatus.pending;
  answer = none;
  created_at = now;
  resolved_at = none;
}

-- After AskHuman has accepted a question, the agent has at most 100 pending questions and the scope
-- at most 1000.
pub ask_human-IsWithinCaps :
    (c : Context) (p : Principal) (input : AskHumanInput) (w : World) (e : EscalationRow)
    (w' : World)
    → ask_human c p input w ≡ ok e w'
    → IsWithinCaps p w'.escalations
unfolding ask_human escalation_from
ask_human-IsWithinCaps c p input w e w' h = through (begin_tx c) _ h λ u₁ w₁ e₁ h₁.
    through now_millis _ h₁ λ t w₂ e₂ h₂.
      through (require_current_execution p t) _ h₂ λ u₃ w₃ e₃ h₃.
        through (check_escalation_caps p) _ h₃ λ u₄ w₄ e₄ h₄.
          through (random_id "ask_") _ h₄ λ id w₅ e₅ h₅. through now_millis _ h₅ λ now w₆ e₆ h₆.
            through (insert_escalation _) _ h₆ λ u₇ w₇ e₇ h₇.
              through (append_event p.scope_id _ id _ now) _ h₇ λ u₈ w₈ e₈ h₈.
                let (agent, scope, same) = check_escalation_caps-ok p w₃ u₄ w₄ e₄ in
                let final = (or_fail-ok _ _ (through_gets _ _ h₈)).1 in
                let rows : w'.escalations ≡ w₃.escalations ++ asked p input id now ∷ [] =
                  ap table (sym final)
                  ∙ (still-append_event table table-IsApart p.scope_id _ id _ now).at w₇ u₈ w₈ e₈
                  ∙ insert_escalation-ok (asked p input id now) w₆ u₇ w₇ e₇
                  ∙ ap (λ rows. rows ++ asked p input id now ∷ [])
                      ((still-now_millis table table-IsApart).at w₅ now w₆ e₆
                        ∙ (still-random_id table table-IsApart "ask_").at w₄ id w₅ e₅
                        ∙ ap table (sym same)) in
                subst (IsWithinCaps p) (sym rows)
                  (kept p w₃.escalations (asked p input id now) agent scope)
