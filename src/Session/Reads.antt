-- ===== src/Session/Reads.antt =====
-- Beginning a transaction leaves the agents as they are.
use october_bus.Base.{String, ℕ, Option, none, some, ◌≡◌, refl, ◌∙◌, subst}
use october_bus.Protocol.{Principal}
use october_bus.World.{World}
use october_bus.Tx.{now_millis}
use october_bus.Tx.Keeps.{Guarantee, Keeps, keeps_rules, ok_world}
use october_bus.Session.{
  Context, require_current_execution, check_credential, check_execution, begin_tx,
}

abbrev SameAgents : World → World → Type 0
SameAgents v w = (w.agents ≡ v.agents) × (w.hashes ≡ v.hashes)

abbrev pub same_agents : Guarantee
same_agents = record {
  Rel = SameAgents;
  rel_refl = λ w. (refl, refl);
  rel_trans = λ u v w g h. (h.0 ∙ g.0, h.1 ∙ g.1);
}

now_millis-same_agents : Keeps same_agents now_millis
unfolding now_millis
now_millis-same_agents = record { at = λ w a w' h. subst (SameAgents w) (ok_world h) (refl, refl) }

require_current_execution-same_agents :
    (p : Principal) (now : ℕ) → Keeps same_agents (require_current_execution p now)
unfolding require_current_execution
require_current_execution-same_agents p now = search keeps_rules

check_credential-same_agents : (c : Option String) → Keeps same_agents (check_credential c)
unfolding check_credential
check_credential-same_agents none = search keeps_rules
check_credential-same_agents (some d) = search keeps_rules

check_execution-same_agents : (p : Option Principal) → Keeps same_agents (check_execution p)
unfolding check_execution
check_execution-same_agents none = search keeps_rules
check_execution-same_agents (some p) =
    search (keeps_rules, now_millis-same_agents, require_current_execution-same_agents)

pub begin_tx-same_agents : (c : Context) → Keeps same_agents (begin_tx c)
unfolding begin_tx
begin_tx-same_agents c =
    search (keeps_rules, check_credential-same_agents, check_execution-same_agents)
