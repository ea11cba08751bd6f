-- ===== src/Bus/Isolation.antt =====
-- Requests, along the steps of the tables of their scope.
use october_bus.Base.{String, some, ◌≡◌, refl, sym, subst, ap, ◌∙◌, arith, not, ◌==◌}
use october_bus.Protocol.{Principal}
use october_bus.World.{World, AgentRow}
use october_bus.Tx.{Tx, Outcome, ok, err, ◌>>=◌, pure, gets, or_fail, when, settle, transact}
use october_bus.Tx.Keeps.{Keeps, Keeps-bind, Keeps-pure, Keeps-when, >>=-eq-ok, ok_world}
use october_bus.Evolution.{Evolves, Evolves-refl, Evolves-trans, evolution}
use october_bus.Session.{Context, begin_tx}
use october_bus.Session.Evolution.{begin_tx-Evolves}
use october_bus.Session.Reads.{begin_tx-same_agents}
use october_bus.Delivery.Send.Evolution.{send_message-Evolves}
use october_bus.Delivery.Inbox.Evolution.{
  reserve_inbox-Evolves, commit_inbox-Evolves, release_inbox-Evolves, acknowledge_messages-Evolves,
  receipt-Evolves,
}
use october_bus.Tasks.Evolution.{
  add_task-Evolves, claim_task-Evolves, complete_task-Evolves, release_task-Evolves,
  add_task_progress-Evolves, list_tasks-Evolves, task_page-Evolves,
}
use october_bus.Agents
use october_bus.Agents.{current_agent_token, owner_of_token, end_execution}
use october_bus.Agents.Evolution.{
  register_agent-Evolves, heartbeat-Evolves, link_agents-Evolves, end_execution-Evolves,
}
use october_bus.Escalations.Evolution.{ask_human-Evolves, resolve_escalation-Evolves}
use october_bus.Channels.Evolution.{
  create_channel-Evolves, subscribe_channel-Evolves, post_channel-Evolves,
}
use october_bus.Events.Reading.{read_events-Evolves}
use october_bus.Outputs.{stream_row}
use october_bus.Outputs.Publish
use october_bus.Outputs.Publish.{OutputPublisher}
use october_bus.Outputs.Publish.Evolution.{scope_of_stream, publish_output-Evolves}
use october_bus.Outputs.Evolution.{
  create_output_stream-Evolves, list_output_streams-Evolves, remove_output_stream-Evolves,
  set_output_publisher-Evolves,
}
use october_bus.Outputs.Read
use october_bus.Outputs.Read.Evolution.{read_history-Evolves, read_latest-Evolves}
use october_bus.Outputs.Principals.Evolution.{
  create_output_principal-Evolves, rotate_output_principal-Evolves,
  set_output_principal_enabled-Evolves,
}
use october_bus.Bus.{
  Request, register_agent, heartbeat, retire_agent, link_agents, send_message, receipt,
  reserve_inbox, commit_inbox, release_inbox, acknowledge_messages, add_task, claim_task,
  complete_task, release_task, add_task_progress, list_tasks, task_page, ask_human,
  resolve_escalation, read_events, create_output_stream, list_output_streams, remove_output_stream,
  set_output_publisher, publish_output, read_history, read_latest, create_output_principal,
  rotate_output_principal, set_output_principal_enabled, create_channel, subscribe_channel,
  post_channel, perform, scope_of, scope_of_row, after,
}

-- A read of the owner of a token succeeds exactly with that owner, and changes nothing.
token-owner :
    (t : String) (w w' : World) (a : AgentRow)
    → current_agent_token t w ≡ ok a w'
    → (owner_of_token w t ≡ some a) × (w ≡ w')
unfolding current_agent_token gets or_fail ◌>>=◌
token-owner t w w' a h = ground arith

same-owner :
    (t : String) (v w : World)
    → w.agents ≡ v.agents
    → w.hashes ≡ v.hashes
    → owner_of_token w t ≡ owner_of_token v t
unfolding owner_of_token
same-owner t v w e f = rw (e, f)

settled-Evolves :
    {A : Type 0} (s : String) (m : Tx A) (w : World)
    → ((a : A) (w' : World) → m w ≡ ok a w' → Evolves s w w')
    → Evolves s w (settle w (m w)).1
settled-Evolves {A} s m w h = go (m w) refl
  where
    go : (o : Outcome A) → m w ≡ o → Evolves s w (settle w o).1
    go (ok a w') e = h a w' e
    go (err c) e = Evolves-refl s w

quiet-Evolves :
    {A : Type 0} (s : String) (m : Tx A) (w : World)
    → Keeps (evolution s) m
    → Evolves s w (transact (m >>= λ _. pure tt) w).1
unfolding transact
quiet-Evolves s m w k =
    settled-Evolves s (m >>= λ _. pure tt) w
      ((Keeps-bind (evolution s) m _ k (λ a. Keeps-pure (evolution s) tt)).at w)

-- The rest of a retirement, once its agent is read.
retire_rest-Evolves :
    (a : AgentRow) (p : Principal)
    → Keeps
        (evolution a.scope_id)
        (when (not (a.lease_expires_at == 0)) (end_execution a) >>= λ _. pure p)
retire_rest-Evolves a p =
    Keeps-bind _ _ _ (Keeps-when _ _ _ (λ _. end_execution-Evolves a)) (λ _. Keeps-pure _ p)

retire_agent-Evolves :
    (c : Context) (t : String) (w : World) (p : Principal) (w' : World)
    → Agents.retire_agent c t w ≡ ok p w'
    → Evolves (scope_of_row (owner_of_token w t)) w w'
unfolding Agents.retire_agent
retire_agent-Evolves c t w p w' h =
    let (a₀, w₁, e₁, h₁) = >>=-eq-ok (current_agent_token t) _ w h in
    let (u, w₂, e₂, h₂) = >>=-eq-ok (begin_tx c) _ w₁ h₁ in
    let (a, w₃, e₃, h₃) = >>=-eq-ok (current_agent_token t) _ w₂ h₂ in
    let (f₁, g₁) = token-owner t w w₁ a₀ e₁ in
    let (f₃, g₃) = token-owner t w₂ w₃ a e₃ in
    let (same, hash) = (begin_tx-same_agents c).at w₁ u w₂ e₂ in
    let owner : owner_of_token w t ≡ some a =
      ap (λ v. owner_of_token v t) g₁ ∙ sym (same-owner t w₁ w₂ same hash) ∙ f₃ in
    let here : scope_of_row (owner_of_token w t) ≡ a.scope_id = ap scope_of_row owner in
    let began : Evolves a.scope_id w w₃ =
      subst (λ v. Evolves a.scope_id v w₃) (sym g₁)
        (subst (Evolves a.scope_id w₁) g₃ ((begin_tx-Evolves a.scope_id c).at w₁ u w₂ e₂)) in
    subst (λ s. Evolves s w w') (sym here)
      (Evolves-trans a.scope_id w w₃ w' began ((retire_rest-Evolves a _).at w₃ p w' h₃))

-- A call whose scope is read from the world, its answer left out.
quiet_run-Evolves :
    {A : Type 0} (s : String) (m : Tx A) (w : World)
    → ((a : A) (w' : World) → m w ≡ ok a w' → Evolves s w w')
    → Evolves s w (transact (m >>= λ _. pure tt) w).1
unfolding transact pure
quiet_run-Evolves s m w h =
    settled-Evolves s (m >>= λ _. pure tt) w
      λ u w' e. let (a, v, f, g) = >>=-eq-ok m _ w e in subst (Evolves s w) (ok_world g) (h a v f)

-- A request moves ten tables along the steps of its scope: of the scopes, agents, links, messages,
-- tasks, progress, escalations, events, publications and remote tasks no row is lost or overtaken,
-- none of another scope changes, and each change of a row is one that its step allows. In the usage,
-- the channels, their subscriptions and their posts the rows of every other scope stay the same. The
-- hashes stay, the events stay numbered, and the values of the streams stay windows.
pub after-Evolves : (r : Request) (w : World) → Evolves (scope_of r w) w (after r w)
unfolding after perform scope_of transact
after-Evolves (register_agent c s i) w = quiet-Evolves s _ w (register_agent-Evolves s c i)
after-Evolves (heartbeat c p i) w = quiet-Evolves p.scope_id _ w (heartbeat-Evolves c p i)
after-Evolves (retire_agent c t) w =
    quiet_run-Evolves (scope_of_row (owner_of_token w t)) (Agents.retire_agent c t) w
      (retire_agent-Evolves c t w)
after-Evolves (link_agents c s l r) w = quiet-Evolves s _ w (link_agents-Evolves s c l r)
after-Evolves (send_message c p i) w = quiet-Evolves p.scope_id _ w (send_message-Evolves c p i)
after-Evolves (receipt c p m) w = quiet-Evolves p.scope_id _ w (receipt-Evolves c p m)
after-Evolves (reserve_inbox c p n) w = quiet-Evolves p.scope_id _ w (reserve_inbox-Evolves c p n)
after-Evolves (commit_inbox c p r) w = quiet-Evolves p.scope_id _ w (commit_inbox-Evolves c p r)
after-Evolves (release_inbox c p r) w = quiet-Evolves p.scope_id _ w (release_inbox-Evolves c p r)
after-Evolves (acknowledge_messages c p ms) w =
    quiet-Evolves p.scope_id _ w (acknowledge_messages-Evolves c p ms)
after-Evolves (add_task c s a p i) w = quiet-Evolves s _ w (add_task-Evolves s c a p i)
after-Evolves (claim_task c p t) w = quiet-Evolves p.scope_id _ w (claim_task-Evolves c p t)
after-Evolves (complete_task c p t n) w =
    quiet-Evolves p.scope_id _ w (complete_task-Evolves c p t n)
after-Evolves (release_task c p t) w = quiet-Evolves p.scope_id _ w (release_task-Evolves c p t)
after-Evolves (add_task_progress c p t i) w =
    quiet-Evolves p.scope_id _ w (add_task_progress-Evolves c p t i)
after-Evolves (list_tasks c s r) w = quiet-Evolves s _ w (list_tasks-Evolves s c r)
after-Evolves (task_page c s a n) w = quiet-Evolves s _ w (task_page-Evolves s c a n)
after-Evolves (ask_human c p i) w = quiet-Evolves p.scope_id _ w (ask_human-Evolves p c i)
after-Evolves (resolve_escalation c s e a) w =
    quiet-Evolves s _ w (resolve_escalation-Evolves s c e a)
after-Evolves (read_events c s a n) w = quiet-Evolves s _ w (read_events-Evolves s c a n)
after-Evolves (create_output_stream c s i) w =
    quiet-Evolves s _ w (create_output_stream-Evolves s c i)
after-Evolves (list_output_streams c s) w = quiet-Evolves s _ w (list_output_streams-Evolves s c)
after-Evolves (remove_output_stream c s i) w =
    quiet-Evolves s _ w (remove_output_stream-Evolves s c i)
after-Evolves (set_output_publisher c s i a b) w =
    quiet-Evolves s _ w (set_output_publisher-Evolves s c i a b)
after-Evolves (publish_output c p i v) w =
    quiet_run-Evolves (scope_of_stream (stream_row w.resources i)) (Publish.publish_output c p i v)
      w (λ x w' h. publish_output-Evolves c p i v w w' x h)
after-Evolves (read_history c r i a n) w =
    quiet_run-Evolves (scope_of_stream (stream_row w.resources i)) (Read.read_history c r i a n) w
      (read_history-Evolves c r i a n w)
after-Evolves (read_latest c r i) w =
    quiet_run-Evolves (scope_of_stream (stream_row w.resources i)) (Read.read_latest c r i) w
      (read_latest-Evolves c r i w)
after-Evolves (create_output_principal c s i) w =
    quiet-Evolves s _ w (create_output_principal-Evolves s c i)
after-Evolves (rotate_output_principal c s i) w =
    quiet-Evolves s _ w (rotate_output_principal-Evolves s c i)
after-Evolves (set_output_principal_enabled c s i b) w =
    quiet-Evolves s _ w (set_output_principal_enabled-Evolves s c i b)
after-Evolves (create_channel c s i) w = quiet-Evolves s _ w (create_channel-Evolves s c i)
after-Evolves (subscribe_channel c p i b) w =
    quiet-Evolves p.scope_id _ w (subscribe_channel-Evolves c p i b)
after-Evolves (post_channel c s i) w = quiet-Evolves s _ w (post_channel-Evolves s c i)
