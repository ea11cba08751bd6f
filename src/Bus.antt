-- ===== src/Bus.antt =====
-- The bus as a whole: a request is one call of the store, and a history is a list of requests, each
-- a transaction of its own, as the engine runs them one after another.
pub mod Isolation
pub mod Lives
pub mod View
pub mod Numbering
pub mod Windows
pub mod Repeats
use october_bus.Base.{ℕ, String, Bool, Option, none, some, List, [], ◌∷◌}
use october_bus.Protocol.{
  Principal, RegisterAgentInput, HeartbeatInput, SendMessageInput, AddTaskInput,
  AddTaskProgressInput, AskHumanInput, CreateOutputStreamInput, PublishOutputInput,
  CreateChannelInput, PostChannelInput,
}
use october_bus.World.{World, AgentRow}
use october_bus.Tx.{Tx, ◌>>=◌, ◌>>◌, pure, transact}
use october_bus.Session.{Context}
use october_bus.Peers
use october_bus.Delivery.Send
use october_bus.Delivery.Inbox
use october_bus.Tasks
use october_bus.Tasks.Progress
use october_bus.Tasks.Listing
use october_bus.Agents
use october_bus.Escalations
use october_bus.Channels
use october_bus.Events.Reading
use october_bus.Outputs
use october_bus.Outputs.{stream_row}
use october_bus.Outputs.Publish
use october_bus.Outputs.Publish.{OutputPublisher}
use october_bus.Outputs.Publish.Evolution.{scope_of_stream}
use october_bus.Outputs.Read
use october_bus.Outputs.Read.{OutputReader}
use october_bus.Outputs.Principals
use october_bus.Outputs.Principals.{CreateOutputPrincipalInput}

pub data Request : Type 0 where
  register_agent : Context → String → RegisterAgentInput → Request
  heartbeat : Context → Principal → HeartbeatInput → Request
  retire_agent : Context → String → Request
  link_agents : Context → String → String → String → Request
  send_message : Context → Principal → SendMessageInput → Request
  receipt : Context → Principal → String → Request
  reserve_inbox : Context → Principal → ℕ → Request
  commit_inbox : Context → Principal → String → Request
  release_inbox : Context → Principal → String → Request
  acknowledge_messages : Context → Principal → List String → Request
  add_task : Context → String → String → Option Principal → AddTaskInput → Request
  claim_task : Context → Principal → String → Request
  complete_task : Context → Principal → String → String → Request
  release_task : Context → Principal → String → Request
  add_task_progress : Context → Principal → String → AddTaskProgressInput → Request
  list_tasks : Context → String → Bool → Request
  task_page : Context → String → String → ℕ → Request
  ask_human : Context → Principal → AskHumanInput → Request
  resolve_escalation : Context → String → String → String → Request
  read_events : Context → String → ℕ → ℕ → Request
  create_output_stream : Context → String → CreateOutputStreamInput → Request
  list_output_streams : Context → String → Request
  remove_output_stream : Context → String → String → Request
  set_output_publisher : Context → String → String → String → Bool → Request
  publish_output : Context → OutputPublisher → String → PublishOutputInput → Request
  read_history : Context → OutputReader → String → ℕ → ℕ → Request
  read_latest : Context → OutputReader → String → Request
  create_output_principal : Context → String → CreateOutputPrincipalInput → Request
  rotate_output_principal : Context → String → String → Request
  set_output_principal_enabled : Context → String → String → Bool → Request
  create_channel : Context → String → CreateChannelInput → Request
  subscribe_channel : Context → Principal → String → Bool → Request
  post_channel : Context → String → PostChannelInput → Request

abbrev quiet : {A : Type 0} → Tx A → Tx (Unit {0})
quiet m = m >>= λ _. pure tt

-- The call of the store, its answer left out.
unfoldable pub perform : Request → Tx (Unit {0})
perform (register_agent c s i) = quiet (Agents.register_agent c s i)
perform (heartbeat c p i) = quiet (Agents.heartbeat c p i)
perform (retire_agent c t) = quiet (Agents.retire_agent c t)
perform (link_agents c s l r) = quiet (Peers.link_agents c s l r)
perform (send_message c p i) = quiet (Send.send_message c p i)
perform (receipt c p m) = quiet (Inbox.receipt c p m)
perform (reserve_inbox c p n) = quiet (Inbox.reserve_inbox c p n)
perform (commit_inbox c p r) = quiet (Inbox.commit_inbox c p r)
perform (release_inbox c p r) = quiet (Inbox.release_inbox c p r)
perform (acknowledge_messages c p ms) = quiet (Inbox.acknowledge_messages c p ms)
perform (add_task c s a p i) = quiet (Tasks.add_task c s a p i)
perform (claim_task c p t) = quiet (Tasks.claim_task c p t)
perform (complete_task c p t n) = quiet (Tasks.complete_task c p t n)
perform (release_task c p t) = quiet (Tasks.release_task c p t)
perform (add_task_progress c p t i) = quiet (Progress.add_task_progress c p t i)
perform (list_tasks c s r) = quiet (Listing.list_tasks c s r)
perform (task_page c s a n) = quiet (Listing.task_page c s a n)
perform (ask_human c p i) = quiet (Escalations.ask_human c p i)
perform (resolve_escalation c s e a) = quiet (Escalations.resolve_escalation c s e a)
perform (read_events c s a n) = quiet (Reading.read_events c s a n)
perform (create_output_stream c s i) = quiet (Outputs.create_output_stream c s i)
perform (list_output_streams c s) = quiet (Outputs.list_output_streams c s)
perform (remove_output_stream c s i) = quiet (Outputs.remove_output_stream c s i)
perform (set_output_publisher c s i a b) = quiet (Outputs.set_output_publisher c s i a b)
perform (publish_output c p i v) = quiet (Publish.publish_output c p i v)
perform (read_history c r i a n) = quiet (Read.read_history c r i a n)
perform (read_latest c r i) = quiet (Read.read_latest c r i)
perform (create_output_principal c s i) = quiet (Principals.create_output_principal c s i)
perform (rotate_output_principal c s i) = quiet (Principals.rotate_output_principal c s i)
perform (set_output_principal_enabled c s i b) =
    quiet (Principals.set_output_principal_enabled c s i b)
perform (create_channel c s i) = quiet (Channels.create_channel c s i)
perform (subscribe_channel c p i b) = quiet (Channels.subscribe_channel c p i b)
perform (post_channel c s i) = quiet (Channels.post_channel c s i)

abbrev pub scope_of_row : Option AgentRow → String
scope_of_row none = ""
scope_of_row (some a) = a.scope_id

-- The scope that a request works in: of its token for a retirement, and of the stream for a
-- publication or a reader, whose requests are counted there.
unfoldable pub scope_of : Request → World → String
scope_of (register_agent c s i) w = s
scope_of (heartbeat c p i) w = p.scope_id
scope_of (retire_agent c t) w = scope_of_row (Agents.owner_of_token w t)
scope_of (link_agents c s l r) w = s
scope_of (send_message c p i) w = p.scope_id
scope_of (receipt c p m) w = p.scope_id
scope_of (reserve_inbox c p n) w = p.scope_id
scope_of (commit_inbox c p r) w = p.scope_id
scope_of (release_inbox c p r) w = p.scope_id
scope_of (acknowledge_messages c p ms) w = p.scope_id
scope_of (add_task c s a p i) w = s
scope_of (claim_task c p t) w = p.scope_id
scope_of (complete_task c p t n) w = p.scope_id
scope_of (release_task c p t) w = p.scope_id
scope_of (add_task_progress c p t i) w = p.scope_id
scope_of (list_tasks c s r) w = s
scope_of (task_page c s a n) w = s
scope_of (ask_human c p i) w = p.scope_id
scope_of (resolve_escalation c s e a) w = s
scope_of (read_events c s a n) w = s
scope_of (create_output_stream c s i) w = s
scope_of (list_output_streams c s) w = s
scope_of (remove_output_stream c s i) w = s
scope_of (set_output_publisher c s i a b) w = s
scope_of (publish_output c p i v) w = scope_of_stream (stream_row w.resources i)
scope_of (read_history c r i a n) w = scope_of_stream (stream_row w.resources i)
scope_of (read_latest c r i) w = scope_of_stream (stream_row w.resources i)
scope_of (create_output_principal c s i) w = s
scope_of (rotate_output_principal c s i) w = s
scope_of (set_output_principal_enabled c s i b) w = s
scope_of (create_channel c s i) w = s
scope_of (subscribe_channel c p i b) w = p.scope_id
scope_of (post_channel c s i) w = s

-- The world after a request, which is the world before where the request fails.
unfoldable pub after : Request → World → World
after r w = (transact (perform r) w).1

unfoldable pub run : World → List Request → World
run w [] = w
run w (r ∷ rs) = run (after r w) rs
