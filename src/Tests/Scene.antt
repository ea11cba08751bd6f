-- ===== src/Tests/Scene.antt =====
-- The scope of the tests: agents a and b are linked and current until 1000, and it is 100.
use october_bus.Base.{ℕ, String, true, Option, none, some, List, [], ◌∷◌}
use october_bus.Protocol.{
  AgentLifecycle, MessageMode, MessageParticipantKind, DeliveryState, TaskStatus, Principal,
  SendMessageInput,
}
use october_bus.World.{World, AgentRow, MessageRow, TaskRow}
use october_bus.Tx.{Outcome, ok, err}
use october_bus.Session.{Context}

abbrev pub agent : String → AgentRow
agent id = record {
  scope_id = "s";
  agent_id = id;
  display_name = id;
  capabilities = [];
  execution_id = id;
  token_hash = id;
  lifecycle = AgentLifecycle.starting;
  ready = true;
  lease_expires_at = 1000;
  registered_at = 0;
  updated_at = 0;
}

abbrev pub a : Principal
a = record { scope_id = "s"; agent_id = "a"; execution_id = "a" }

abbrev pub b : Principal
b = record { scope_id = "s"; agent_id = "b"; execution_id = "b" }

abbrev pub task : String → TaskStatus → Option String → List String → TaskRow
task id status holder dependencies = record {
  task_id = id;
  scope_id = "s";
  title = id;
  description = "";
  created_by = none;
  claimed_by = holder;
  claimed_execution_id = holder;
  status = status;
  dependencies = dependencies;
  note = none;
  created_at = 1;
  updated_at = 1;
}

abbrev pub message : String → ℕ → DeliveryState → Option String → MessageRow
message id created state reservation = record {
  message_id = id;
  scope_id = "s";
  from_kind = MessageParticipantKind.agent;
  from_id = "a";
  to_kind = MessageParticipantKind.agent;
  to_id = "b";
  mode = MessageMode.notify;
  body = id;
  context = [];
  response_to = none;
  idempotency_key = some id;
  request_hash = id;
  state = state;
  reservation_id = reservation;
  created_at = created;
  expires_at = none;
  delivered_at = none;
  acknowledged_at = none;
  replied_at = none;
  response_message_id = none;
}

abbrev pub nobody : Context
nobody = record { scope_credential = none; execution = none }

abbrev pub letter : String → SendMessageInput
letter key = record {
  to = "b";
  body = "text";
  mode = MessageMode.notify;
  response_to = "";
  idempotency_key = key;
  expires_in_ms = 0;
  context = [];
}

-- Two messages wait for b, and a third is reserved for it; d is done, o waits for it and is open,
-- and c is claimed by a.
abbrev pub scene : World
scene = record {
  scopes =
      record {
        scope_id = "s";
        token_hash = "token";
        created_at = 0;
        event_revision = 0;
        event_floor_revision = 0;
      }
      ∷ [];
  agents = agent "a" ∷ agent "b" ∷ [];
  links = record { scope_id = "s"; left_agent = "a"; right_agent = "b"; created_at = 0 } ∷ [];
  messages =
      message "m2" 2 DeliveryState.queued none
      ∷ message "m1" 1 DeliveryState.queued none
      ∷ message "m3" 3 DeliveryState.reserved (some "r")
      ∷ [];
  reservations =
      record {
        reservation_id = "r";
        scope_id = "s";
        agent_id = "b";
        created_at = 0;
        expires_at = 500;
      }
      ∷ [];
  tasks =
      task "d" TaskStatus.done (some "a") []
      ∷ task "o" TaskStatus.opened none ("d" ∷ [])
      ∷ task "c" TaskStatus.claimed (some "a") []
      ∷ [];
  progress = [];
  escalations = [];
  events = [];
  publications = [];
  a2a_tasks = [];
  correlations = [];
  resources = record {
    streams = [];
    publishers = [];
    values = [];
    usage = [];
    credentials = [];
    grants = [];
    channels = [];
    subscriptions = [];
    posts = [];
  };
  clock = λ n. 100;
  entropy = λ n. "x";
  hashes = record {
    token_digest = λ t. t;
    message_hash = λ i. i.idempotency_key;
    post_hash = λ i. i.body;
    a2a_hash = λ i. i.body;
    to_lower = λ t. t;
  };
}

-- The world after a success.
abbrev pub left : {A : Type 0} → Outcome A → World
left (ok x w) = w
left (err c) = scene
