-- ===== src/Bus/Repeats.antt =====
-- A message that is sent again under its idempotency key, with any requests between.
use october_bus.Protocol.{Principal, MessageParticipantKind}
use october_bus.World.{World}
use october_bus.Delivery.Send.{Sender}

abbrev sender_of : Principal → Sender
sender_of p = record { kind = MessageParticipantKind.agent; id = p.agent_id }
