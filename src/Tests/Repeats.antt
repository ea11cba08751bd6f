-- ===== src/Tests/Repeats.antt =====
-- The statement on repeated messages: the same message is sent twice, with a claim between.
use october_bus.Base.{none, List, [], ◌∷◌}
use october_bus.Protocol.{DeliveryState}
use october_bus.World.{MessageRow}
use october_bus.Tx.{Outcome, ok, err}
use october_bus.Delivery.Send.{send_message}
use october_bus.Tasks.{claim_task}
use october_bus.Bus.{Request, run}
use october_bus.Tests.Scene.{a, b, nobody, scene, letter, left, message}

abbrev row_of : Outcome MessageRow → MessageRow
row_of (ok m w) = m
row_of (err c) = message "" 0 DeliveryState.queued none

abbrev first : Outcome MessageRow
first = send_message nobody a (letter "k") scene

abbrev between : List Request
between = Request.claim_task nobody b "o" ∷ []

abbrev second : Outcome MessageRow
second = send_message nobody a (letter "k") (run (left first) between)
