-- ===== src/Bus/Numbering.antt =====
-- The numbers of the events over a whole history.
use october_bus.Base.{List, [], ◌∷◌}
use october_bus.World.{World}
use october_bus.Evolution.Numbering.{IsNumbered}
use october_bus.Bus.{Request, after, run}
use october_bus.Bus.Isolation.{after-Evolves}

-- If in every scope the events are numbered 1, 2 and so on up to the scope's counter, without gap or
-- repetition, then they are so after any history of requests.
pub run-IsNumbered :
    (rs : List Request) (w : World)
    → IsNumbered w.scopes w.events
    → IsNumbered (run w rs).scopes (run w rs).events
unfolding run
run-IsNumbered [] w n = n
run-IsNumbered (r ∷ rs) w n = run-IsNumbered rs (after r w) ((after-Evolves r w).numbered n)
