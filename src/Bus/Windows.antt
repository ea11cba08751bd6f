-- ===== src/Bus/Windows.antt =====
-- The windows of the output streams over a whole history.
use october_bus.Base.{List, [], ◌∷◌}
use october_bus.World.{World}
use october_bus.Evolution.Windows.{IsWindowed}
use october_bus.Bus.{Request, after, run}
use october_bus.Bus.Isolation.{after-Evolves}

-- If every identifier names one output stream at most and the values of each stream are numbered
-- without a gap from behind its floor to its counter, not more than its limit of them, and there
-- are no values without a stream, then all that is so after any history of requests.
pub run-IsWindowed :
    (rs : List Request) (w : World)
    → IsWindowed w.resources.streams w.resources.values
    → IsWindowed (run w rs).resources.streams (run w rs).resources.values
unfolding run
run-IsWindowed [] w h = h
run-IsWindowed (r ∷ rs) w h = run-IsWindowed rs (after r w) ((after-Evolves r w).windowed h)
