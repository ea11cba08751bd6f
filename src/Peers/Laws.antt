-- ===== src/Peers/Laws.antt =====
-- Links have no direction.
use october_bus.Base.{String, ◌≡◌, ap, arith, text_ltb_antisymm, text_ltb-asymm}
use october_bus.World.{World}
use october_bus.Rows.{exists}
use october_bus.Peers.{ordered_peers, linked_agents, is_link}

pub ordered_peers_comm : (l r : String) → ordered_peers l r ≡ ordered_peers r l
unfolding ordered_peers
ordered_peers_comm l r = ground (arith, text_ltb_antisymm l r, text_ltb-asymm l r)

-- Whether two agents are linked does not depend on the order in which they are named.
pub linked_agents_comm :
    (w : World) (s l r : String) → linked_agents w s l r ≡ linked_agents w s r l
unfolding linked_agents
linked_agents_comm w s l r =
    ap (λ (p : String × String). exists (is_link s p) w.links) (ordered_peers_comm l r)
