-- ===== src/Evolution/Unlogged.antt =====
-- A world with a part replaced that has no rows of its own kind in the log: the clock, the random
-- source, reservations, publications, correlations and the shared tables.
use october_bus.Base.{ℕ, String, List}
use october_bus.World.{Resources, World, ReservationRow, PublicationRow, CorrelationRow}
use october_bus.Evolution.{Along, publication_rule, Evolves, Evolves-refl}
use october_bus.Evolution.Others.{KeepsOthers}
use october_bus.Evolution.Windows.{IsWindowed}

module _ (s : String) (w : World) where
  pub Evolves-clock : (x : ℕ → ℕ) → Evolves s w (record w { clock = x })
  Evolves-clock x =
      let e = Evolves-refl s w in
      record {
        scopes = e.scopes;
        agents = e.agents;
        links = e.links;
        messages = e.messages;
        tasks = e.tasks;
        progress = e.progress;
        escalations = e.escalations;
        events = e.events;
        a2a_tasks = e.a2a_tasks;
        publications = e.publications;
        others = e.others;
        hashes = e.hashes;
        numbered = e.numbered;
        windowed = e.windowed;
      }

  pub Evolves-entropy : (x : ℕ → String) → Evolves s w (record w { entropy = x })
  Evolves-entropy x =
      let e = Evolves-refl s w in
      record {
        scopes = e.scopes;
        agents = e.agents;
        links = e.links;
        messages = e.messages;
        tasks = e.tasks;
        progress = e.progress;
        escalations = e.escalations;
        events = e.events;
        a2a_tasks = e.a2a_tasks;
        publications = e.publications;
        others = e.others;
        hashes = e.hashes;
        numbered = e.numbered;
        windowed = e.windowed;
      }

  pub Evolves-reservations : (x : List ReservationRow) → Evolves s w (record w { reservations = x })
  Evolves-reservations x =
      let e = Evolves-refl s w in
      record {
        scopes = e.scopes;
        agents = e.agents;
        links = e.links;
        messages = e.messages;
        tasks = e.tasks;
        progress = e.progress;
        escalations = e.escalations;
        events = e.events;
        a2a_tasks = e.a2a_tasks;
        publications = e.publications;
        others = e.others;
        hashes = e.hashes;
        numbered = e.numbered;
        windowed = e.windowed;
      }

  pub Evolves-publications :
      (x : List PublicationRow)
      → Along (publication_rule s) w.publications x
      → Evolves s w (record w { publications = x })
  Evolves-publications x h =
      let e = Evolves-refl s w in
      record {
        scopes = e.scopes;
        agents = e.agents;
        links = e.links;
        messages = e.messages;
        tasks = e.tasks;
        progress = e.progress;
        escalations = e.escalations;
        events = e.events;
        a2a_tasks = e.a2a_tasks;
        publications = h;
        others = e.others;
        hashes = e.hashes;
        numbered = e.numbered;
        windowed = e.windowed;
      }

  pub Evolves-correlations : (x : List CorrelationRow) → Evolves s w (record w { correlations = x })
  Evolves-correlations x =
      let e = Evolves-refl s w in
      record {
        scopes = e.scopes;
        agents = e.agents;
        links = e.links;
        messages = e.messages;
        tasks = e.tasks;
        progress = e.progress;
        escalations = e.escalations;
        events = e.events;
        a2a_tasks = e.a2a_tasks;
        publications = e.publications;
        others = e.others;
        hashes = e.hashes;
        numbered = e.numbered;
        windowed = e.windowed;
      }

  pub Evolves-resources :
      (x : Resources)
      → (IsWindowed w.resources.streams w.resources.values → IsWindowed x.streams x.values)
      → KeepsOthers s w.resources x
      → Evolves s w (record w { resources = x })
  Evolves-resources x windowed others =
      let e = Evolves-refl s w in
      record {
        scopes = e.scopes;
        agents = e.agents;
        links = e.links;
        messages = e.messages;
        tasks = e.tasks;
        progress = e.progress;
        escalations = e.escalations;
        events = e.events;
        a2a_tasks = e.a2a_tasks;
        publications = e.publications;
        others = others;
        hashes = e.hashes;
        numbered = e.numbered;
        windowed = windowed;
      }
