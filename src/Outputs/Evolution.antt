-- ===== src/Outputs/Evolution.antt =====
-- The operations on output streams, along the steps of the tables.
use october_bus.Base.{
  ℕ, String, Bool, true, false, not, List, ◌≡◌, refl, subst, arith, ◌is◌, eq_iff, ◌||◌, ◌&&◌,
}
use october_bus.Protocol.{ErrorCode, CreateOutputStreamInput}
use october_bus.World.{Resources, StreamRow}
use october_bus.Rows.{exists}
use october_bus.Rows.Keys.{exists-within}
use october_bus.Tx.{alter}
use october_bus.Tx.Keeps.{Keeps, ok_world, keeps_rules}
use october_bus.Tx.Success.{through_gets, through_ensure}
use october_bus.Evolution.{Evolves, evolution}
use october_bus.Evolution.Unlogged.{Evolves-resources}
use october_bus.Evolution.Others.{KeepsOthers, KeepsOthers-apart}
use october_bus.Evolution.Windows.{IsWindowed, has_id}
use october_bus.Evolution.Windows.Streams.{IsWindowed-touch, IsWindowed-create, IsWindowed-remove}
use october_bus.Evolution.Statements.{statement_rules}
use october_bus.Events.Evolution.{append_event-Evolves}
use october_bus.Session.{Context}
use october_bus.Session.Evolution.{begin_tx-Evolves}
use october_bus.Outputs.{
  output_stream_from_query, require_publisher, insert_stream, insert_publisher,
  create_output_stream, list_output_streams, without_credentials, without_stream,
  remove_output_stream, change_publisher, touch_stream, set_output_publisher, new_stream,
  is_stream_of,
}

ruleset output_rules = (keeps_rules, statement_rules, append_event-Evolves, begin_tx-Evolves)

touch-keeps :
    (s id : String) (now : ℕ) (r : Resources)
    → IsWindowed r.streams r.values
    → IsWindowed (touch_stream s id now r).streams (touch_stream s id now r).values
unfolding touch_stream
touch-keeps s id now r h = IsWindowed-touch r.streams r.values h (is_stream_of s id) now

without_stream-keeps :
    (s id : String) (r : Resources)
    → IsWindowed r.streams r.values
    → IsWindowed (without_stream s id r).streams (without_stream s id r).values
unfolding without_stream
without_stream-keeps s id r h =
    IsWindowed-remove r.streams r.values h (is_stream_of s id) id
      (λ x e. (eq_iff x.stream_id id).0 (ground (arith, e)))

without_credentials-keeps :
    (id : String) (r : Resources)
    → IsWindowed r.streams r.values
    → IsWindowed (without_credentials id r).streams (without_credentials id r).values
unfolding without_credentials
without_credentials-keeps id r h = h

touch-others :
    (t s id : String) (now : ℕ) (r : Resources) → KeepsOthers t r (touch_stream s id now r)
unfolding touch_stream
touch-others t s id now r = KeepsOthers-apart t _ _ refl refl refl refl

without_stream-others : (t s id : String) (r : Resources) → KeepsOthers t r (without_stream s id r)
unfolding without_stream
without_stream-others t s id r = KeepsOthers-apart t _ _ refl refl refl refl

without_credentials-others :
    (t id : String) (r : Resources) → KeepsOthers t r (without_credentials id r)
unfolding without_credentials
without_credentials-others t id r = KeepsOthers-apart t _ _ refl refl refl refl

module _ (s : String) where
  require_publisher-Evolves : (id : String) → Keeps (evolution s) (require_publisher s id)
  unfolding require_publisher
  require_publisher-Evolves id = search keeps_rules

  insert_publisher-Evolves :
      (stream_id agent_id : String) → Keeps (evolution s) (insert_publisher stream_id s agent_id)
  unfolding insert_publisher
  insert_publisher-Evolves stream_id agent_id = search (keeps_rules, statement_rules) depth 12

  output_stream_from_query-Evolves :
      (id : String) → Keeps (evolution s) (output_stream_from_query s id)
  unfolding output_stream_from_query
  output_stream_from_query-Evolves id = search keeps_rules

  insert_stream-Evolves :
      (id : String) (input : CreateOutputStreamInput) (now : ℕ)
      → Keeps (evolution s) (insert_stream (new_stream id s input now))
  unfolding insert_stream alter
  insert_stream-Evolves id input now = record {
    at = λ w u w' h. through_ensure ErrorCode.conflict _ _ (through_gets _ _ h) λ t h₁.
        subst (Evolves s w) (ok_world h₁) (
          Evolves-resources s w _
            (λ n.
              IsWindowed-create w.resources.streams w.resources.values n (new_stream id s input now)
                (fresh w.resources.streams t) refl refl)
            (KeepsOthers-apart s _ _ refl refl refl refl));
  }
    where
      fresh :
          (rows : List StreamRow)
          → not (
              exists
                (λ (x : StreamRow).
                  (x.stream_id is id) || ((x.scope_id is s) && (x.name is input.name)))
                rows)
            ≡ true
          → exists (has_id id) rows ≡ false
      fresh rows t =
          exists-within (has_id id)
            (λ (x : StreamRow).
              (x.stream_id is id) || ((x.scope_id is s) && (x.name is input.name)))
            (λ x e. rw e refl) rows (ground (arith, t))

  change_publisher-Evolves :
      (stream_id agent_id : String) (allowed : Bool)
      → Keeps (evolution s) (change_publisher s stream_id agent_id allowed)
  unfolding change_publisher
  change_publisher-Evolves stream_id agent_id true =
      search (output_rules, insert_publisher-Evolves) depth 24
  change_publisher-Evolves stream_id agent_id false = search output_rules depth 24

  pub create_output_stream-Evolves :
      (c : Context) (input : CreateOutputStreamInput)
      → Keeps (evolution s) (create_output_stream c s input)
  unfolding create_output_stream
  create_output_stream-Evolves c input =
      search
        (
          output_rules, require_publisher-Evolves, insert_stream-Evolves, insert_publisher-Evolves,
          output_stream_from_query-Evolves,
        )
        depth 32

  pub list_output_streams-Evolves : (c : Context) → Keeps (evolution s) (list_output_streams c s)
  unfolding list_output_streams
  list_output_streams-Evolves c = search output_rules depth 12

  pub remove_output_stream-Evolves :
      (c : Context) (id : String) → Keeps (evolution s) (remove_output_stream c s id)
  unfolding remove_output_stream
  remove_output_stream-Evolves c id =
      search
        (
          output_rules, without_stream-keeps, without_credentials-keeps, without_stream-others,
          without_credentials-others,
        )
        depth 32

  pub set_output_publisher-Evolves :
      (c : Context) (stream_id agent_id : String) (allowed : Bool)
      → Keeps (evolution s) (set_output_publisher c s stream_id agent_id allowed)
  unfolding set_output_publisher
  set_output_publisher-Evolves c stream_id agent_id allowed =
      search
        (
          output_rules, require_publisher-Evolves, change_publisher-Evolves, touch-keeps,
          touch-others, output_stream_from_query-Evolves,
        )
        depth 32
