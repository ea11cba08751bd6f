-- ===== src/Outputs/Read/Evolution.antt =====
-- Reading a stream works in the scope of the stream: the usage of a credential is counted there.
use october_bus.Base.{ℕ, String, Option, some, ◌≡◌, sym, ap, ◌∙◌, subst}
use october_bus.World.{World, StreamRow, ValueRow}
use october_bus.Rows.{find}
use october_bus.Tx.{ok}
use october_bus.Tx.Keeps.{Keeps, Keeps-gets, keeps_rules}
use october_bus.Tx.Success.{through, through_gets, through_or_fail, pure-ok}
use october_bus.Evolution.{Evolves, Evolves-trans, evolution}
use october_bus.Evolution.Windows.{has_id}
use october_bus.Evolution.Statements.{statement_rules}
use october_bus.Session.{Context, begin_tx}
use october_bus.Session.Evolution.{begin_tx-Evolves}
use october_bus.Session.Frame.{still-begin_tx}
use october_bus.Credentials.Evolution.{authenticate_scoped_credential-Evolves}
use october_bus.Outputs.{stream_row}
use october_bus.Outputs.Publish.Evolution.{scope_of_stream}
use october_bus.Outputs.Publish.Frame.{
  consume_output_quota-Evolves, stream_table, stream_table-IsApart,
}
use october_bus.Outputs.Read.{
  OutputHistory, OutputReader, allow_reader, open_output, output_history, read_history, read_latest,
}

ruleset read_rules = (
  keeps_rules, statement_rules, begin_tx-Evolves, authenticate_scoped_credential-Evolves,
  consume_output_quota-Evolves,
)

allow_reader-Evolves :
    (reader : OutputReader) (row : StreamRow)
    → Keeps (evolution row.scope_id) (allow_reader reader row)
unfolding allow_reader
allow_reader-Evolves (OutputReader.owner o) row = search read_rules
allow_reader-Evolves (OutputReader.credential t) row = search read_rules depth 24

output_history-Evolves :
    (s : String) (row : StreamRow) (after limit : ℕ)
    → Keeps (evolution s) (output_history row after limit)
unfolding output_history
output_history-Evolves s row after limit = search read_rules depth 24

-- The stream that is opened is the one that named the scope.
open_output-Evolves :
    (c : Context) (reader : OutputReader) (id : String) (w : World) (row : StreamRow) (w' : World)
    → open_output c reader id w ≡ ok row w'
    → Evolves (scope_of_stream (stream_row w.resources id)) w w'
unfolding open_output stream_row
open_output-Evolves c reader id w row w' h =
    through_or_fail _ _ _ (through_gets _ _ h) λ known e h₁. through (begin_tx c) _ h₁ λ u w₁ e₁ h₂.
      through_or_fail _ _ _ (through_gets _ _ h₂) λ found e₂ h₃.
        through (allow_reader reader found) _ h₃ λ u₃ w₃ e₃ h₄.
          let here : find (has_id id) w.resources.streams ≡ some found =
            ap (find (has_id id))
              (sym ((still-begin_tx stream_table stream_table-IsApart c).at w u w₁ e₁))
            ∙ e₂ in
          subst (λ s. Evolves s w w') (sym (ap scope_of_stream here))
            (Evolves-trans found.scope_id w w₁ w' ((begin_tx-Evolves found.scope_id c).at w u w₁ e₁)
              (subst (Evolves found.scope_id w₁) (pure-ok h₄).1
                ((allow_reader-Evolves reader found).at w₁ u₃ w₃ e₃)))

pub read_history-Evolves :
    (c : Context) (reader : OutputReader) (id : String) (after limit : ℕ) (w : World)
    (page : OutputHistory) (w' : World)
    → read_history c reader id after limit w ≡ ok page w'
    → Evolves (scope_of_stream (stream_row w.resources id)) w w'
unfolding read_history
read_history-Evolves c reader id after limit w page w' h =
    through (open_output c reader id) _ h λ row w₁ e₁ h₁.
      let s = scope_of_stream (stream_row w.resources id) in
      Evolves-trans s w w₁ w' (open_output-Evolves c reader id w row w₁ e₁)
        ((output_history-Evolves s row after limit).at w₁ page w' h₁)

pub read_latest-Evolves :
    (c : Context) (reader : OutputReader) (id : String) (w : World) (v : Option ValueRow)
    (w' : World)
    → read_latest c reader id w ≡ ok v w'
    → Evolves (scope_of_stream (stream_row w.resources id)) w w'
unfolding read_latest
read_latest-Evolves c reader id w v w' h = through (open_output c reader id) _ h λ row w₁ e₁ h₁.
    let s = scope_of_stream (stream_row w.resources id) in
    Evolves-trans s w w₁ w' (open_output-Evolves c reader id w row w₁ e₁)
      ((Keeps-gets (evolution s) _).at w₁ v w' h₁)
