-- ===== src/Outputs/Publish/Evolution.antt =====
-- PublishOutput, read from its first statement on: the world that its value is added in, and the
-- number of the value.
use october_bus.Base.{ℕ, ◌+◌, String, true, Option, none, some, ◌≡◌, sym, ap, ◌∙◌, subst, eq_iff}
use october_bus.Protocol.{PublishOutputInput}
use october_bus.World.{World, StreamRow, ValueRow}
use october_bus.Rows.{find}
use october_bus.Rows.Laws.{find_sound}
use october_bus.Tx.{ok, now_millis}
use october_bus.Tx.Success.{through, through_gets, through_or_fail, pure-ok}
use october_bus.Evolution.{Evolves, Evolves-trans}
use october_bus.Evolution.Windows.{has_id}
use october_bus.Evolution.Statements.{now_millis-Evolves}
use october_bus.Events.Evolution.{append_event-Evolves}
use october_bus.Events.{append_event}
use october_bus.Session.{Context, begin_tx}
use october_bus.Session.Frame.{still-begin_tx}
use october_bus.Session.Evolution.{begin_tx-Evolves}
use october_bus.Outputs.{stream_row}
use october_bus.Outputs.Publish.{
  consume_output_quota, OutputPublisher, Producer, producer_of, append_value, publish_output,
}
use october_bus.Outputs.Publish.Frame.{
  stream_table, stream_table-IsApart, still_now, quota-still, producer_of-still,
  consume_output_quota-Evolves, producer_of-Evolves,
}
use october_bus.Outputs.Publish.Values.{append_value-ok, append_value-Evolves}

-- The scope of a stream.
abbrev pub scope_of_stream : Option StreamRow → String
scope_of_stream none = ""
scope_of_stream (some r) = r.scope_id

-- Reading a publication from its first statement on.
module _ (c : Context) (authority : OutputPublisher) (id : String) (input : PublishOutputInput)
    (w w' : World) (v : ValueRow) (h : publish_output c authority id input w ≡ ok v w') where
  -- The row that is read in the transaction is the one that named the scope.
  record Published : Type 0 where
    pub row : StreamRow
    pub found : stream_row w.resources id ≡ some row
    pub producer : Producer
    pub now : ℕ
    pub before : World
    pub after : World
    pub reached : Evolves row.scope_id w before
    pub same_streams : before.resources.streams ≡ w.resources.streams
    pub added : append_value row producer input now before ≡ ok v after
    pub logged : Evolves row.scope_id after w'

  publication : Published
  unfolding publish_output stream_row
  publication = through_or_fail _ _ _ (through_gets _ _ h) λ known e h₁.
      through (begin_tx c) _ h₁ λ u w₁ e₁ h₂.
        through_or_fail _ _ _ (through_gets _ _ h₂) λ row e₂ h₃.
          through (producer_of authority row) _ h₃ λ producer w₃ e₃ h₄.
            through now_millis _ h₄ λ now w₄ e₄ h₅.
              through
                (consume_output_quota row.scope_id producer.producer_type producer.producer_id true
                  now)
                _ h₅
                λ u₅ w₅ e₅ h₆. through (append_value row producer input now) _ h₆ λ v₆ w₆ e₆ h₇.
                  through (append_event row.scope_id "output.published" id _ now) _ h₇
                    λ u₇ w₇ e₇ h₈. record {
                      row = row;
                      found =
                          ap (λ rows. find (has_id id) rows)
                            (sym
                              ((still-begin_tx stream_table stream_table-IsApart c).at w u w₁ e₁))
                          ∙ e₂;
                      producer = producer;
                      now = now;
                      before = w₅;
                      after = w₆;
                      reached =
                          Evolves-trans row.scope_id w w₄ w₅
                            (Evolves-trans row.scope_id w w₃ w₄
                              (Evolves-trans row.scope_id w w₁ w₃
                                ((begin_tx-Evolves row.scope_id c).at w u w₁ e₁)
                                ((producer_of-Evolves row.scope_id authority row).at w₁ producer w₃
                                  e₃))
                              ((now_millis-Evolves row.scope_id).at w₃ now w₄ e₄))
                            ((consume_output_quota-Evolves row.scope_id producer.producer_type
                                producer.producer_id true now).at
                              w₄ u₅ w₅ e₅);
                      same_streams =
                          (quota-still row.scope_id producer.producer_type producer.producer_id true
                              now).at
                            w₄ u₅ w₅ e₅
                          ∙ still_now.at w₃ now w₄ e₄
                          ∙ (producer_of-still authority row).at w₁ producer w₃ e₃
                          ∙ (still-begin_tx stream_table stream_table-IsApart c).at w u w₁ e₁;
                      added = e₆ ∙ ap (λ x. ok x w₆) (pure-ok h₈).0;
                      logged = subst (Evolves row.scope_id w₆) (pure-ok h₈).1 (
                          (append_event-Evolves row.scope_id "output.published" id _ now).at w₆ u₇
                            w₇ e₇);
                    }

  row_found :
      (p : Published) → find (has_id p.row.stream_id) p.before.resources.streams ≡ some p.row
  unfolding stream_row
  row_found p =
      let named = find_sound (has_id id) w.resources.streams p.row p.found in
      ap (λ x. find (has_id x) p.before.resources.streams) ((eq_iff p.row.stream_id id).0 named)
      ∙ ap (find (has_id id)) p.same_streams
      ∙ p.found

  pub publish_output-Evolves : Evolves (scope_of_stream (stream_row w.resources id)) w w'
  publish_output-Evolves =
      let p = publication in
      subst (λ s. Evolves s w w') (sym (ap scope_of_stream p.found))
        (Evolves-trans p.row.scope_id w p.after w'
          (Evolves-trans p.row.scope_id w p.before p.after p.reached (
            append_value-Evolves p.row.scope_id p.row p.producer input p.now p.before p.after v
              (row_found p) p.added))
          p.logged)

  -- A publication that succeeds gives its value the number behind the counter of the stream that was
  -- there before.
  pub publish_output-next :
      (row : StreamRow) × (stream_row w.resources id ≡ some row)
      × (v.stream_id ≡ id)
      × (v.sequence ≡ row.sequence + 1)
  unfolding stream_row
  publish_output-next =
      let p = publication in
      let value =
        (append_value-ok p.row p.producer input p.now p.before p.after v (row_found p) p.added).0 in
      (
        p.row,
        p.found,
        ap (λ (x : ValueRow). x.stream_id) value
            ∙ (eq_iff p.row.stream_id id).0
                (find_sound (has_id id) w.resources.streams p.row p.found),
        ap (λ (x : ValueRow). x.sequence) value,
      )
