-- ===== src/Tests/Mail.antt =====
-- The statements on messages, in the scene.
use october_bus.A2a.{transition_a2a_task_for_message}
use october_bus.Base.{List, Option, [], false, none, refl, some, text_ltb, true, ◌≡◌, ◌≤◌}
use october_bus.Delivery.{expire_messages}
use october_bus.Delivery.Inbox.{
  InboxReservation, announce_delivery, commit_held, release_lapsed_reservations, reserve_each,
  reserve_found, reserve_inbox, reserve_message,
}
use october_bus.Delivery.Inbox.Commits.{IsCommitted, commit_held-delivered}
use october_bus.Delivery.Inbox.Reservations.{IsServed, reserve_inbox-IsServed}
use october_bus.Delivery.Send.{
  Sender, accept_message, check_backlog, check_recipient, is_unfinished, message_backlog_cap,
  new_message, recipient_kind,
}
use october_bus.Delivery.Send.Limits.{accept_message-backlog, accept_message-linked}
use october_bus.Events.{
  append_batch, append_event, append_events, append_rounds, event_attributes, number_events,
}
use october_bus.Peers.{linked_agents, ordered_peers}
use october_bus.Protocol.{
  DeliveryState, MessageParticipantKind, delivery_text, kind_text, mode_text,
}
use october_bus.Rows.{count, delete, exists, find, insert_by, select, sort_by, update}
use october_bus.Session.{agent_row, begin_tx, holds_agent, require_current_execution}
use october_bus.Tests.Scene.{b, left, letter, message, nobody, scene}
use october_bus.Tx.{
  Outcome, Reply, delete_reservations, ensure, err, error, for_each, gets, insert_events,
  insert_message, insert_reservation, now_millis, ok, or_fail, pure, random_id, update_messages,
  update_scopes, value, when, ◌>>=◌,
}
use october_bus.World.{MessageRow}

abbrev sender_a : Sender
sender_a = record { kind = MessageParticipantKind.agent; id = "a" }

abbrev row_of : Outcome MessageRow → MessageRow
row_of (ok m w) = m
row_of (err c) = message "" 0 DeliveryState.queued none

abbrev messages_of : Outcome (Reply (List MessageRow)) → List MessageRow
messages_of (ok (value ms) w) = ms
messages_of (ok (error c) w) = []
messages_of (err c) = []

abbrev reservation_of : Outcome (Option InboxReservation) → InboxReservation
reservation_of (ok (some r) w) = r
reservation_of (ok none w) = record { id = ""; expires_at = 0; messages = [] }
reservation_of (err c) = record { id = ""; expires_at = 0; messages = [] }

accept_message_runs :
    accept_message "s" false sender_a (letter "k") "k" 100 scene
    ≡ ok
        (row_of (accept_message "s" false sender_a (letter "k") "k" 100 scene))
        (left (accept_message "s" false sender_a (letter "k") "k" 100 scene))
unfolding ◌>>=◌ pure gets or_fail ensure when now_millis random_id for_each begin_tx agent_row
    holds_agent require_current_execution find exists count select update sort_by insert_by
    event_attributes number_events append_batch append_rounds append_events append_event
    update_scopes insert_events accept_message recipient_kind check_recipient check_backlog
    linked_agents ordered_peers text_ltb new_message kind_text mode_text delivery_text
    insert_message
accept_message_runs = refl

accept_message-backlog_example :
    count
      (is_unfinished "s")
      (left (accept_message "s" false sender_a (letter "k") "k" 100 scene)).messages
    ≤ message_backlog_cap
accept_message-backlog_example =
    accept_message-backlog "s" false sender_a (letter "k") "k" 100 scene
      (row_of (accept_message "s" false sender_a (letter "k") "k" 100 scene))
      (left (accept_message "s" false sender_a (letter "k") "k" 100 scene)) accept_message_runs

accept_message-linked_example : linked_agents scene "s" "a" "b" ≡ true
accept_message-linked_example =
    accept_message-linked "s" sender_a (letter "k") "k" 100 scene
      (row_of (accept_message "s" false sender_a (letter "k") "k" 100 scene))
      (left (accept_message "s" false sender_a (letter "k") "k" 100 scene)) refl refl
      accept_message_runs

reserve_inbox_runs :
    reserve_inbox nobody b 2 scene
    ≡ ok
        (some (reservation_of (reserve_inbox nobody b 2 scene)))
        (left (reserve_inbox nobody b 2 scene))
unfolding ◌>>=◌ pure gets or_fail ensure when now_millis random_id for_each begin_tx agent_row
    holds_agent require_current_execution find exists count select update sort_by insert_by
    event_attributes number_events append_batch append_rounds append_events append_event
    update_scopes insert_events reserve_inbox expire_messages release_lapsed_reservations
    reserve_found reserve_each reserve_message insert_reservation update_messages mode_text
    delivery_text
reserve_inbox_runs = refl

reserve_inbox_example : IsServed b 2 (reservation_of (reserve_inbox nobody b 2 scene))
reserve_inbox_example =
    reserve_inbox-IsServed nobody b 2 scene (reservation_of (reserve_inbox nobody b 2 scene))
      (left (reserve_inbox nobody b 2 scene)) reserve_inbox_runs

commit_held_runs :
    commit_held b "r" scene
    ≡ ok (value (messages_of (commit_held b "r" scene))) (left (commit_held b "r" scene))
unfolding ◌>>=◌ pure gets or_fail ensure when now_millis random_id for_each begin_tx agent_row
    holds_agent require_current_execution find exists count select update sort_by insert_by
    event_attributes number_events append_batch append_rounds append_events append_event
    update_scopes insert_events commit_held expire_messages delete_reservations delete
    update_messages announce_delivery mode_text delivery_text transition_a2a_task_for_message
commit_held_runs = refl

commit_held_example :
    IsCommitted b "r" scene (messages_of (commit_held b "r" scene)) (left (commit_held b "r" scene))
commit_held_example =
    commit_held-delivered b "r" scene (messages_of (commit_held b "r" scene))
      (left (commit_held b "r" scene)) commit_held_runs
