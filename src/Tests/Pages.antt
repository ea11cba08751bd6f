-- ===== src/Tests/Pages.antt =====
-- Channels and the pages of their posts, read in a small scope.
use october_bus.Base.{ℕ, String, Bool, text_ltb, true, none, some, List, [], ◌∷◌, ◌≡◌, refl, map}
use october_bus.Protocol.{ErrorCode, MessageParticipantKind, ChannelHistoryInput}
use october_bus.World.{World, PostRow}
use october_bus.Tx.{Outcome, ok, err, ◌>>=◌, pure, gets, or_fail, ensure, when, now_millis}
use october_bus.Rows.{find, count, exists, insert_by, select, sort_by}
use october_bus.Validation.{
  validate_identity, matches_identity, all_of, validate_text, contains_nul, byte_count, is_blank,
}
use october_bus.Channels.{channel_author, require_channel}
use october_bus.Session.{Context, begin_tx, require_current_execution, agent_row, holds_agent}
use october_bus.Channels.Reading.{
  Channel, ChannelPost, ChannelPostPage, list_channels, channel_history, contains_text, channels_of,
  find_cursor, history_rows, post_page, starts_text,
}
use october_bus.Tests.Scene.{a, nobody, scene}

abbrev post : String → ℕ → PostRow
post id n = record {
  scope_id = "s";
  post_id = id;
  channel_id = "ch";
  author_kind = MessageParticipantKind.agent;
  author_id = "a";
  body = "News";
  search_body = "news";
  thread_id = none;
  idempotency_key = none;
  request_hash = "h";
  created_at = n;
}

-- Three posts, the last in the thread of the first.
abbrev newsroom : World
newsroom = record scene {
  resources = record scene.resources {
    channels =
        record {
          scope_id = "s";
          channel_id = "ch";
          name = "news";
          description = "";
          created_at = 0;
        }
        ∷ [];
    subscriptions =
        record { scope_id = "s"; channel_id = "ch"; agent_id = "a"; created_at = 0 } ∷ [];
    posts = post "p1" 1 ∷ post "p2" 2 ∷ record (post "p3" 3) { thread_id = some "p1" } ∷ [];
  };
}

abbrev as_a : Context
as_a = record nobody { execution = some a }

abbrev page : String → String → String → ChannelHistoryInput
page thread query before = record {
  channel_id = "ch";
  thread_id = thread;
  query = query;
  before = before;
  limit = 1;
}

abbrev ids : Outcome ChannelPostPage → List String
ids (ok p w) = p.next_cursor ∷ map (λ (x : ChannelPost). x.id) p.posts
ids (err c) = []

-- The newest first post, with a cursor; the one behind it, the last; and the newest of the thread.
history_runs :
    (ids (channel_history as_a "s" (page "" "" "") newsroom) ≡ "p2" ∷ "p2" ∷ [])
    × (ids (channel_history as_a "s" (page "" "" "p2") newsroom) ≡ "" ∷ "p1" ∷ [])
    × (ids (channel_history as_a "s" (page "p1" "" "") newsroom) ≡ "p3" ∷ "p3" ∷ [])
    × (ids (channel_history as_a "s" (page "" "ew" "p3") newsroom) ≡ "p2" ∷ "p2" ∷ [])
    × (channel_history as_a "s" (page "" "" "p9") newsroom ≡ err ErrorCode.not_found)
unfolding channel_history ◌>>=◌ channel_author or_fail ensure validate_identity matches_identity
    all_of validate_text contains_nul begin_tx pure now_millis require_current_execution gets
    agent_row find holds_agent text_ltb contains_text find_cursor history_rows post_page starts_text
    require_channel count exists insert_by select sort_by when byte_count is_blank
history_runs = (refl, refl, refl, refl, refl)

abbrev listed : Outcome (List Channel) → List (String × ℕ × Bool)
listed (ok cs w) = map (λ (x : Channel). (x.name, x.subscribers, x.subscribed)) cs
listed (err c) = []

channels_run : listed (list_channels as_a "s" newsroom) ≡ ("news", 1, true) ∷ []
unfolding list_channels channels_of ◌>>=◌ channel_author or_fail begin_tx pure now_millis ensure
    require_current_execution gets agent_row find holds_agent text_ltb count exists insert_by select
    sort_by
channels_run = refl
