-- ===== src/Channels/Reading.antt =====
-- Channels and ChannelHistory of bus/channels.go: the channels of a scope, and pages of their posts
-- from the newest on. A negative limit, which the code refuses, has no value here.
use october_bus.Base.{
  ℕ, suc, ◌≤◌, String, Bool, true, false, not, Option, none, some, List, [], ◌∷◌, ◌≡◌, ◌&&◌, ◌||◌,
  if◌then◌else◌, ltb, ◌==◌, ◌is◌, map, text_ltb, take, length, length-take, All, All-take,
  Bool-cases, inl, inr, arith,
}
use Prim.Native.Char.{code}
use october_bus.Protocol.{ErrorCode, MessageParticipantKind, ChannelHistoryInput, same_kind}
use october_bus.World.{World, ChannelRow, PostRow}
use october_bus.Rows.{find, count, select, sort_by, holds, is_some, text_or_empty}
use october_bus.Rows.Laws.{select_sound, All-sort_by}
use october_bus.Tx.{Tx, ◌>>=◌, ◌>>◌, pure, gets, or_fail, ensure, when}
use october_bus.Session.{Context, begin_tx}
use october_bus.Validation.{validate_identity, validate_text}
use october_bus.Channels.{channel_author, is_subscription, require_channel}

pub record Channel : Type 0 where
  pub id : String
  pub name : String
  pub description : String
  pub created_at : ℕ
  pub subscribers : ℕ
  pub subscribed : Bool

abbrev pub listed_channel : World → String → ChannelRow → Channel
listed_channel w actor x = record {
  id = x.channel_id;
  name = x.name;
  description = x.description;
  created_at = x.created_at;
  subscribers = count (is_subscription x.scope_id x.channel_id) w.resources.subscriptions;
  subscribed = not (
      count (λ s. is_subscription x.scope_id x.channel_id s && (s.agent_id is actor))
        w.resources.subscriptions
      == 0);
}

unfoldable pub channels_of : World → String → String → List Channel
channels_of w scope_id actor = map (listed_channel w actor) (
    take 100 (
      sort_by (λ (x : ChannelRow) (y : ChannelRow). text_ltb x.name y.name)
        (select (λ (x : ChannelRow). x.scope_id is scope_id) w.resources.channels)))

unfoldable pub list_channels : Context → String → Tx (List Channel)
list_channels c scope_id = do
  author ← channel_author c scope_id
  begin_tx c
  gets (λ w.
      channels_of w scope_id
        (if same_kind author.kind MessageParticipantKind.agent then author.id else ""))

pub record ChannelPost : Type 0 where
  pub id : String
  pub channel_id : String
  pub author_kind : MessageParticipantKind
  pub author_id : String
  pub body : String
  pub thread_id : String
  pub created_at : ℕ
  pub replies : ℕ

pub record ChannelPostPage : Type 0 where
  pub posts : List ChannelPost
  pub next_cursor : String

-- channelPostColumns
abbrev pub channel_post : World → PostRow → ChannelPost
channel_post w x = record {
  id = x.post_id;
  channel_id = x.channel_id;
  author_kind = x.author_kind;
  author_id = x.author_id;
  body = x.body;
  thread_id = text_or_empty x.thread_id;
  created_at = x.created_at;
  replies =
      count (λ (r : PostRow). (r.scope_id is x.scope_id) && holds r.thread_id x.post_id)
        w.resources.posts;
}

unfoldable pub starts_text : String → String → Bool
starts_text String.[] t = true
starts_text (String.◌∷◌ c s) String.[] = false
starts_text (String.◌∷◌ c s) (String.◌∷◌ d t) = (code c == code d) && starts_text s t

-- LIKE '%s%' with the wildcards of s escaped
unfoldable pub contains_text : String → String → Bool
contains_text s String.[] = starts_text s String.[]
contains_text s (String.◌∷◌ d t) = starts_text s (String.◌∷◌ d t) || contains_text s t

-- A thread is its first post and the replies; without one and without a search, the first posts.
abbrev pub in_thread : ChannelHistoryInput → PostRow → Bool
in_thread input x =
    if input.thread_id is ""
    then not (input.query is "") || not (is_some x.thread_id)
    else holds x.thread_id input.thread_id || (x.post_id is input.thread_id)

-- The newest first; posts of one instant by their identifiers.
abbrev pub is_older : ℕ → String → PostRow → Bool
is_older at id x = ltb x.created_at at || ((x.created_at == at) && text_ltb x.post_id id)

abbrev pub before_cursor : Option PostRow → PostRow → Bool
before_cursor none x = true
before_cursor (some b) x = is_older b.created_at b.post_id x

abbrev pub matches_history : String → ChannelHistoryInput → String → Option PostRow → PostRow → Bool
matches_history scope_id input lowered cursor x =
    (x.scope_id is scope_id)
    && (((input.channel_id is "") || (x.channel_id is input.channel_id))
        && (in_thread input x
            && (((input.query is "") || contains_text lowered x.search_body)
                && before_cursor cursor x)))

unfoldable pub history_rows :
    World → String → ChannelHistoryInput → Option PostRow → ℕ → List PostRow
history_rows w scope_id input cursor limit = take limit (
    sort_by (λ (x : PostRow) (y : PostRow). is_older x.created_at x.post_id y)
      (select (matches_history scope_id input (w.hashes.to_lower input.query) cursor)
        w.resources.posts))

abbrev pub last_id : String → List ChannelPost → String
last_id s [] = s
last_id s (x ∷ xs) = last_id x.id xs

-- One post more than the limit was read: it says that there are more.
unfoldable pub post_page : ℕ → List ChannelPost → ChannelPostPage
post_page limit posts =
    if ltb limit (length posts)
    then record { posts = take limit posts; next_cursor = last_id "" (take limit posts) }
    else record { posts = posts; next_cursor = "" }

abbrev pub history_limit : ℕ → ℕ
history_limit limit = if limit == 0 then 50 else limit

unfoldable pub find_cursor : String → String → Tx (Option PostRow)
find_cursor scope_id before =
    if before is ""
    then pure none
    else (gets (λ w.
          find (λ (x : PostRow). (x.scope_id is scope_id) && (x.post_id is before))
            w.resources.posts)
        >>= λ found. or_fail found ErrorCode.not_found >>= λ row. pure (some row))

unfoldable pub channel_history : Context → String → ChannelHistoryInput → Tx ChannelPostPage
channel_history c scope_id input = do
  channel_author c scope_id
  ensure
      (validate_identity input.channel_id true
        && (validate_identity input.thread_id true && validate_identity input.before true))
      ErrorCode.invalid_argument
  ensure (validate_text input.query 256 true) ErrorCode.invalid_argument
  ensure (not (input.channel_id is "") || not (input.query is "")) ErrorCode.invalid_argument
  ensure (not (ltb 100 (history_limit input.limit))) ErrorCode.invalid_argument
  begin_tx c
  when (not (input.channel_id is ""))
      (require_channel scope_id input.channel_id >>= λ name. pure tt)
  cursor ← find_cursor scope_id input.before
  gets (λ w. post_page (history_limit input.limit) (
      map (channel_post w)
        (history_rows w scope_id input cursor (suc (history_limit input.limit)))))

-- A page of posts is never longer than the limit.
pub post_page-length :
    (limit : ℕ) (posts : List ChannelPost) → length (post_page limit posts).posts ≤ limit
unfolding post_page
post_page-length limit posts = elim (Bool-cases (ltb limit (length posts))) [
  | inl e ↦ rw e (omega (arith, length-take limit posts))
  | inr e ↦ rw e (ground (arith, e))
]

-- The posts of a page belong to the scope and match what was asked for, and every one is older than
-- the cursor.
pub history_rows-match :
    (w : World) (scope_id : String) (input : ChannelHistoryInput) (cursor : Option PostRow)
    (limit : ℕ)
    → All
        (λ (x : PostRow).
          matches_history scope_id input (w.hashes.to_lower input.query) cursor x ≡ true)
        (history_rows w scope_id input cursor limit)
unfolding history_rows
history_rows-match w scope_id input cursor limit = All-take _ limit _ (
    All-sort_by _ _ _ (
      select_sound (matches_history scope_id input (w.hashes.to_lower input.query) cursor)
        w.resources.posts))
