-- ===== src/Outputs/Rates.antt =====
-- consumeOutputQuota of bus/output_streams.go: how many requests a minute lets through.
use october_bus.Base.{
  ℕ, ◌+◌, ◌-◌, ◌≤◌, ◌<◌, ◌%◌, String, Bool, true, false, Option, none, some, List, ◌≡◌, refl, ap,
  ◌∙◌, arith, Bool-cases, Option-cases, inl, inr, ◌is◌, eq_iff, ◌&&◌, ◌==◌, ltb, leb,
}
use october_bus.Protocol.{ErrorCode}
use october_bus.World.{World, UsageRow}
use october_bus.Rows.{find, delete}
use october_bus.Rows.Laws.{find_sound, exists-of-find}
use october_bus.Rows.Keys.{find-update_any, find-append, find-delete_other, exists-of_no_find}
use october_bus.Tx.{ok, err, ◌>>=◌, gets, or_fail, ensure, alter}
use october_bus.Outputs.Publish.{
  is_usage, counted, count_request, rate_cap, count_usage, consume_output_quota,
}

abbrev number : Bool → Option UsageRow → ℕ
number publish none = 0
number publish (some u) = counted publish u

-- The requests that a principal has made in a window.
unfoldable pub requests_made : String → String → String → ℕ → Bool → List UsageRow → ℕ
requests_made scope_id kind id window publish rows =
    number publish (find (is_usage scope_id kind id window) rows)

module _ (scope_id kind id : String) (window : ℕ) (publish : Bool) where
  abbrev is_mine : UsageRow → Bool
  is_mine = is_usage scope_id kind id window

  same_usage : (b : Bool) (u : UsageRow) → is_mine (count_request b u) ≡ is_mine u
  same_usage true u = refl
  same_usage false u = refl

  raised : (b : Bool) (u : UsageRow) → counted b (count_request b u) ≡ counted b u + 1
  raised true u = refl
  raised false u = refl

  abbrev first_request : UsageRow
  first_request = record {
    scope_id = scope_id;
    principal_type = kind;
    principal_id = id;
    window_start = window;
    publish_count = 0;
    read_count = 0;
  }

  is_first : (b : Bool) → is_mine (count_request b first_request) ≡ true
  is_first b =
      same_usage b first_request
      ∙ rw ((eq_iff scope_id scope_id).1 refl, (eq_iff kind kind).1 refl, (eq_iff id id).1 refl)
          (equal window)
    where
      equal : (n : ℕ) → (n == n) ≡ true
      equal n = ground arith

  one_request : (b : Bool) → counted b (count_request b first_request) ≡ 1
  one_request true = refl
  one_request false = refl

  -- The row of the window stands there afterwards, and counts one request more.
  counted_row :
      (rows : List UsageRow)
      → (u : UsageRow) × (find is_mine (count_usage scope_id kind id window publish rows) ≡ some u)
        × (counted publish u ≡ requests_made scope_id kind id window publish rows + 1)
  unfolding count_usage requests_made
  counted_row rows = elim (Option-cases (find is_mine rows)) [
    | inl e ↦
        (let absent = exists-of_no_find is_mine rows e in
          rw (absent, e)
            (
              count_request publish first_request,
              find-append is_mine rows (count_request publish first_request)
                  ∙ rw (e, is_first publish) refl,
              one_request publish,
            ))
    | inr (u, e) ↦
        rw (exists-of-find is_mine rows u e, e)
          (
            count_request publish u,
            find-update_any is_mine is_mine (count_request publish) (same_usage publish) rows
                ∙ rw (e, find_sound is_mine rows u e) refl,
            raised publish u,
          )
  ]

  -- The windows that are dropped are older ones.
  abbrev is_old : UsageRow → Bool
  is_old u = (u.scope_id is scope_id) && ltb u.window_start (window - 60000)

  still_made :
      (rows : List UsageRow)
      → requests_made scope_id kind id window publish (delete is_old rows)
        ≡ requests_made scope_id kind id window publish rows
  unfolding requests_made
  still_made rows = ap (number publish) (find-delete_other is_mine is_old not_mine rows)
    where
      not_mine : (u : UsageRow) → is_old u ≡ true → is_mine u ≡ false
      not_mine u h = elim (Bool-cases (is_mine u)) [
        | inl e ↦ absurd (ground (arith, h, e))
        | inr e ↦ e
      ]

requests-of_row :
    (scope_id kind id : String) (window : ℕ) (publish : Bool) (rows : List UsageRow) (u : UsageRow)
    → find (is_usage scope_id kind id window) rows ≡ some u
    → requests_made scope_id kind id window publish rows ≡ counted publish u
unfolding requests_made
requests-of_row scope_id kind id window publish rows u e = ap (number publish) e

-- A request is let through exactly while its principal has made fewer requests of its kind in the
-- minute than the rate allows, and is counted then; at the rate it is refused for backpressure.
pub consume_output_quota-rate :
    (scope_id kind id : String) (publish : Bool) (now : ℕ) (w : World)
    → let made = requests_made scope_id kind id (now - now % 60000) publish w.resources.usage in
      (made < rate_cap publish
        → (w' : World) × (consume_output_quota scope_id kind id publish now w ≡ ok tt w')
          × (requests_made scope_id kind id (now - now % 60000) publish w'.resources.usage
              ≡ made + 1))
      × (rate_cap publish ≤ made
          → consume_output_quota scope_id kind id publish now w ≡ err ErrorCode.backpressure)
unfolding consume_output_quota ◌>>=◌ alter gets or_fail ensure
consume_output_quota-rate scope_id kind id publish now w =
    let window = now - now % 60000 in
    let kept = delete (is_old scope_id kind id window publish) w.resources.usage in
    let (u, found, counts) = counted_row scope_id kind id window publish kept in
    let total =
      counts ∙ ap (λ n. n + 1) (still_made scope_id kind id window publish w.resources.usage) in
    (
      λ few. rw (found, below few total) (_, refl, counted_as _ found ∙ total),
      λ many. rw (found, above many total) refl,
    )
  where
    counted_as :
        (rows : List UsageRow) {u : UsageRow}
        → find (is_usage scope_id kind id (now - now % 60000)) rows ≡ some u
        → requests_made scope_id kind id (now - now % 60000) publish rows ≡ counted publish u
    counted_as rows e = requests-of_row scope_id kind id (now - now % 60000) publish rows _ e

    below : {made n : ℕ} → made < rate_cap publish → n ≡ made + 1 → leb n (rate_cap publish) ≡ true
    below h e = ground (arith, h, e)

    above : {made n : ℕ} → rate_cap publish ≤ made → n ≡ made + 1 → leb n (rate_cap publish) ≡ false
    above h e = ground (arith, h, e)
