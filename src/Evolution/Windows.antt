-- ===== src/Evolution/Windows.antt =====
-- The values of an output stream: a window of consecutive numbers, from behind the floor of the
-- stream to its counter, that is not longer than the stream's limit.
pub mod Streams
pub mod Publishing
use october_bus.Base.{
  ℕ, zero, suc, ◌+◌, ◌-◌, ◌≤◌, String, Bool, true, false, Option, none, some, List, [], ◌∷◌, ◌≡◌,
  ◌is◌, map, if◌then◌else◌,
}
use october_bus.World.{StreamRow, ValueRow}
use october_bus.Rows.{select, find, count}
use october_bus.Rows.Numbers.{numbers}

-- The numbers of the values of a stream, in the order of insertion.
unfoldable pub sequences : String → List ValueRow → List ℕ
sequences stream_id values =
    map (λ (v : ValueRow). v.sequence) (select (λ v. v.stream_id is stream_id) values)

unfoldable pub WindowOf : List ℕ → Option StreamRow → Type 0
WindowOf ns none = ns ≡ []
WindowOf ns (some r) =
    (ns ≡ numbers (r.floor_sequence + 1) (r.sequence - r.floor_sequence))
    × (r.floor_sequence ≤ r.sequence)
    × (r.sequence ≤ r.floor_sequence + r.retention_limit)

abbrev pub has_id : String → StreamRow → Bool
has_id stream_id r = r.stream_id is stream_id

-- An identifier names one stream at most, whose values are its window; without a stream there are
-- no values.
unfoldable pub IsWindowed : List StreamRow → List ValueRow → Type 0
IsWindowed streams values =
    (id : String)
    → (count (has_id id) streams ≤ 1) × WindowOf (sequences id values) (find (has_id id) streams)
