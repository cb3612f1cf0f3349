-- ===== src/Chunking.antt =====
-- scripts/infinite_streaming_encoder/chunking.py: how a clip is cut into chunks.
-- A duration is a whole number of microseconds, so `_EPS` seconds is one microsecond, and 1e-6 of
-- a ratio is one part in `million`. Zero stands for every duration that is not positive.
pub mod Grid
pub mod Tiling
pub mod Plan
pub mod Accepted
pub mod Tail
use infinite_streaming_encod.Prelude.{
  ℕ, zero, suc, ◌+◌, ◌-◌, ◌*◌, ◌/◌, ◌%◌, min, max, Bool, ◌||◌, ◌&&◌, List, [], ◌∷◌, ltb, leb, ◌==◌,
  if◌then◌else◌,
}
use infinite_streaming_encod.Prelude.Raises.{Raises, raised, returned, ◌>>=◌}
use infinite_streaming_encod.Prelude.Rounding.{million, round_div, off_whole, ceil_div}

-- `CHUNK_GRID_S`, 6.0 seconds.
abbrev pub chunk_grid : ℕ
chunk_grid = 6_000_000

-- `_CHUNK_GRID_MAX_UNITS`.
abbrev pub chunk_grid_max_units : ℕ
chunk_grid_max_units = 240

-- The test of the search: `round(r) >= 1 and abs(r - round(r)) < _EPS` for `r = g / segment`.
unfoldable pub is_grid : ℕ → ℕ → Bool
is_grid g segment = leb 1 (round_div g segment) && ltb (off_whole g segment * million) segment

-- `for k in range(k, k + rounds)`, then the fallback after the loop.
unfoldable pub grid_search : ℕ → ℕ → ℕ → ℕ
grid_search zero k segment = segment
grid_search (suc rounds) k segment =
    let rest = grid_search rounds (k + 1) segment in
    let g = chunk_grid * k in if is_grid g segment then g else rest

unfoldable pub chunk_grid_for : ℕ → ℕ
chunk_grid_for segment =
    if segment == 0 then chunk_grid else grid_search chunk_grid_max_units 1 segment

-- `Chunk`, with its property `end_s`.
pub record Chunk : Type 0 where
  pub index : ℕ
  pub start : ℕ
  pub duration : ℕ

abbrev pub end_of : Chunk → ℕ
end_of c = c.start + c.duration

-- The three `ValueError`s.
pub data PlanError : Type 0 where
  content_not_positive durations_not_positive not_a_multiple : PlanError

abbrev pub Result : Type 0 → Type 0
Result A = Raises PlanError A

-- `_validate`.
unfoldable pub validate : ℕ → ℕ → Result (Unit {0})
validate chunk segment =
    if chunk == 0 || segment == 0
    then raised durations_not_positive
    else if ltb segment (off_whole chunk segment * million)
    then raised not_a_multiple
    else returned tt

-- `max(1, math.ceil(content / unit - _EPS))`. Where the difference is negative, `max` hides that
-- `-` stops at 0.
unfoldable pub units_over : ℕ → ℕ → ℕ
units_over content unit = max 1 (ceil_div (content * million - unit) (unit * million))

unfoldable pub chunk_count : ℕ → ℕ → Result ℕ
chunk_count content chunk =
    if content == 0 then raised content_not_positive else returned (units_over content chunk)

module _ (content grid n base extra : ℕ) where
  -- `units * grid` of the chunk with this index.
  unfoldable pub nominal : ℕ → ℕ
  nominal index = (base + (if ltb index extra then 1 else 0)) * grid

  -- The duration, clipped in the last chunk and in any that would overrun.
  unfoldable pub clipped : ℕ → ℕ → ℕ
  clipped index start =
      if (index == n - 1) || ltb content (start + nominal index + 1)
      then content - start
      else nominal index

  -- The rounds of `for index in range(n)` that are left, at `index`.
  unfoldable pub tile : ℕ → ℕ → ℕ → List Chunk
  tile zero index start = []
  tile (suc left) index start =
      let duration = clipped index start in
      record { index = index; start = start; duration = duration }
      ∷ tile left (index + 1) (start + duration)

-- The grid units and the chunks that `plan_chunks` divides a valid clip into.
unfoldable pub total_units : ℕ → ℕ → ℕ
total_units content segment = units_over content (chunk_grid_for segment)

unfoldable pub pieces : ℕ → ℕ → ℕ → ℕ
pieces content chunk segment = min (units_over content chunk) (total_units content segment)

unfoldable pub plan_chunks : ℕ → ℕ → ℕ → Result (List Chunk)
plan_chunks content chunk segment = if content == 0 then raised content_not_positive else (do
  checked ← validate chunk segment
  count ← chunk_count content chunk
  let grid = chunk_grid_for segment
  let total = units_over content grid
  let n = min count total
  returned (tile content grid n (total / n) (total % n) n 0 0))
