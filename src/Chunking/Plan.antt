-- ===== src/Chunking/Plan.antt =====
-- What `plan_chunks` returns, and when it raises.
use native.Mathlib.Nat.{mul-le-mul_right}
use infinite_streaming_encod.Prelude.{
  ℕ, zero, suc, ◌+◌, ◌-◌, ◌*◌, ◌/◌, ◌%◌, ◌≤◌, ◌<◌, min, max, ◌≡◌, List, arith, length, All,
}
use infinite_streaming_encod.Prelude.Rounding.{million, ceil_div_bounds, division, off_whole}
use infinite_streaming_encod.Prelude.Raises.{returned}
use infinite_streaming_encod.Chunking.{
  Chunk, chunk_count, chunk_grid_for, grid_search, units_over, validate, tile, plan_chunks,
  total_units, pieces,
}
use infinite_streaming_encod.Chunking.Tiling.{
  Tiles, OnGrid, IsEven, IsNumbered, IsDivision, tile-Tiles, start_zero, tile-OnGrid, tile-IsEven,
  tile-IsNumbered, length-tile,
}

inside_of_bound :
    (c g q u : ℕ)
    → 0 < c
    → q * (g * million) < (c * million - g) + g * million
    → u < max 1 q
    → u * g < c
inside_of_bound c g q zero p b h = omega arith
inside_of_bound c g q (suc v) p b h =
    let m : suc (suc v) * g ≤ q * g = mul-le-mul_right g (omega arith) in omega arith

-- The units that `units_over` counts begin inside the clip.
units_over-inside :
    (content unit u : ℕ) → 0 < content → 0 < unit → u < units_over content unit → u * unit < content
unfolding units_over
units_over-inside content unit u c g h =
    inside_of_bound content unit _ u c (ceil_div_bounds _ (unit * million) (omega arith)).1 h

-- They cover it, up to one part in a million of a unit.
units_over-covers : (content unit : ℕ) → 0 < unit → content < (units_over content unit + 1) * unit
unfolding units_over
units_over-covers content unit g =
    let b = ceil_div_bounds (content * million - unit) (unit * million) (omega arith) in grind arith

units_over-pos : (content unit : ℕ) → 0 < units_over content unit
unfolding units_over
units_over-pos content unit = omega arith

grid_search-pos : (rounds k segment : ℕ) → 0 < k → 0 < segment → 0 < grid_search rounds k segment
unfolding grid_search
grid_search-pos zero k segment h g = g
grid_search-pos (suc rounds) k segment h g = ground (arith, grid_search-pos rounds (k + 1) segment)

chunk_grid_for-pos : (segment : ℕ) → 0 < segment → 0 < chunk_grid_for segment
unfolding chunk_grid_for
chunk_grid_for-pos segment h = ground (arith, grid_search-pos 240 1 segment)

-- The inputs on which no `ValueError` is raised.
pub record IsAccepted (content chunk segment : ℕ) : Type 0 where
  pub content_pos : 0 < content
  pub chunk_pos : 0 < chunk
  pub segment_pos : 0 < segment
  pub multiple : off_whole chunk segment * million ≤ segment

abbrev pub planned : ℕ → ℕ → ℕ → List Chunk
planned content chunk segment =
    let total = total_units content segment in
    let n = pieces content chunk segment in
    tile content (chunk_grid_for segment) n (total / n) (total % n) n 0 0

module _ (content chunk segment : ℕ) where
  pub plan-IsAccepted :
      {cs : List Chunk}
      → plan_chunks content chunk segment ≡ returned cs
      → IsAccepted content chunk segment
  unfolding plan_chunks validate
  plan-IsAccepted h = record {
    content_pos = ground arith;
    chunk_pos = ground arith;
    segment_pos = ground arith;
    multiple = ground arith;
  }

  pub plan-planned :
      IsAccepted content chunk segment
      → plan_chunks content chunk segment ≡ returned (planned content chunk segment)
  unfolding plan_chunks validate chunk_count total_units pieces
  plan-planned a = ground arith

  module _ (a : IsAccepted content chunk segment) where
    grid_pos : 0 < chunk_grid_for segment
    grid_pos = chunk_grid_for-pos segment a.segment_pos

    pieces_bounds :
        (0 < pieces content chunk segment)
        × (pieces content chunk segment ≤ total_units content segment)
    unfolding pieces total_units
    pieces_bounds =
        omega (arith, units_over-pos content chunk, units_over-pos content (chunk_grid_for segment))

    plan-IsDivision :
        let n = pieces content chunk segment in
        let total = total_units content segment in
        IsDivision content (chunk_grid_for segment) n (total / n) (total % n)
    unfolding total_units
    plan-IsDivision =
        let (e, b, r) = division _ _ pieces_bounds.0 pieces_bounds.1 in
        record {
          some_units = b;
          remainder = r;
          inside = λ u h. units_over-inside content _ u a.content_pos grid_pos (omega arith);
        }

    planned-Tiles : Tiles 0 content (planned content chunk segment)
    planned-Tiles =
        tile-Tiles content _ _ _ _ plan-IsDivision _ 0 0 pieces_bounds.0 (omega arith)
          (start_zero content _ _ _ _ plan-IsDivision) grid_pos

    planned-OnGrid :
        All (λ c. OnGrid (chunk_grid_for segment) c.start) (planned content chunk segment)
    planned-OnGrid =
        tile-OnGrid content _ _ _ _ plan-IsDivision _ 0 0 pieces_bounds.0 (omega arith)
          (start_zero content _ _ _ _ plan-IsDivision)

    planned-IsEven :
        let n = pieces content chunk segment in
        IsEven
          (chunk_grid_for segment)
          (total_units content segment / n)
          (planned content chunk segment)
    unfolding total_units
    planned-IsEven =
        tile-IsEven content _ _ _ _ plan-IsDivision
          (rw ((division _ _ pieces_bounds.0 pieces_bounds.1).0)
            (units_over-covers content _ grid_pos))
          _ 0 0 pieces_bounds.0 (omega arith) (start_zero content _ _ _ _ plan-IsDivision)

planned_of_returned :
    (content chunk segment : ℕ) {cs : List Chunk}
    → plan_chunks content chunk segment ≡ returned cs
    → planned content chunk segment ≡ cs
planned_of_returned content chunk segment h =
    cc (plan-planned content chunk segment (plan-IsAccepted content chunk segment h))

-- Where `plan_chunks` returns chunks, they are numbered from 0 on, lie end to end from the start
-- of the clip to its end, and none is empty. There are as many as the smaller of the clip's
-- `chunk_count` and its grid units.
pub plan_chunks-Tiles :
    (content chunk segment : ℕ) (cs : List Chunk)
    → plan_chunks content chunk segment ≡ returned cs
    → Tiles 0 content cs
      × IsNumbered 0 cs
      × (length cs ≡ min (units_over content chunk) (units_over content (chunk_grid_for segment)))
unfolding pieces total_units
plan_chunks-Tiles content chunk segment cs h = rw (← planned_of_returned content chunk segment h) (
  planned-Tiles content chunk segment (plan-IsAccepted content chunk segment h),
  tile-IsNumbered content _ _ _ _ _ 0 0,
  length-tile content _ _ _ _ _ 0 0,
)

-- Where `plan_chunks` returns chunks, each starts a whole number of grid units into the clip.
pub plan_chunks-OnGrid :
    (content chunk segment : ℕ) (cs : List Chunk)
    → plan_chunks content chunk segment ≡ returned cs
    → All (λ c. OnGrid (chunk_grid_for segment) c.start) cs
plan_chunks-OnGrid content chunk segment cs h =
    rw (← planned_of_returned content chunk segment h)
      (planned-OnGrid content chunk segment (plan-IsAccepted content chunk segment h))

-- Where `plan_chunks` returns chunks, the clip is divided evenly: with `base` the whole grid units
-- for each chunk, every chunk but the last has `base` or `base + 1` units, and the last one more
-- than `base - 1` and fewer than `base + 1`.
pub plan_chunks-IsEven :
    (content chunk segment : ℕ) (cs : List Chunk)
    → plan_chunks content chunk segment ≡ returned cs
    → let total = units_over content (chunk_grid_for segment) in
      IsEven (chunk_grid_for segment) (total / min (units_over content chunk) total) cs
unfolding total_units pieces
plan_chunks-IsEven content chunk segment cs h =
    rw (← planned_of_returned content chunk segment h)
      (planned-IsEven content chunk segment (plan-IsAccepted content chunk segment h))
