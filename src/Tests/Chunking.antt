-- ===== src/Tests/Chunking.antt =====
-- chunking.py at the clip that its comments describe: 334 s at a 132 s target.
use native.Mathlib.Nat.{dvd-mul_right}
use Prim.Native.Nat.{◌∣◌}
use infinite_streaming_encod.Prelude.{
  false, ℕ, ◌*◌, ◌/◌, ◌≤◌, ◌<◌, min, ◌≡◌, refl, ◌⊎◌, ◌↔◌, List, [], ◌∷◌, length, All, arith,
}
use infinite_streaming_encod.Prelude.Rounding.{round_div, off_whole, ceil_div}
use infinite_streaming_encod.Prelude.Raises.{raised, returned}
use infinite_streaming_encod.Chunking.{
  Chunk, not_a_multiple, chunk_grid, chunk_grid_for, units_over, plan_chunks, is_grid, grid_search,
  validate, chunk_count, tile, clipped, nominal,
}
use infinite_streaming_encod.Chunking.Grid.{chunk_grid_for-least}
use infinite_streaming_encod.Chunking.Tiling.{Tiles, IsNumbered, OnGrid, IsEven}
use infinite_streaming_encod.Chunking.Tail.{
  coalesce_runt_tail, is_long_but_last, coalesce_runt_tail-plan,
}
use infinite_streaming_encod.Chunking.Accepted.{IsMultiple, IsTiny, plan_chunks-returned_iff}
use infinite_streaming_encod.Chunking.Plan.{
  plan_chunks-Tiles, plan_chunks-OnGrid, plan_chunks-IsEven,
}

abbrev second : ℕ
second = 1_000_000

-- 114, 114 and 106 seconds.
abbrev three : List Chunk
three =
    record { index = 0; start = 0; duration = 114 * second }
    ∷ record { index = 1; start = 114 * second; duration = 114 * second }
    ∷ record { index = 2; start = 228 * second; duration = 106 * second }
    ∷ []

plan_run : plan_chunks (334 * second) (132 * second) (6 * second) ≡ returned three
unfolding plan_chunks validate chunk_count units_over chunk_grid_for grid_search is_grid tile
    clipped nominal round_div off_whole ceil_div
plan_run = refl

plan_refused : plan_chunks (334 * second) (131 * second) (6 * second) ≡ raised not_a_multiple
unfolding plan_chunks validate off_whole
plan_refused = refl

grid_of_four_seconds : chunk_grid_for (4 * second) ≡ 12 * second
unfolding chunk_grid_for grid_search is_grid round_div off_whole
grid_of_four_seconds = refl

plan_chunks-Tiles_example :
    Tiles 0 (334 * second) three
    × IsNumbered 0 three
    × (length three
        ≡ min
            (units_over (334 * second) (132 * second))
            (units_over (334 * second) (chunk_grid_for (6 * second))))
plan_chunks-Tiles_example =
    plan_chunks-Tiles (334 * second) (132 * second) (6 * second) three plan_run

plan_chunks-OnGrid_example : All (λ c. OnGrid (chunk_grid_for (6 * second)) c.start) three
plan_chunks-OnGrid_example =
    plan_chunks-OnGrid (334 * second) (132 * second) (6 * second) three plan_run

plan_chunks-IsEven_example :
    let total = units_over (334 * second) (chunk_grid_for (6 * second)) in
    IsEven
      (chunk_grid_for (6 * second))
      (total / min (units_over (334 * second) (132 * second)) total)
      three
plan_chunks-IsEven_example =
    plan_chunks-IsEven (334 * second) (132 * second) (6 * second) three plan_run

plan_chunks-returned_iff_example :
    ((cs : List Chunk) × (plan_chunks (334 * second) (132 * second) (6 * second) ≡ returned cs)) ↔ (
      (0 < 334 * second)
      × (0 < 132 * second)
      × (0 < 6 * second)
      × (IsMultiple (132 * second) (6 * second) ⊎ IsTiny (132 * second) (6 * second)))
plan_chunks-returned_iff_example =
    plan_chunks-returned_iff (334 * second) (132 * second) (6 * second)

chunk_grid_for-least_example :
    ((4 * second) ∣ chunk_grid_for (4 * second))
    × (((chunk_grid ∣ chunk_grid_for (4 * second))
          × ((m : ℕ) → 0 < m → chunk_grid ∣ m → (4 * second) ∣ m → chunk_grid_for (4 * second) ≤ m))
        ⊎ ((chunk_grid_for (4 * second) ≡ 4 * second)
            × ((m : ℕ) → 0 < m → chunk_grid ∣ m → (4 * second) ∣ m → chunk_grid * 240 < m)))
chunk_grid_for-least_example =
    chunk_grid_for-least (4 * second) (omega arith) (omega arith) (dvd-mul_right 1000 4000)

-- The third chunk, of 106 s, is merged where 110 s are asked for.
coalesce_runt_tail-plan_example :
    Tiles 0 (334 * second) (coalesce_runt_tail (110 * second) three)
    × IsNumbered 0 (coalesce_runt_tail (110 * second) three)
    × ((is_long_but_last (110 * second) three ≡ false)
        ⊎ All (λ c. 110 * second ≤ Chunk.duration c) (coalesce_runt_tail (110 * second) three))
coalesce_runt_tail-plan_example =
    coalesce_runt_tail-plan (334 * second) (132 * second) (6 * second) (110 * second) three plan_run
