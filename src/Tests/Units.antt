-- ===== src/Tests/Units.antt =====
-- encode_variants.py, the work that is left of a ladder of two variants.
use infinite_streaming_encod.Prelude.{
  ℕ, ◌*◌, ◌≡◌, ◌⊎◌, refl, Bool, true, ◌==◌, Option, none, some, List, [], ◌∷◌, All, length,
}
use infinite_streaming_encod.Prelude.Text.{Text, codes, text_eq}
use infinite_streaming_encod.Prelude.Raises.{returned}
use infinite_streaming_encod.Chunking.{
  Chunk, chunk_count, chunk_grid_for, clipped, grid_search, is_grid, nominal, plan_chunks, tile,
  units_over, validate,
}
use infinite_streaming_encod.Units.{
  Work, add_variant, all_complete, chunk_units, encode_work, planned, variants_of, work_list,
}
use infinite_streaming_encod.Units.Coverage.{IsCovered, encode_work-IsCovered}
use infinite_streaming_encod.Prelude.Rounding.{ceil_div, off_whole, round_div}
use infinite_streaming_encod.Chunking.Tail.{coalesce_runt_tail}

abbrev second : ℕ
second = 1_000_000

-- The first variant is on disk, and the first chunk of the second one.
abbrev on_disk : Text → Text → Option ℕ → Bool
on_disk codec label none = text_eq label (codes "360p")
on_disk codec label (some i) = i == 0

abbrev ladder : List (Text × List Text)
ladder = (codes "h264", codes "360p" ∷ codes "720p" ∷ []) ∷ []

work :
    (w : Work) × (encode_work on_disk ladder (334 * second) 0 (132 * second) (6 * second)
      ≡ returned w)
unfolding encode_work all_complete variants_of text_eq planned plan_chunks validate off_whole
    chunk_count
work = (_, refl)

-- Two of the three chunks are left.
work_left : (length work.0.units ≡ 2) × (length work.0.to_concat ≡ 1)
unfolding work work_list add_variant coalesce_runt_tail tile units_over ceil_div chunk_grid_for
    grid_search is_grid round_div clipped nominal chunk_units
work_left = (refl, refl)

encode_work-IsCovered_example :
    (chunks : List Chunk) × ((all_complete on_disk (variants_of ladder) ≡ true)
      ⊎ (planned on_disk (334 * second) 0 (132 * second) (6 * second) ≡ returned chunks))
    × All (IsCovered on_disk chunks work.0) (variants_of ladder)
    × (work.0.outputs ≡ variants_of ladder)
encode_work-IsCovered_example =
    encode_work-IsCovered on_disk ladder (334 * second) 0 (132 * second) (6 * second) work.0 work.1
