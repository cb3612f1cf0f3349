-- ===== src/Tests/Jobs.antt =====
-- cli_batch.py, the names of jobs and the plan of stages.
use infinite_streaming_encod.Prelude.{◌≡◌, refl, true, false, some, [], ◌∷◌}
use infinite_streaming_encod.Prelude.Text.{
  Text, all_digits, before, codes, decimal, is_empty, starts_with, value_from,
}
use infinite_streaming_encod.Jobs.{
  Variant, chunk_index, chunk_key, emit_plan, encode_key, seen_in, segment, stage_key_for_job,
  variant_job, variant_key,
}
use infinite_streaming_encod.Jobs.Keys.{IsSegment, job_name, stage_key_for_job-variants}
use infinite_streaming_encod.Jobs.Plan.{emit_plan-has_job}

abbrev h264 : Text
h264 = codes "h264"

abbrev tier : Text
tier = codes "720p"

abbrev cut : Variant
cut = record { codec = h264; label = tier; chunked = true; chunk_indices = 0 ∷ 12 ∷ [] }

abbrev whole : Variant
whole = record { codec = codes "hevc"; label = tier; chunked = false; chunk_indices = [] }

read_back :
    stage_key_for_job (codes "var-h264-720p-c12-x-ab12cd") ≡ some (codes "encode:h264:720p:chunk12")
unfolding stage_key_for_job starts_with variant_job segment is_empty before variant_key chunk_index
    all_digits decimal value_from
read_back = refl

h264-IsSegment : IsSegment h264
unfolding is_empty
h264-IsSegment = ((refl, (refl, (refl, (refl, tt)))), refl)

tier-IsSegment : IsSegment tier
unfolding is_empty
tier-IsSegment = ((refl, (refl, (refl, (refl, tt)))), refl)

stage_key_for_job-variants_example :
    (stage_key_for_job (job_name h264 tier (b'c' ∷ decimal 12) (codes "x-ab12cd"))
      ≡ some (chunk_key h264 tier 12))
    × (stage_key_for_job (job_name h264 tier (codes "whole") (codes "x-ab12cd"))
        ≡ some (encode_key h264 tier))
stage_key_for_job-variants_example =
    stage_key_for_job-variants h264 tier (codes "x-ab12cd") 12 h264-IsSegment tier-IsSegment

emit_plan-has_job_example :
    (key : Text) × (stage_key_for_job (job_name h264 tier (b'c' ∷ decimal 12) (codes "x"))
      ≡ some key)
    × (seen_in key (emit_plan (whole ∷ cut ∷ []) true true false) ≡ true)
unfolding is_empty
emit_plan-has_job_example =
    emit_plan-has_job cut (0 ∷ []) [] 12 refl (refl, refl) refl (whole ∷ []) [] true true false
      (codes "x") h264-IsSegment tier-IsSegment
