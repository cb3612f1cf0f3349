-- ===== src/Jobs.antt =====
-- scripts/infinite_streaming_encoder/cli_batch.py: the names of Batch jobs, the stage keys that
-- they stand for, and the plan of stages that a run announces.
-- Texts are ASCII, and times are whole milliseconds.
pub mod Keys
pub mod Plan
use infinite_streaming_encod.Prelude.{
  ℕ, ◌+◌, ◌-◌, Bool, true, false, ◌&&◌, ◌||◌, not, Option, none, some, List, [], ◌∷◌, ◌++◌, ltb,
  ◌==◌, if◌then◌else◌, length, drop,
}
use infinite_streaming_encod.Prelude.Text.{
  Text, codes, text_eq, starts_with, is_empty, all_digits, value_from, decimal, before,
}

-- `([^-]+)-`: what is in front of the first dash, where that is not empty, and what is after it.
unfoldable pub segment : Text → Option (Text × Text)
segment text =
    let head = before b'-' text in
    if is_empty head || not (ltb (length head) (length text))
    then none
    else some (head, drop (length head + 1) text)

-- `c(\d+)`, as a whole segment.
unfoldable pub chunk_index : Text → Option ℕ
chunk_index [] = none
chunk_index (c ∷ digits) =
    if c == b'c' && not (is_empty digits) && all_digits digits
    then some (value_from 0 digits)
    else none

abbrev pub encode_key : Text → Text → Text
encode_key codec tier = codes "encode:" ++ (codec ++ b':' ∷ tier)

abbrev pub chunk_key : Text → Text → ℕ → Text
chunk_key codec tier i = encode_key codec tier ++ (codes ":chunk" ++ decimal i)

-- `_CHUNK_JOBNAME_RE` and `_WHOLE_JOBNAME_RE`, of the third segment.
unfoldable pub variant_key : Text → Text → Text → Option Text
variant_key codec tier third = elim (chunk_index third) [
  | some i ↦ some (chunk_key codec tier i)
  | none ↦ if text_eq third (codes "whole") then some (encode_key codec tier) else none
]

abbrev pub job_prefix : Text
job_prefix = codes "var-"

unfoldable pub variant_job : Text → Option Text
variant_job jobname =
    if not (starts_with job_prefix jobname)
    then none
    else elim (segment (drop (length job_prefix) jobname)) [
      | none ↦ none
      | some (codec, rest) ↦ elim (segment rest) [
        | none ↦ none
        | some (tier, last) ↦ elim (segment last) [
          | none ↦ none
          | some (third, tail) ↦ variant_key codec tier third
        ]
      ]
    ]

unfoldable pub stage_key_for_job : Text → Option Text
stage_key_for_job jobname =
    if starts_with (codes "mezz-") jobname
    then some (codes "mezzanine")
    else if starts_with (codes "audio-") jobname
    then some (codes "audio")
    else variant_job jobname

-- A variant of the plan: the codec, the label, whether `chunked` reads as true, the indices.
pub record Variant : Type 0 where
  pub codec : Text
  pub label : Text
  pub chunked : Bool
  pub chunk_indices : List ℕ

-- `v.get("chunk_indices") or [0]`.
abbrev pub indices_of : Variant → List ℕ
indices_of v = elim (v.chunk_indices) [ [] ↦ 0 ∷ [] | i ∷ rest ↦ i ∷ rest ]

unfoldable pub chunk_keys : Text → Text → List ℕ → List Text
chunk_keys codec label [] = []
chunk_keys codec label (i ∷ rest) = chunk_key codec label i ∷ chunk_keys codec label rest

unfoldable pub variant_keys : List Variant → List Text
variant_keys [] = []
variant_keys (v ∷ variants) =
    let rest = variant_keys variants in
    if is_empty v.codec || is_empty v.label
    then rest
    else if v.chunked
    then chunk_keys v.codec v.label (indices_of v) ++ rest
    else encode_key v.codec v.label ∷ rest

unfoldable pub package_keys : Bool → Text → List Text
package_keys on codec =
    if on
    then (codes "package:" ++ codec) ∷ (codes "fragments:" ++ codec) ∷ (codes "hls:" ++ codec) ∷ []
    else []

unfoldable pub plan_keys : List Variant → Bool → Bool → Bool → List Text
plan_keys variants do_h264 do_hevc sync_back =
    codes "mezzanine"
    ∷ codes "audio"
    ∷ (variant_keys variants
        ++ (package_keys do_h264 (codes "h264")
            ++ (package_keys do_hevc (codes "hevc")
                ++ (if sync_back then codes "download:outputs" ∷ [] else []))))

unfoldable pub seen_in : Text → List Text → Bool
seen_in key [] = false
seen_in key (k ∷ seen) = text_eq k key || seen_in key seen

-- The loop that keeps the first of each key.
unfoldable pub dedupe : List Text → List Text → List Text
dedupe seen [] = []
dedupe seen (k ∷ keys) =
    let fresh = dedupe (k ∷ seen) keys in
    let rest = dedupe seen keys in if seen_in k seen then rest else k ∷ fresh

-- `_emit_plan`: the keys of the stages that are announced.
unfoldable pub emit_plan : List Variant → Bool → Bool → Bool → List Text
emit_plan variants do_h264 do_hevc sync_back =
    dedupe [] (plan_keys variants do_h264 do_hevc sync_back)
