-- ===== src/Jobs/Keys.antt =====
-- cli_batch.py, _stage_key_for_job: the name of a variant's job is read back as its stage key.
use infinite_streaming_encod.Prelude.{
  ℕ, suc, ◌+◌, All, false, none, some, [], ◌∷◌, ◌++◌, ◌≡◌, refl, ap, ◌∙◌, lt→ltb, if◌then◌else◌,
  length, length-append, drop, arith,
}
use infinite_streaming_encod.Prelude.Text.{
  Text, codes, text_eq, starts_with, is_empty, decimal, IsDigit, Free, before-append,
  decimal-digits, all_digits_of, is_empty-decimal, value_from-decimal,
}
use infinite_streaming_encod.Jobs.{
  segment, chunk_index, chunk_key, encode_key, variant_key, variant_job, job_prefix,
  stage_key_for_job,
}

drop-after : (s t : Text) (c : ℕ) → drop (length s + 1) (s ++ c ∷ t) ≡ t
drop-after [] t c = refl
drop-after (d ∷ s) t c =
    let e : suc (length s) + 1 ≡ suc (length s + 1) = omega arith in
    ap (λ n. drop n (d ∷ (s ++ c ∷ t))) e ∙ drop-after s t c

segment-append :
    (s t : Text) → Free b'-' s → is_empty s ≡ false → segment (s ++ b'-' ∷ t) ≡ some (s, t)
unfolding segment
segment-append s t f n =
    let longer =
      lt→ltb (length s) (length (s ++ b'-' ∷ t)) (omega (arith, length-append s (b'-' ∷ t))) in
    rw (before-append b'-' s t f, n, longer) (ap (λ r. some (s, r)) (drop-after s t b'-'))

-- A name that can be a segment: it is not empty and has no dash.
abbrev pub IsSegment : Text → Type 0
IsSegment s = Free b'-' s × (is_empty s ≡ false)

-- `f"var-{codec}-{tier}-{third}-{tail}"`.
abbrev pub job_name : Text → Text → Text → Text → Text
job_name codec tier third tail =
    job_prefix ++ (codec ++ b'-' ∷ (tier ++ b'-' ∷ (third ++ b'-' ∷ tail)))

stage_key_for_job-variant :
    (rest : Text) → stage_key_for_job (job_prefix ++ rest) ≡ variant_job (job_prefix ++ rest)
unfolding stage_key_for_job starts_with
stage_key_for_job-variant rest = refl

variant_job-segments :
    (codec tier third tail : Text)
    → IsSegment codec
    → IsSegment tier
    → IsSegment third
    → variant_job (job_name codec tier third tail) ≡ variant_key codec tier third
unfolding variant_job starts_with
variant_job-segments codec tier third tail c t u =
    ap
      (λ o. elim o [
        | none ↦ none
        | some (codec', rest) ↦ elim (segment rest) [
          | none ↦ none
          | some (tier', last) ↦ elim (segment last) [
            | none ↦ none
            | some (third', tail') ↦ variant_key codec' tier' third'
          ]
        ]
      ])
      (segment-append codec (tier ++ b'-' ∷ (third ++ b'-' ∷ tail)) c.0 c.1)
    ∙ ap
        (λ o. elim o [
          | none ↦ none
          | some (tier', last) ↦ elim (segment last) [
            | none ↦ none
            | some (third', tail') ↦ variant_key codec tier' third'
          ]
        ])
        (segment-append tier (third ++ b'-' ∷ tail) t.0 t.1)
    ∙ ap (λ o. elim o [ none ↦ none | some (third', tail') ↦ variant_key codec tier third' ])
        (segment-append third tail u.0 u.1)

digits-no_dash : (s : Text) → All IsDigit s → Free b'-' s
digits-no_dash [] h = tt
digits-no_dash (d ∷ s) h = (ground (arith, h.0), digits-no_dash s h.1)

chunk-IsSegment : (i : ℕ) → IsSegment (b'c' ∷ decimal i)
unfolding is_empty
chunk-IsSegment i = ((refl, digits-no_dash (decimal i) (decimal-digits i)), refl)

chunk_index-decimal : (i : ℕ) → chunk_index (b'c' ∷ decimal i) ≡ some i
unfolding chunk_index
chunk_index-decimal i =
    rw (is_empty-decimal i, all_digits_of (decimal i) (decimal-digits i), value_from-decimal i) refl

variant_key-chunk :
    (codec tier : Text) (i : ℕ)
    → variant_key codec tier (b'c' ∷ decimal i) ≡ some (chunk_key codec tier i)
unfolding variant_key
variant_key-chunk codec tier i =
    ap
      (λ o. elim o [
        | some j ↦ some (chunk_key codec tier j)
        | none ↦
            if text_eq (b'c' ∷ decimal i) (codes "whole")
            then some (encode_key codec tier)
            else none
      ])
      (chunk_index-decimal i)

variant_key-whole :
    (codec tier : Text) → variant_key codec tier (codes "whole") ≡ some (encode_key codec tier)
unfolding variant_key chunk_index text_eq
variant_key-whole codec tier = refl

-- The name of a chunk's job, or of a whole variant's, is read as the key of its stage, for a codec
-- and a tier that are not empty and have no dash.
pub stage_key_for_job-variants :
    (codec tier tail : Text) (i : ℕ)
    → IsSegment codec
    → IsSegment tier
    → (stage_key_for_job (job_name codec tier (b'c' ∷ decimal i) tail)
        ≡ some (chunk_key codec tier i))
      × (stage_key_for_job (job_name codec tier (codes "whole") tail)
          ≡ some (encode_key codec tier))
stage_key_for_job-variants codec tier tail i c t = (
  stage_key_for_job-variant _
      ∙ variant_job-segments codec tier (b'c' ∷ decimal i) tail c t (chunk-IsSegment i)
      ∙ variant_key-chunk codec tier i,
  stage_key_for_job-variant _
      ∙ variant_job-segments codec tier (codes "whole") tail c t
          (unfold is_empty in ((refl, (refl, (refl, (refl, (refl, tt))))), refl))
      ∙ variant_key-whole codec tier,
)
