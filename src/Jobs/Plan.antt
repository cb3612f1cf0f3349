-- ===== src/Jobs/Plan.antt =====
-- cli_batch.py, _emit_plan: the stages that a run announces.
use infinite_streaming_encod.Prelude.{
  ℕ, some, Bool, true, false, ◌||◌, ◌&&◌, not, List, [], ◌∷◌, ◌++◌, ◌≡◌, inl, inr, refl, sym, ap,
  ◌∙◌, Bool-cases, arith,
}
use infinite_streaming_encod.Prelude.Text.{
  Text, codes, text_eq, text_eq→eq, text_eq_refl, is_empty, decimal,
}
use infinite_streaming_encod.Jobs.Keys.{IsSegment, job_name, stage_key_for_job-variants}
use infinite_streaming_encod.Jobs.{
  Variant, seen_in, dedupe, plan_keys, emit_plan, variant_keys, chunk_keys, chunk_key, encode_key,
  indices_of, stage_key_for_job,
}

-- No key is there twice.
abbrev pub Distinct : List Text → Type 0
Distinct [] = Unit
Distinct (k ∷ keys) = (seen_in k keys ≡ false) × Distinct keys

-- The keys that are kept are not among those seen before.
seen_in-dedupe :
    (key : Text) (seen keys : List Text)
    → seen_in key (dedupe seen keys) ≡ (not (seen_in key seen) && seen_in key keys)
unfolding seen_in dedupe
seen_in-dedupe key seen [] = ground arith
seen_in-dedupe key seen (k ∷ keys) = elim (Bool-cases (seen_in k seen)) [
  | inl e ↦ rw e (elim (Bool-cases (text_eq k key)) [
    | inl t ↦
        let known : seen_in key seen ≡ true =
          ap (λ x. seen_in x seen) (sym (text_eq→eq k key t)) ∙ e in
        rw (t, seen_in-dedupe key seen keys, known) refl
    | inr t ↦ rw (t, seen_in-dedupe key seen keys) refl
  ])
  | inr e ↦ rw e (elim (Bool-cases (text_eq k key)) [
    | inl t ↦
        let fresh : seen_in key seen ≡ false =
          ap (λ x. seen_in x seen) (sym (text_eq→eq k key t)) ∙ e in
        rw (t, fresh) refl
    | inr t ↦ rw (t, seen_in-dedupe key (k ∷ seen) keys, seen_in, t) refl
  ])
]

dedupe-Distinct : (seen keys : List Text) → Distinct (dedupe seen keys)
unfolding dedupe
dedupe-Distinct seen [] = tt
dedupe-Distinct seen (k ∷ keys) = elim (Bool-cases (seen_in k seen)) [
  | inl e ↦ rw e (dedupe-Distinct seen keys)
  | inr e ↦ rw e (
    seen_in-dedupe k (k ∷ seen) keys ∙ unfold seen_in in rw (text_eq_refl k) refl,
    dedupe-Distinct (k ∷ seen) keys,
  )
]

-- The stages that are announced are those of the plan, each once.
pub emit_plan-Distinct :
    (variants : List Variant) (do_h264 do_hevc sync_back : Bool)
    → Distinct (emit_plan variants do_h264 do_hevc sync_back)
      × ((key : Text)
          → seen_in key (emit_plan variants do_h264 do_hevc sync_back)
            ≡ seen_in key (plan_keys variants do_h264 do_hevc sync_back))
unfolding emit_plan
emit_plan-Distinct variants do_h264 do_hevc sync_back =
    (dedupe-Distinct [] _, λ key. seen_in-dedupe key [] _ ∙ (unfold seen_in in refl))

seen_in-append :
    (key : Text) (xs ys : List Text) → seen_in key (xs ++ ys) ≡ (seen_in key xs || seen_in key ys)
unfolding seen_in
seen_in-append key [] ys = refl
seen_in-append key (k ∷ xs) ys = rw (seen_in-append key xs ys) (ground arith)

seen_in-chunk_keys :
    (codec label : Text) (before after : List ℕ) (i : ℕ)
    → seen_in (chunk_key codec label i) (chunk_keys codec label (before ++ i ∷ after)) ≡ true
unfolding seen_in chunk_keys
seen_in-chunk_keys codec label [] after i = rw (text_eq_refl (chunk_key codec label i)) refl
seen_in-chunk_keys codec label (j ∷ before) after i =
    rw (seen_in-chunk_keys codec label before after i) (ground arith)

or_left : (a b : Bool) → a ≡ true → (a || b) ≡ true
or_left a b h = rw h refl

or_right : (a b : Bool) → b ≡ true → (a || b) ≡ true
or_right a b h = ground arith

seen_in-cons :
    (key k : Text) (keys : List Text) → seen_in key keys ≡ true → seen_in key (k ∷ keys) ≡ true
unfolding seen_in
seen_in-cons key k keys h = or_right (text_eq k key) (seen_in key keys) h

-- The variants of a plan, and one that is cut into chunks.
module _ (v : Variant) (before after : List ℕ) (i : ℕ) (chunked : v.chunked ≡ true)
    (named : (is_empty v.codec ≡ false) × (is_empty v.label ≡ false))
    (listed : indices_of v ≡ before ++ i ∷ after) where
  seen_in-variant_keys :
      (earlier later : List Variant)
      → seen_in (chunk_key v.codec v.label i) (variant_keys (earlier ++ v ∷ later)) ≡ true
  unfolding variant_keys
  seen_in-variant_keys [] later =
      rw (named.0, named.1, chunked, listed)
        (seen_in-append (chunk_key v.codec v.label i)
            (chunk_keys v.codec v.label (before ++ i ∷ after)) _
          ∙ rw (seen_in-chunk_keys v.codec v.label before after i) refl)
  seen_in-variant_keys (w ∷ earlier) later =
      let key = chunk_key v.codec v.label i in
      let rest : seen_in key (variant_keys (earlier ++ v ∷ later)) ≡ true =
        seen_in-variant_keys earlier later in
      elim (Bool-cases (is_empty w.codec || is_empty w.label)) [
        | inl e ↦ rw e rest
        | inr e ↦ elim (Bool-cases (w.chunked)) [
          | inl c ↦
              rw (e, c)
                (seen_in-append key (chunk_keys w.codec w.label (indices_of w)) _
                  ∙ or_right _ _ rest)
          | inr c ↦ rw (e, c) (seen_in-cons key (encode_key w.codec w.label) _ rest)
        ]
      ]

  -- Each chunk of a variant of the plan has its stage announced, under the key that the name of
  -- its job is read as, where the codec and the label of the variant are not empty and have no dash.
  pub emit_plan-has_job :
      (earlier later : List Variant) (do_h264 do_hevc sync_back : Bool) (tail : Text)
      → IsSegment v.codec
      → IsSegment v.label
      → (key : Text) × (stage_key_for_job (job_name v.codec v.label (b'c' ∷ decimal i) tail)
          ≡ some key)
        × (seen_in key (emit_plan (earlier ++ v ∷ later) do_h264 do_hevc sync_back) ≡ true)
  unfolding plan_keys
  emit_plan-has_job earlier later do_h264 do_hevc sync_back tail c l =
      let key = chunk_key v.codec v.label i in
      (
        key,
        (stage_key_for_job-variants v.codec v.label tail i c l).0,
        (emit_plan-Distinct (earlier ++ v ∷ later) do_h264 do_hevc sync_back).1 key
            ∙ seen_in-cons key (codes "mezzanine") _ (
                seen_in-cons key (codes "audio") _ (
                  seen_in-append key (variant_keys (earlier ++ v ∷ later)) _
                  ∙ or_left _ _ (seen_in-variant_keys earlier later))),
      )
