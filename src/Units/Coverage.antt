-- ===== src/Units/Coverage.antt =====
-- encode_variants.py, encode_all: nothing that is missing is left out of the work.
use mathlib.Core.Path.{subst}
use infinite_streaming_encod.Prelude.{
  ℕ, ◌≡◌, ◌<◌, ◌⊎◌, inl, inr, refl, sym, ap, ◌∙◌, Bool, true, Option, none, some, List, [], ◌∷◌,
  ◌++◌, ltb, length, All, All-weaken, if_true, if_false, Bool-cases, arith,
}
use infinite_streaming_encod.Prelude.Text.{Text}
use infinite_streaming_encod.Prelude.Raises.{returned, returned_through, returned-injective}
use infinite_streaming_encod.Chunking.{Chunk}
use infinite_streaming_encod.Units.{
  EncodeUnit, Concat, Work, variants_of, chunk_units, add_variant, work_list, all_complete, planned,
  encode_work,
}

abbrev pub Has : {A : Type 0} → A → List A → Type 0
Has x [] = 0 < 0
Has x (y ∷ ys) = (x ≡ y) ⊎ Has x ys

Has-left : {A : Type 0} (x : A) (xs ys : List A) → Has x xs → Has x (xs ++ ys)
Has-left x [] ys h = absurd (omega arith)
Has-left x (y ∷ xs) ys (inl e) = inl e
Has-left x (y ∷ xs) ys (inr h) = inr (Has-left x xs ys h)

Has-right : {A : Type 0} (x : A) (xs ys : List A) → Has x ys → Has x (xs ++ ys)
Has-right x [] ys h = h
Has-right x (y ∷ xs) ys h = inr (Has-right x xs ys h)

module _ (is_complete : Text → Text → Option ℕ → Bool) where
  abbrev pub unit_of : Text → Text → Option Chunk → EncodeUnit
  unit_of codec label chunk = record { codec = codec; label = label; chunk = chunk }

  -- Each chunk is on disk or has its unit.
  abbrev pub AllChunks : Text → Text → List Chunk → List EncodeUnit → Type 0
  AllChunks codec label chunks units =
      All
        (λ c.
          (is_complete codec label (some (Chunk.index c)) ≡ true)
          ⊎ Has (unit_of codec label (some c)) units)
        chunks

  -- A variant is on disk, has one unit of its own, or is joined from chunks that are on disk or have units.
  abbrev pub IsCovered : List Chunk → Work → Text × Text → Type 0
  IsCovered chunks w (codec, label) =
      (is_complete codec label none ≡ true)
      ⊎ Has (unit_of codec label none) w.units
      ⊎ (Has (record { codec = codec; label = label; n_chunks = length chunks }) w.to_concat
          × AllChunks codec label chunks w.units)

  AllChunks-more :
      (codec label : Text) (chunks : List Chunk) (xs ys : List EncodeUnit)
      → AllChunks codec label chunks ys
      → AllChunks codec label chunks (xs ++ ys)
  AllChunks-more codec label chunks xs ys h =
      All-weaken chunks
        (λ c k. elim k [
          | inl e ↦ inl e
          | inr u ↦ inr (Has-right (unit_of codec label (some c)) xs ys u)
        ])
        h

  chunk_units-AllChunks :
      (codec label : Text) (chunks : List Chunk)
      → AllChunks codec label chunks (chunk_units is_complete codec label chunks)
  unfolding chunk_units
  chunk_units-AllChunks codec label [] = tt
  chunk_units-AllChunks codec label (c ∷ chunks) =
      let later = chunk_units is_complete codec label chunks in
      elim (Bool-cases (is_complete codec label (some c.index))) [
        | inl e ↦
            subst (AllChunks codec label (c ∷ chunks))
              (sym (if_true later (unit_of codec label (some c) ∷ later) e))
              (inl e, chunk_units-AllChunks codec label chunks)
        | inr e ↦
            subst (AllChunks codec label (c ∷ chunks))
              (sym (if_false later (unit_of codec label (some c) ∷ later) e))
              (
                inr (inl refl),
                AllChunks-more codec label chunks (unit_of codec label (some c) ∷ []) later
                    (chunk_units-AllChunks codec label chunks),
              )
      ]

  AllChunks-less :
      (codec label : Text) (chunks : List Chunk) (xs ys : List EncodeUnit)
      → AllChunks codec label chunks xs
      → AllChunks codec label chunks (xs ++ ys)
  AllChunks-less codec label chunks xs ys h =
      All-weaken chunks
        (λ c k. elim k [
          | inl e ↦ inl e
          | inr u ↦ inr (Has-left (unit_of codec label (some c)) xs ys u)
        ])
        h

  -- More work covers no less.
  IsCovered-more :
      (chunks : List Chunk) (w : Work) (xs : List EncodeUnit) (cs : List Concat)
      (outputs : List (Text × Text)) (variant : Text × Text)
      → IsCovered chunks w variant
      → IsCovered chunks
          (record { units = xs ++ w.units; to_concat = cs ++ w.to_concat; outputs = outputs })
          variant
  IsCovered-more chunks w xs cs outputs (codec, label) (inl e) = inl e
  IsCovered-more chunks w xs cs outputs (codec, label) (inr (inl u)) =
      inr (inl (Has-right (unit_of codec label none) xs w.units u))
  IsCovered-more chunks w xs cs outputs (codec, label) (inr (inr (c, u))) =
      inr (inr (Has-right _ cs w.to_concat c, AllChunks-more codec label chunks xs w.units u))

  add_variant-IsCovered :
      (chunks : List Chunk) (codec label : Text) (rest : Work)
      → IsCovered chunks (add_variant is_complete chunks codec label rest) (codec, label)
  unfolding add_variant
  add_variant-IsCovered chunks codec label rest = elim (Bool-cases (ltb 1 (length chunks))) [
    | inl e ↦ rw e (
        inr (
          inr (
            inl refl,
            AllChunks-less codec label chunks _ rest.units
                (chunk_units-AllChunks codec label chunks),
          )))
    | inr e ↦ rw e (inr (inl (inl refl)))
  ]

  add_variant-keeps :
      (chunks : List Chunk) (codec label : Text) (rest : Work) (variant : Text × Text)
      → IsCovered chunks rest variant
      → IsCovered chunks (add_variant is_complete chunks codec label rest) variant
  unfolding add_variant
  add_variant-keeps chunks codec label rest variant h = elim (Bool-cases (ltb 1 (length chunks))) [
    | inl e ↦ rw e (
        IsCovered-more chunks rest (chunk_units is_complete codec label chunks)
          (record { codec = codec; label = label; n_chunks = length chunks } ∷ []) rest.outputs
          variant h)
    | inr e ↦
        rw e (IsCovered-more chunks rest (unit_of codec label none ∷ []) [] rest.outputs variant h)
  ]

  add_variant-outputs :
      (chunks : List Chunk) (codec label : Text) (rest : Work)
      → (add_variant is_complete chunks codec label rest).outputs ≡ rest.outputs
  unfolding add_variant
  add_variant-outputs chunks codec label rest = ground arith

  work_list-IsCovered :
      (chunks : List Chunk) (variants : List (Text × Text))
      → All (IsCovered chunks (work_list is_complete chunks variants)) variants
        × ((work_list is_complete chunks variants).outputs ≡ variants)
  unfolding work_list
  work_list-IsCovered chunks [] = (tt, refl)
  work_list-IsCovered chunks ((codec, label) ∷ variants) =
      let later = work_list-IsCovered chunks variants in
      let w = work_list is_complete chunks variants in
      let next : Work = record w { outputs = (codec, label) ∷ w.outputs } in
      let kept : All (IsCovered chunks next) variants =
        All-weaken variants (λ v h. IsCovered-more chunks w [] [] next.outputs v h) later.0 in
      let added = add_variant is_complete chunks codec label next in
      let Done : Work → Type 0 = λ x.
        All (IsCovered chunks x) ((codec, label) ∷ variants)
        × (x.outputs ≡ (codec, label) ∷ variants) in
      let outputs : next.outputs ≡ (codec, label) ∷ variants =
        ap (λ l. (codec, label) ∷ l) later.1 in
      elim (Bool-cases (is_complete codec label none)) [
        | inl e ↦ subst Done (sym (if_true next added e)) ((inl e, kept), outputs)
        | inr e ↦ subst Done (sym (if_false next added e)) (
          (
            add_variant-IsCovered chunks codec label next,
            All-weaken variants (λ v h. add_variant-keeps chunks codec label next v h) kept,
          ),
          add_variant-outputs chunks codec label next ∙ outputs,
        )
      ]

  -- Whatever is on disk, the work that `encode_all` makes out covers every variant of the ladder, in
  -- the order of its outputs: the variant is on disk, or it has a unit of its own, or it is joined
  -- from the planned chunks, each of which is on disk or has a unit.
  pub encode_work-IsCovered :
      (ladder : List (Text × List Text)) (content padding chunk segment : ℕ) (w : Work)
      → encode_work is_complete ladder content padding chunk segment ≡ returned w
      → (chunks : List Chunk) × ((all_complete is_complete (variants_of ladder) ≡ true)
          ⊎ (planned is_complete content padding chunk segment ≡ returned chunks))
        × All (IsCovered chunks w) (variants_of ladder)
        × (w.outputs ≡ variants_of ladder)
  unfolding encode_work
  encode_work-IsCovered ladder content padding chunk segment w h =
      let variants = variants_of ladder in
      let Covers : List Chunk → Work → Type 0 =
        λ chunks x. All (IsCovered chunks x) variants × (x.outputs ≡ variants) in
      elim (Bool-cases (all_complete is_complete variants)) [
        | inl e ↦
            let made = returned-injective (sym (if_true _ _ e) ∙ h) in
            let done = subst (Covers []) made (work_list-IsCovered [] variants) in
            ([], inl e, done.0, done.1)
        | inr e ↦
            let call =
              returned_through (planned is_complete content padding chunk segment) _
                (sym (if_false _ _ e) ∙ h) in
            let done =
              subst (Covers call.0) (returned-injective call.2)
                (work_list-IsCovered call.0 variants) in
            (call.0, inr call.1, done.0, done.1)
      ]
