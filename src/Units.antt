-- ===== src/Units.antt =====
-- scripts/infinite_streaming_encoder/encode_variants.py, encode_all: the list of what is still to be
-- encoded and joined. A rung is its label; `is_complete` says of a file (a whole variant, or the
-- chunk with an index) whether it is on disk with its marker. Times are in microseconds.
pub mod Coverage
use infinite_streaming_encod.Prelude.{
  ℕ, ◌+◌, Bool, true, false, ◌&&◌, Option, none, some, List, [], ◌∷◌, ◌++◌, ltb, if◌then◌else◌,
  length,
}
use infinite_streaming_encod.Prelude.Text.{Text}
use infinite_streaming_encod.Prelude.Raises.{Raises, raised, returned, ◌>>=◌}
use infinite_streaming_encod.Chunking.{Chunk, PlanError, plan_chunks}
use infinite_streaming_encod.Chunking.Tail.{min_tail_chunk, coalesce_runt_tail}

-- An encode unit, without a chunk for a whole variant.
pub record EncodeUnit : Type 0 where
  pub codec : Text
  pub label : Text
  pub chunk : Option Chunk

-- A variant to be joined from chunks, with their number.
pub record Concat : Type 0 where
  pub codec : Text
  pub label : Text
  pub n_chunks : ℕ

-- `units`, `to_concat`, and the codec and the label of each of `outputs`.
pub record Work : Type 0 where
  pub units : List EncodeUnit
  pub to_concat : List Concat
  pub outputs : List (Text × Text)

abbrev pub with_codec : Text → List Text → List (Text × Text)
with_codec codec [] = []
with_codec codec (label ∷ labels) = (codec, label) ∷ with_codec codec labels

-- The pairs that the two loops go through.
unfoldable pub variants_of : List (Text × List Text) → List (Text × Text)
variants_of [] = []
variants_of ((codec, labels) ∷ rest) = with_codec codec labels ++ variants_of rest

module _ (is_complete : Text → Text → Option ℕ → Bool) where
  -- The units of the chunks that are not on disk.
  unfoldable pub chunk_units : Text → Text → List Chunk → List EncodeUnit
  chunk_units codec label [] = []
  chunk_units codec label (c ∷ chunks) =
      let rest = chunk_units codec label chunks in
      if is_complete codec label (some c.index)
      then rest
      else record { codec = codec; label = label; chunk = some c } ∷ rest

  -- The body of the loops, for a variant that is not complete; `rest` is what the later rounds add.
  unfoldable pub add_variant : List Chunk → Text → Text → Work → Work
  add_variant chunks codec label rest =
      if ltb 1 (length chunks)
      then record rest {
        units = chunk_units codec label chunks ++ rest.units;
        to_concat =
            record { codec = codec; label = label; n_chunks = length chunks } ∷ rest.to_concat;
      }
      else record rest {
        units = record { codec = codec; label = label; chunk = none } ∷ rest.units;
      }

  unfoldable pub work_list : List Chunk → List (Text × Text) → Work
  work_list chunks [] = record { units = []; to_concat = []; outputs = [] }
  work_list chunks ((codec, label) ∷ variants) =
      let rest = work_list chunks variants in
      let listed = record rest { outputs = (codec, label) ∷ rest.outputs } in
      if is_complete codec label none then listed else add_variant chunks codec label listed

  unfoldable pub all_complete : List (Text × Text) → Bool
  all_complete [] = true
  all_complete ((codec, label) ∷ variants) = is_complete codec label none && all_complete variants

  -- The chunks that are planned for a variant that is not complete: none without a chunk duration.
  unfoldable pub planned : ℕ → ℕ → ℕ → ℕ → Raises PlanError (List Chunk)
  planned content padding chunk segment =
      if ltb 0 chunk && ltb 0 content
      then plan_chunks (content + padding) chunk segment
        >>= (λ chunks. returned (coalesce_runt_tail min_tail_chunk chunks))
      else returned []

  -- The work of `encode_all`; the plan is made, and may raise, only where some variant is not complete.
  unfoldable pub encode_work : List (Text × List Text) → ℕ → ℕ → ℕ → ℕ → Raises PlanError Work
  encode_work ladder content padding chunk segment =
      let variants = variants_of ladder in
      if all_complete variants
      then returned (work_list [] variants)
      else planned content padding chunk segment
        >>= (λ chunks. returned (work_list chunks variants))
