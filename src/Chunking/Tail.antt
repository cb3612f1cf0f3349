-- ===== src/Chunking/Tail.antt =====
-- scripts/infinite_streaming_encoder/encode_variants.py, _coalesce_runt_tail: a final chunk that is
-- too short is merged into the one in front of it. Times are in microseconds.
use infinite_streaming_encod.Prelude.{
  ℕ, ◌+◌, ◌≤◌, ◌≡◌, ◌⊎◌, inl, inr, Bool, true, false, ◌&&◌, List, [], ◌∷◌, leb, if◌then◌else◌, All,
  Bool-cases, arith,
}
use infinite_streaming_encod.Prelude.Raises.{returned}
use infinite_streaming_encod.Chunking.{Chunk, end_of, plan_chunks}
use infinite_streaming_encod.Chunking.Tiling.{Tiles, IsNumbered}
use infinite_streaming_encod.Chunking.Plan.{plan_chunks-Tiles}

-- `_MIN_TAIL_CHUNK_S`.
abbrev pub min_tail_chunk : ℕ
min_tail_chunk = 2_000_000

abbrev pub merged : Chunk → Chunk → Chunk
merged prev tail = record {
  index = prev.index;
  start = prev.start;
  duration = prev.duration + tail.duration;
}

unfoldable pub coalesce_runt_tail : ℕ → List Chunk → List Chunk
coalesce_runt_tail min_tail [] = []
coalesce_runt_tail min_tail (c ∷ []) = c ∷ []
coalesce_runt_tail min_tail (prev ∷ tail ∷ []) =
    if leb min_tail tail.duration then prev ∷ tail ∷ [] else merged prev tail ∷ []
coalesce_runt_tail min_tail (a ∷ b ∷ c ∷ chunks) = a ∷ coalesce_runt_tail min_tail (b ∷ c ∷ chunks)

coalesce-Tiles :
    (min_tail s e : ℕ) (cs : List Chunk) → Tiles s e cs → Tiles s e (coalesce_runt_tail min_tail cs)
unfolding coalesce_runt_tail
coalesce-Tiles min_tail s e [] h = h
coalesce-Tiles min_tail s e (c ∷ []) h = h
coalesce-Tiles min_tail s e (prev ∷ tail ∷ []) h = elim (Bool-cases (leb min_tail tail.duration)) [
  | inl t ↦ rw t h
  | inr t ↦ rw t (h.0, omega (arith, h.1), omega (arith, h.0, h.2.0, h.2.2))
]
coalesce-Tiles min_tail s e (a ∷ b ∷ c ∷ cs) h =
    (h.0, h.1, coalesce-Tiles min_tail (end_of a) e (b ∷ c ∷ cs) h.2)

coalesce-IsNumbered :
    (min_tail i : ℕ) (cs : List Chunk)
    → IsNumbered i cs
    → IsNumbered i (coalesce_runt_tail min_tail cs)
unfolding coalesce_runt_tail
coalesce-IsNumbered min_tail i [] h = h
coalesce-IsNumbered min_tail i (c ∷ []) h = h
coalesce-IsNumbered min_tail i (prev ∷ tail ∷ []) h =
    elim (Bool-cases (leb min_tail tail.duration)) [ inl t ↦ rw t h | inr t ↦ rw t (h.0, tt) ]
coalesce-IsNumbered min_tail i (a ∷ b ∷ c ∷ cs) h =
    (h.0, coalesce-IsNumbered min_tail (i + 1) (b ∷ c ∷ cs) h.1)

-- There are several chunks, and each but the last is long enough.
unfoldable pub is_long_but_last : ℕ → List Chunk → Bool
is_long_but_last min_tail [] = false
is_long_but_last min_tail (c ∷ []) = false
is_long_but_last min_tail (prev ∷ tail ∷ []) = leb min_tail prev.duration
is_long_but_last min_tail (a ∷ b ∷ c ∷ cs) =
    leb min_tail a.duration && is_long_but_last min_tail (b ∷ c ∷ cs)

coalesce-long :
    (min_tail : ℕ) (cs : List Chunk)
    → is_long_but_last min_tail cs ≡ true
    → All (λ c. min_tail ≤ Chunk.duration c) (coalesce_runt_tail min_tail cs)
unfolding coalesce_runt_tail is_long_but_last
coalesce-long min_tail [] h = absurd (cc)
coalesce-long min_tail (c ∷ []) h = absurd (cc)
coalesce-long min_tail (prev ∷ tail ∷ []) h = elim (Bool-cases (leb min_tail tail.duration)) [
  | inl t ↦ rw t (ground arith, (ground arith, tt))
  | inr t ↦ rw t (ground arith, tt)
]
coalesce-long min_tail (a ∷ b ∷ c ∷ cs) h =
    (ground arith, coalesce-long min_tail (b ∷ c ∷ cs) (ground arith))

-- A plan whose short last chunk was merged still goes end to end from the start of the clip to its
-- end, with no empty chunk and numbered from 0 on; and where there are several chunks and all but the
-- last have the least duration, all chunks have it then.
pub coalesce_runt_tail-plan :
    (content chunk segment min_tail : ℕ) (cs : List Chunk)
    → plan_chunks content chunk segment ≡ returned cs
    → Tiles 0 content (coalesce_runt_tail min_tail cs)
      × IsNumbered 0 (coalesce_runt_tail min_tail cs)
      × ((is_long_but_last min_tail cs ≡ false)
          ⊎ All (λ c. min_tail ≤ Chunk.duration c) (coalesce_runt_tail min_tail cs))
coalesce_runt_tail-plan content chunk segment min_tail cs h =
    let planned = plan_chunks-Tiles content chunk segment cs h in
    (
      coalesce-Tiles min_tail 0 content cs planned.0,
      coalesce-IsNumbered min_tail 0 cs planned.1,
      (elim (Bool-cases (is_long_but_last min_tail cs)) [
        | inl e ↦ inr (coalesce-long min_tail cs e)
        | inr e ↦ inl e
      ]),
    )
