-- ===== src/Chunking/Accepted.antt =====
-- chunking.py, _validate and plan_chunks: the inputs that are not refused.
use infinite_streaming_encod.Prelude.{
  ℕ, ◌+◌, ◌-◌, ◌*◌, ◌/◌, ◌%◌, ◌≤◌, ◌<◌, ◌≡◌, ◌⊎◌, ◌↔◌, inl, inr, List, arith,
}
use native.Mathlib.Nat.{div-add-mod, mod-lt}
use infinite_streaming_encod.Prelude.Rounding.{million, off_whole}
use infinite_streaming_encod.Prelude.Raises.{returned}
use infinite_streaming_encod.Chunking.{Chunk, plan_chunks}
use infinite_streaming_encod.Chunking.Plan.{plan-IsAccepted, plan-planned}

-- A positive number of segments, up to a millionth of one.
abbrev pub IsMultiple : ℕ → ℕ → Type 0
IsMultiple chunk segment =
    (k : ℕ) × (1 ≤ k)
    × (chunk * million ≤ k * segment * million + segment)
    × (k * segment * million ≤ chunk * million + segment)

-- At most a millionth of a segment.
abbrev pub IsTiny : ℕ → ℕ → Type 0
IsTiny chunk segment = chunk * million ≤ segment

le_or_lt : (m n : ℕ) → (m ≤ n) ⊎ (n < m)
le_or_lt m n = ground arith

off_whole-cases :
    (chunk segment : ℕ)
    → 0 < segment
    → off_whole chunk segment * million ≤ segment
    → IsMultiple chunk segment ⊎ IsTiny chunk segment
unfolding off_whole
off_whole-cases chunk segment p h =
    let q = chunk / segment in
    let r = chunk % segment in
    let whole = div-add-mod chunk segment in
    let less = mod-lt chunk {m = segment} p in
    elim (le_or_lt r (segment - r)) [
      | inl l ↦
          let near : r * million ≤ segment = omega (arith, h, l) in
          elim (le_or_lt 1 q) [
            | inl one ↦ inl (q, one, grind (arith, whole, near), grind (arith, whole, near))
            | inr few ↦ inr (let z : q ≡ 0 = omega (arith, few) in grind (arith, whole, near, z))
          ]
      | inr l ↦
          let near : (segment - r) * million ≤ segment = omega (arith, h, l) in
          inl
            (q + 1, omega arith, grind (arith, whole, near, less), grind (arith, whole, near, less))
    ]

off_whole-IsTiny :
    (chunk segment : ℕ) → IsTiny chunk segment → off_whole chunk segment * million ≤ segment
unfolding off_whole
off_whole-IsTiny chunk segment h = let whole = div-add-mod chunk segment in grind (arith, whole)

off_whole-IsMultiple :
    (chunk segment : ℕ)
    → 0 < segment
    → IsMultiple chunk segment
    → off_whole chunk segment * million ≤ segment
unfolding off_whole
off_whole-IsMultiple chunk segment p (k, one, above, below) =
    let q = chunk / segment in
    let whole = div-add-mod chunk segment in
    let less = mod-lt chunk {m = segment} p in
    elim (le_or_lt k q) [
      | inl l ↦
          let mono : k * segment ≤ q * segment = grind arith in grind (arith, whole, mono, above)
      | inr l ↦
          let mono : (q + 1) * segment ≤ k * segment = grind arith in
          grind (arith, whole, mono, below, less)
    ]

-- `plan_chunks` returns chunks exactly when the three durations are positive and the chunk is, up to
-- a millionth of a segment, a positive number of segments or nothing at all: a chunk of at most a
-- millionth of a segment is not refused.
pub plan_chunks-returned_iff :
    (content chunk segment : ℕ)
    → ((cs : List Chunk) × (plan_chunks content chunk segment ≡ returned cs)) ↔ (
        (0 < content)
        × (0 < chunk)
        × (0 < segment)
        × (IsMultiple chunk segment ⊎ IsTiny chunk segment))
plan_chunks-returned_iff content chunk segment = (
  λ (cs, h).
      let a = plan-IsAccepted content chunk segment h in
      (
        a.content_pos,
        a.chunk_pos,
        a.segment_pos,
        off_whole-cases chunk segment a.segment_pos a.multiple,
      ),
  λ (c, k, s, m). (
    _,
    plan-planned content chunk segment (record {
      content_pos = c;
      chunk_pos = k;
      segment_pos = s;
      multiple = elim m [
        | inl whole ↦ off_whole-IsMultiple chunk segment s whole
        | inr tiny ↦ off_whole-IsTiny chunk segment tiny
      ];
    }),
  ),
)
