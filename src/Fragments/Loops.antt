-- ===== src/Fragments/Loops.antt =====
-- fragments.py: the loops end where every box has a size, and one over a box of size zero does not.
use mathlib.Core.Path.{subst}
use infinite_streaming_encod.Prelude.{
  ℕ, zero, suc, ◌+◌, ◌≤◌, ◌<◌, Bool, true, false, [], ◌≡◌, refl, ap, ◌∙◌, ltb, lt→ltb, inl, inr,
  Bool-cases, length, arith,
}
use infinite_streaming_encod.Prelude.Text.{codes, text_eq}
use infinite_streaming_encod.Prelude.Raises.{raised, returned, ◌>>=◌, returned_through}
use infinite_streaming_encod.Fragments.{
  Bytes, Box, SampleFlags, endless, through_mdat, traf_body, moof_body, read_box_header,
  total_length, detect_independent, parse_from, parse_segment, after_moof, after_header, traf_loop,
  moof_loop, read_sample_box,
}
use infinite_streaming_encod.Fragments.Headers.{
  Ends, Ends-bind, returned-Ends, if-Ends, if_known-Ends, read_box_header-Ends,
  read_box_header-room, read_sample_box-Ends,
}

-- The places at which the parser looks for a box: in the file, in a moof box, and in a traf box.
pub data Top (bytes : Bytes) : ℕ → Type 0 where
  first_box : Top bytes 0
  next_box :
      {pos : ℕ} {box : Box}
      → Top bytes pos
      → pos < length bytes
      → read_box_header bytes pos ≡ returned box
      → Top bytes (pos + box.size)

pub data InMoof (bytes : Bytes) : ℕ → ℕ → Type 0 where
  first_child :
      {pos : ℕ} {box : Box}
      → Top bytes pos
      → pos < length bytes
      → read_box_header bytes pos ≡ returned box
      → text_eq box.btype (codes "moof") ≡ true
      → InMoof bytes (pos + box.size) (pos + 8)
  next_child :
      {moof_end pos : ℕ} {box : Box}
      → InMoof bytes moof_end pos
      → pos < moof_end
      → read_box_header bytes pos ≡ returned box
      → InMoof bytes moof_end (pos + box.size)

pub data InTraf (bytes : Bytes) : ℕ → ℕ → Type 0 where
  first_leaf :
      {moof_end pos : ℕ} {box : Box}
      → InMoof bytes moof_end pos
      → pos < moof_end
      → read_box_header bytes pos ≡ returned box
      → text_eq box.btype (codes "traf") ≡ true
      → InTraf bytes (pos + box.size) (pos + 8)
  next_leaf :
      {traf_end pos : ℕ} {box : Box}
      → InTraf bytes traf_end pos
      → pos < traf_end
      → read_box_header bytes pos ≡ returned box
      → InTraf bytes traf_end (pos + box.size)

-- Every box that the parser comes to has a size: the header there is not read as a size of 0.
pub record Sized (bytes : Bytes) : Type 0 where
  pub in_file :
      (pos : ℕ) (box : Box)
      → Top bytes pos
      → pos < length bytes
      → read_box_header bytes pos ≡ returned box
      → 0 < box.size
  pub in_moof :
      (moof_end pos : ℕ) (box : Box)
      → InMoof bytes moof_end pos
      → pos < moof_end
      → read_box_header bytes pos ≡ returned box
      → 0 < box.size
  pub in_traf :
      (traf_end pos : ℕ) (box : Box)
      → InTraf bytes traf_end pos
      → pos < traf_end
      → read_box_header bytes pos ≡ returned box
      → 0 < box.size

module _ (bytes : Bytes) (sized : Sized bytes) where
  -- The rest of the fuel is enough from `pos` on.
  abbrev Enough : ℕ → ℕ → Type 0
  Enough fuel pos = (0 < fuel) × (length bytes < fuel + pos)

  Enough-later :
      (fuel pos : ℕ) (box : Box)
      → Enough (suc fuel) pos
      → read_box_header bytes pos ≡ returned box
      → 0 < box.size
      → Enough fuel (pos + box.size)
  Enough-later fuel pos box h e size =
      let room = read_box_header-room bytes pos box e in (omega arith, omega arith)

  traf_loop-Ends :
      (fuel traf_end tpos : ℕ) (s : SampleFlags)
      → InTraf bytes traf_end tpos
      → Enough fuel tpos
      → Ends (traf_loop fuel bytes traf_end tpos s)
  unfolding traf_loop traf_body
  traf_loop-Ends zero traf_end tpos s t h = absurd (omega (arith, h.0))
  traf_loop-Ends (suc fuel) traf_end tpos s t h =
      if_known-Ends (ltb tpos traf_end) _ _
        (λ c.
          let l : tpos < traf_end = ground (arith, c) in
          Ends-bind (read_box_header bytes tpos) _ (read_box_header-Ends bytes tpos) (λ box e.
            Ends-bind (read_sample_box bytes tpos box.btype s) _
              (read_sample_box-Ends bytes tpos box.btype s)
              (λ s' f.
                traf_loop-Ends fuel traf_end (tpos + box.size) s' (next_leaf t l e)
                  (Enough-later fuel tpos box h e (sized.in_traf traf_end tpos box t l e)))))
        (returned-Ends s)

  moof_loop-Ends :
      (fuel moof_end pos : ℕ) (s : SampleFlags)
      → InMoof bytes moof_end pos
      → Enough fuel pos
      → Ends (moof_loop fuel bytes moof_end pos s)
  unfolding moof_loop moof_body
  moof_loop-Ends zero moof_end pos s t h = absurd (omega (arith, h.0))
  moof_loop-Ends (suc fuel) moof_end pos s t h =
      if_known-Ends (ltb pos moof_end) _ _
        (λ c.
          let l : pos < moof_end = ground (arith, c) in
          Ends-bind (read_box_header bytes pos) _ (read_box_header-Ends bytes pos) (λ box e.
            Ends-bind _ _
              (if_known-Ends (text_eq box.btype (codes "traf")) _ _
                (λ is_traf.
                  traf_loop-Ends (suc (length bytes)) (pos + box.size) (pos + 8) s
                    (first_leaf t l e is_traf) (omega arith, omega arith))
                (returned-Ends s))
              (λ s' f.
                moof_loop-Ends fuel moof_end (pos + box.size) s' (next_child t l e)
                  (Enough-later fuel pos box h e (sized.in_moof moof_end pos box t l e)))))
        (returned-Ends s)

  detect_independent-Ends :
      (moof_start moof_end : ℕ) (is_video : Bool)
      → InMoof bytes moof_end (moof_start + 8)
      → Ends (detect_independent bytes moof_start moof_end is_video)
  unfolding detect_independent
  detect_independent-Ends moof_start moof_end false t = returned-Ends true
  detect_independent-Ends moof_start moof_end true t =
      Ends-bind _ _
        (moof_loop-Ends (suc (length bytes)) moof_end (moof_start + 8) _ t
          (omega arith, omega arith))
        (λ s e. returned-Ends _)

  total_length-Ends : (pos size : ℕ) → Ends (total_length bytes pos size)
  unfolding total_length through_mdat
  total_length-Ends pos size =
      if-Ends (ltb (pos + size) (length bytes)) _ _
        (Ends-bind (read_box_header bytes (pos + size)) _ (read_box_header-Ends bytes (pos + size))
          (λ box e. returned-Ends _))
        (returned-Ends size)

  -- After a fragment the parser stands behind its moof or behind the mdat after it.
  total_length-Top :
      (pos size total : ℕ)
      → Top bytes (pos + size)
      → total_length bytes pos size ≡ returned total
      → Top bytes (pos + total) × (size ≤ total)
  unfolding total_length through_mdat
  total_length-Top pos size total t h = elim (Bool-cases (ltb (pos + size) (length bytes))) [
    | inl e ↦
        let h1 : (read_box_header bytes (pos + size) >>= through_mdat size) ≡ returned total =
          ground arith in
        let (box, f, g) = returned_through (read_box_header bytes (pos + size)) _ h1 in
        let l : pos + size < length bytes = ground (arith, e) in
        elim (Bool-cases (text_eq box.btype (codes "mdat"))) [
          | inl m ↦
              let is : size + box.size ≡ total = ground arith in
              (
                subst (Top bytes) (let s : pos + size + box.size ≡ pos + total = omega arith in s)
                    (next_box t l f),
                omega arith,
              )
          | inr m ↦
              let is : size ≡ total = ground arith in
              (subst (λ n. Top bytes (pos + n)) is t, omega arith)
        ]
    | inr e ↦
        let is : size ≡ total = ground arith in (subst (λ n. Top bytes (pos + n)) is t, omega arith)
  ]

  parse_from-Ends :
      (fuel : ℕ) (is_video : Bool) (pos : ℕ)
      → Top bytes pos
      → Enough fuel pos
      → Ends (parse_from fuel bytes is_video pos)
  unfolding parse_from after_header after_moof
  parse_from-Ends zero is_video pos t h = absurd (omega (arith, h.0))
  parse_from-Ends (suc fuel) is_video pos t h =
      if_known-Ends (ltb pos (length bytes)) _ _
        (λ c.
          let l : pos < length bytes = ground (arith, c) in
          Ends-bind (read_box_header bytes pos) _ (read_box_header-Ends bytes pos) (λ box e.
            let later = Enough-later fuel pos box h e (sized.in_file pos box t l e) in
            let next = next_box t l e in
            if_known-Ends (text_eq box.btype (codes "moof")) _ _
              (λ is_moof. Ends-bind _ _ (total_length-Ends pos box.size) (λ total f.
                let moved = total_length-Top pos box.size total next f in
                Ends-bind _ _
                  (detect_independent-Ends pos (pos + box.size) is_video
                    (first_child t l e is_moof))
                  (λ independent g.
                    Ends-bind _ _
                      (parse_from-Ends fuel is_video (pos + total) moved.0
                        (later.0, omega (arith, later.1, moved.1)))
                      (λ rest k. returned-Ends _))))
              (parse_from-Ends fuel is_video (pos + box.size) next later)))
        (returned-Ends [])

  -- Where every box that the parser comes to has a size, in the file, in its moof boxes and in their
  -- traf boxes, the parser comes to an end, with the fragments or with an error: as many steps as the
  -- file has bytes are enough for each of its loops. What a payload holds does not matter.
  pub parse_segment-Ends : (is_video : Bool) → Ends (parse_segment bytes is_video)
  unfolding parse_segment
  parse_segment-Ends is_video = parse_from-Ends _ is_video 0 first_box (omega arith, omega arith)

-- At a box whose extended size is 0, and whose type is not moof, the parser never moves on: it is
-- without end, however many steps it takes.
pub parse_from-stuck :
    (fuel : ℕ) (bytes : Bytes) (is_video : Bool) (pos : ℕ) (box : Box)
    → pos < length bytes
    → read_box_header bytes pos ≡ returned box
    → box.size ≡ 0
    → text_eq box.btype (codes "moof") ≡ false
    → parse_from fuel bytes is_video pos ≡ raised endless
unfolding parse_from after_header
parse_from-stuck zero bytes is_video pos box l e z n = refl
parse_from-stuck (suc fuel) bytes is_video pos box l e z n =
    rw (lt→ltb pos (length bytes) l, e, n, z)
      (ap (parse_from fuel bytes is_video) (omega arith)
        ∙ parse_from-stuck fuel bytes is_video pos box l e z n)
