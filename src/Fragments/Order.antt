-- ===== src/Fragments/Order.antt =====
-- fragments.py, parse_segment: where the fragments of a segment lie.
use infinite_streaming_encod.Prelude.{
  ℕ, zero, suc, ◌+◌, ◌≤◌, ◌<◌, Bool, List, [], ◌∷◌, ◌≡◌, ltb, ltb→lt, inl, inr, Bool-cases, length,
  arith,
}
use infinite_streaming_encod.Prelude.Text.{codes, text_eq}
use infinite_streaming_encod.Prelude.Raises.{returned, ◌>>=◌, returned_through}
use infinite_streaming_encod.Fragments.{
  Bytes, Box, Fragment, read_box_header, total_length, detect_independent, parse_from,
  parse_segment, Parse, after_moof, after_header,
}

-- From `pos` on, in order, without overlap, each starting inside the file.
abbrev pub InOrder : ℕ → ℕ → List Fragment → Type 0
InOrder end pos [] = Unit
InOrder end pos (f ∷ fragments) =
    (pos ≤ f.offset) × (f.offset < end) × InOrder end (f.offset + f.length) fragments

InOrder-earlier :
    (end pos later : ℕ) (fragments : List Fragment)
    → pos ≤ later
    → InOrder end later fragments
    → InOrder end pos fragments
InOrder-earlier end pos later [] l h = tt
InOrder-earlier end pos later (f ∷ fragments) l h = (omega (arith, h.0), h.1, h.2)

-- What holds of the loop from any later position holds after the body.
abbrev Later : (ℕ → Parse) → ℕ → Type 0
Later next end =
    (pos : ℕ) (fragments : List Fragment)
    → next pos ≡ returned fragments
    → InOrder end pos fragments

after_moof-InOrder :
    (next : ℕ → Parse) (bytes : Bytes) (is_video : Bool) (pos : ℕ) (box : Box)
    (fragments : List Fragment)
    → Later next (length bytes)
    → pos < length bytes
    → after_moof next bytes is_video pos box ≡ returned fragments
    → InOrder (length bytes) pos fragments
unfolding after_moof
after_moof-InOrder next bytes is_video pos box fragments later l h =
    let (total, e, h1) = returned_through (total_length bytes pos box.size) _ h in
    let (independent, f, h2) =
      returned_through (detect_independent bytes pos (pos + box.size) is_video) _ h1 in
    let (rest, g, h3) = returned_through (next (pos + total)) _ h2 in
    let k : record { offset = pos; length = total; independent = independent } ∷ rest ≡ fragments =
      cc in
    rw (← k) (omega arith, l, later (pos + total) rest g)

after_header-InOrder :
    (next : ℕ → Parse) (bytes : Bytes) (is_video : Bool) (pos : ℕ) (box : Box)
    (fragments : List Fragment)
    → Later next (length bytes)
    → pos < length bytes
    → after_header next bytes is_video pos box ≡ returned fragments
    → InOrder (length bytes) pos fragments
unfolding after_header
after_header-InOrder next bytes is_video pos box fragments later l h =
    elim (Bool-cases (text_eq box.btype (codes "moof"))) [
      | inl e ↦
          let h1 : after_moof next bytes is_video pos box ≡ returned fragments = ground arith in
          after_moof-InOrder next bytes is_video pos box fragments later l h1
      | inr e ↦
          let h1 : next (pos + box.size) ≡ returned fragments = ground arith in
          InOrder-earlier (length bytes) pos (pos + box.size) fragments (omega arith)
            (later (pos + box.size) fragments h1)
    ]

parse_from-InOrder :
    (fuel : ℕ) (bytes : Bytes) (is_video : Bool) (pos : ℕ) (fragments : List Fragment)
    → parse_from fuel bytes is_video pos ≡ returned fragments
    → InOrder (length bytes) pos fragments
unfolding parse_from
parse_from-InOrder zero bytes is_video pos fragments h = cc
parse_from-InOrder (suc fuel) bytes is_video pos fragments h =
    elim (Bool-cases (ltb pos (length bytes))) [
      | inl e ↦
          let h1 : (read_box_header bytes pos
                >>= after_header (parse_from fuel bytes is_video) bytes is_video pos)
              ≡ returned fragments =
            ground arith in
          let (box, f, h2) = returned_through (read_box_header bytes pos) _ h1 in
          after_header-InOrder (parse_from fuel bytes is_video) bytes is_video pos box fragments
            (parse_from-InOrder fuel bytes is_video) (ltb→lt _ _ e) h2
      | inr e ↦ let k : [] ≡ fragments = ground arith in rw (← k) tt
    ]

-- The fragments of a segment that is parsed start inside the file, in order, and none starts before
-- the end of the one in front of it: no two byte ranges overlap.
pub parse_segment-InOrder :
    (bytes : Bytes) (is_video : Bool) (fragments : List Fragment)
    → parse_segment bytes is_video ≡ returned fragments
    → InOrder (length bytes) 0 fragments
unfolding parse_segment
parse_segment-InOrder bytes is_video fragments h = parse_from-InOrder _ bytes is_video 0 fragments h
