-- ===== src/Tests/Fragments.antt =====
-- fragments.py at two segments of a few bytes.
use infinite_streaming_encod.Prelude.{
  ℕ, ◌<◌, ap, true, false, List, [], ◌∷◌, ◌++◌, ◌≡◌, refl, sym, ◌∙◌, length, arith,
}
use infinite_streaming_encod.Prelude.Text.{codes, text_eq}
use infinite_streaming_encod.Prelude.Raises.{Raises, raised, returned}
use infinite_streaming_encod.Fragments.{
  ParseError, Box, Bytes, Fragment, after_header, after_moof, big_endian, detect_independent,
  endless, parse_from, parse_segment, read_box_header, sized_box, through_mdat, total_length,
  unpack,
}
use infinite_streaming_encod.Fragments.Order.{InOrder, parse_segment-InOrder}
use infinite_streaming_encod.Fragments.Headers.{Ends, read_box_header-room}
use infinite_streaming_encod.Fragments.Loops.{Sized, parse_segment-Ends, parse_from-stuck}

-- A styp box, and a moof and an mdat twice.
abbrev segment : Bytes
segment =
    (0 ∷ 0 ∷ 0 ∷ 8 ∷ [])
    ++ codes "styp"
    ++ (0 ∷ 0 ∷ 0 ∷ 8 ∷ [])
    ++ codes "moof"
    ++ (0 ∷ 0 ∷ 0 ∷ 10 ∷ [])
    ++ codes "mdat"
    ++ (7 ∷ 7 ∷ [])
    ++ (0 ∷ 0 ∷ 0 ∷ 8 ∷ [])
    ++ codes "moof"
    ++ (0 ∷ 0 ∷ 0 ∷ 0 ∷ [])
    ++ codes "mdat"

abbrev two_fragments : List Fragment
two_fragments =
    record { offset = 8; length = 18; independent = true }
    ∷ record { offset = 26; length = 16; independent = true }
    ∷ []

segment_parsed : parse_segment segment false ≡ returned two_fragments
unfolding parse_segment parse_from read_box_header unpack sized_box big_endian after_header text_eq
    after_moof total_length through_mdat detect_independent
segment_parsed = refl

parse_segment-InOrder_example : InOrder (length segment) 0 two_fragments
parse_segment-InOrder_example = parse_segment-InOrder segment false two_fragments segment_parsed

-- A box of the type free whose extended size is 0.
abbrev stuck : Bytes
stuck = (0 ∷ 0 ∷ 0 ∷ 1 ∷ []) ++ codes "free" ++ (0 ∷ 0 ∷ 0 ∷ 0 ∷ 0 ∷ 0 ∷ 0 ∷ 0 ∷ [])

abbrev stuck_box : Box
stuck_box = record { size = 0; btype = codes "free"; header_size = 16 }

stuck_header : read_box_header stuck 0 ≡ returned stuck_box
unfolding read_box_header unpack sized_box big_endian
stuck_header = refl

free_is_not_moof : text_eq (codes "free") (codes "moof") ≡ false
unfolding text_eq
free_is_not_moof = refl

parse_from-stuck_example : parse_from 1000 stuck true 0 ≡ raised endless
parse_from-stuck_example =
    parse_from-stuck 1000 stuck true 0 stuck_box (omega arith) stuck_header refl free_is_not_moof

-- A moof box without any box inside.
abbrev bare : Bytes
bare = (0 ∷ 0 ∷ 0 ∷ 8 ∷ []) ++ codes "moof"

abbrev bare_box : Box
bare_box = record { size = 8; btype = codes "moof"; header_size = 8 }

bare_header : read_box_header bare 0 ≡ returned bare_box
unfolding read_box_header unpack sized_box big_endian
bare_header = refl

same_box : (a b : Box) (m : Raises ParseError Box) → m ≡ returned a → m ≡ returned b → a ≡ b
same_box a b m h k = cc

bare_header-size : (pos : ℕ) (box : Box) → read_box_header bare pos ≡ returned box → 0 < box.size
bare_header-size pos box h =
    let room = read_box_header-room bare pos box h in
    let start : pos ≡ 0 = omega arith in
    let first : read_box_header bare 0 ≡ returned box = sym (ap (read_box_header bare) start) ∙ h in
    let same = same_box bare_box box (read_box_header bare 0) bare_header first in
    rw (← same) (omega arith)

bare-Sized : Sized bare
bare-Sized = record {
  in_file = λ pos box t l h. bare_header-size pos box h;
  in_moof = λ moof_end pos box t l h. bare_header-size pos box h;
  in_traf = λ traf_end pos box t l h. bare_header-size pos box h;
}

parse_segment-Ends_example : Ends (parse_segment bare true)
parse_segment-Ends_example = parse_segment-Ends bare bare-Sized true
