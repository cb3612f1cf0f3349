-- ===== src/Fragments.antt =====
-- scripts/infinite_streaming_encoder/fragments.py: the moof boxes of an fMP4 segment, with their
-- byte ranges. The file is a list of bytes, and a loop that uses up its fuel is `endless`.
pub mod Order
pub mod Headers
pub mod Loops
use infinite_streaming_encod.Prelude.{
  ℕ, zero, suc, ◌+◌, ◌-◌, ◌*◌, ◌/◌, ◌%◌, ◌^◌, Bool, true, false, not, Option, none, some, List, [],
  ◌∷◌, ltb, ◌==◌, if◌then◌else◌, length, take, drop,
}
use infinite_streaming_encod.Prelude.Text.{codes, text_eq}
use infinite_streaming_encod.Prelude.Raises.{Raises, raised, returned, ◌>>=◌}

-- The `ValueError` of a truncated header, and the `struct.error` of a slice that is too short.
pub data ParseError : Type 0 where
  truncated_header : ParseError
  struct_error : ParseError
  endless : ParseError

abbrev pub Bytes : Type 0
Bytes = List ℕ

unfoldable pub big_endian : ℕ → Bytes → ℕ
big_endian n [] = n
big_endian n (b ∷ bytes) = big_endian (n * 256 + b) bytes

-- `struct.unpack(…, data[pos:pos + width])`.
unfoldable pub unpack : ℕ → Bytes → ℕ → Raises ParseError ℕ
unpack width bytes pos =
    if length (take width (drop pos bytes)) == width
    then returned (big_endian 0 (take width (drop pos bytes)))
    else raised struct_error

-- The type is its bytes.
pub record Box : Type 0 where
  pub size : ℕ
  pub btype : Bytes
  pub header_size : ℕ

abbrev pub box_at : Bytes → ℕ → ℕ → ℕ → Box
box_at bytes pos size header_size = record {
  size = size;
  btype = take 4 (drop (pos + 4) bytes);
  header_size = header_size;
}

-- The three cases of the 32-bit size: an extended size, the rest of the file, the size itself.
unfoldable pub sized_box : Bytes → ℕ → ℕ → Raises ParseError Box
sized_box bytes pos (suc zero) = do
  extended ← unpack 8 bytes (pos + 8)
  returned (box_at bytes pos extended 16)
sized_box bytes pos zero = returned (box_at bytes pos (length bytes - pos) 8)
sized_box bytes pos (suc (suc n)) = returned (box_at bytes pos (suc (suc n)) 8)

unfoldable pub read_box_header : Bytes → ℕ → Raises ParseError Box
read_box_header bytes pos =
    if ltb (length bytes) (pos + 8)
    then raised truncated_header
    else (unpack 4 bytes pos >>= sized_box bytes pos)

-- `flags & (1 << k)`, as a test.
unfoldable pub has_bit : ℕ → ℕ → Bool
has_bit k flags = (flags / 2 ^ k) % 2 == 1

-- `default_sample_flags` and `first_sample_flags`.
pub record SampleFlags : Type 0 where
  pub default_flags : Option ℕ
  pub first_flags : Option ℕ

abbrev pub when_set : ℕ → ℕ → ℕ → ℕ
when_set k flags n = if has_bit k flags then n else 0

-- `version_flags & 0xFFFFFF`.
unfoldable pub read_flags : Bytes → ℕ → Raises ParseError ℕ
read_flags bytes tpos = do
  version_flags ← unpack 4 bytes (tpos + 8)
  returned (version_flags % 2 ^ 24)

-- A tfhd box: the fields before the default sample flags are 8, 4, 4 and 4 bytes.
unfoldable pub default_flags_at : ℕ → ℕ → ℕ
default_flags_at tpos flags =
    tpos + 16 + when_set 0 flags 8 + when_set 1 flags 4 + when_set 3 flags 4 + when_set 4 flags 4

unfoldable pub with_default : SampleFlags → ℕ → Raises ParseError SampleFlags
with_default s found = returned (record s { default_flags = some found })

unfoldable pub tfhd_fields : Bytes → ℕ → SampleFlags → ℕ → Raises ParseError SampleFlags
tfhd_fields bytes tpos s flags =
    if has_bit 5 flags
    then (unpack 4 bytes (default_flags_at tpos flags) >>= with_default s)
    else returned s

unfoldable pub read_tfhd : Bytes → ℕ → SampleFlags → Raises ParseError SampleFlags
read_tfhd bytes tpos s = read_flags bytes tpos >>= tfhd_fields bytes tpos s

-- A trun box: the first sample's flags, or those of its record of samples.
unfoldable pub with_first : SampleFlags → ℕ → Raises ParseError SampleFlags
with_first s found = returned (record s { first_flags = some found })

unfoldable pub trun_fields : Bytes → ℕ → SampleFlags → ℕ → Raises ParseError SampleFlags
trun_fields bytes tpos s flags =
    if has_bit 2 flags
    then (unpack 4 bytes (tpos + 16 + when_set 0 flags 4) >>= with_first s)
    else if has_bit 10 flags
    then (unpack 4 bytes
          (tpos + 16 + when_set 0 flags 4 + (when_set 8 flags 4 + when_set 9 flags 4))
        >>= with_first s)
    else returned s

unfoldable pub read_trun : Bytes → ℕ → SampleFlags → Raises ParseError SampleFlags
read_trun bytes tpos s = read_flags bytes tpos >>= trun_fields bytes tpos s

unfoldable pub read_sample_box : Bytes → ℕ → Bytes → SampleFlags → Raises ParseError SampleFlags
read_sample_box bytes tpos btype s =
    if text_eq btype (codes "tfhd")
    then read_tfhd bytes tpos s
    else if text_eq btype (codes "trun")
    then read_trun bytes tpos s
    else returned s

-- The loop over the boxes of a traf, and the one over the boxes of a moof. A body is the part after
-- the header, and `next` is the loop from a position on.
abbrev pub FlagsLoop : Type 0
FlagsLoop = ℕ → SampleFlags → Raises ParseError SampleFlags

unfoldable pub traf_body : FlagsLoop → Bytes → ℕ → SampleFlags → Box → Raises ParseError SampleFlags
traf_body next bytes tpos s box = do
  s' ← read_sample_box bytes tpos box.btype s
  next (tpos + box.size) s'

unfoldable pub traf_loop : ℕ → Bytes → ℕ → FlagsLoop
traf_loop zero bytes traf_end tpos s = raised endless
traf_loop (suc fuel) bytes traf_end tpos s =
    let rest =
      read_box_header bytes tpos >>= traf_body (traf_loop fuel bytes traf_end) bytes tpos s in
    if ltb tpos traf_end then rest else returned s

unfoldable pub moof_body : FlagsLoop → Bytes → ℕ → SampleFlags → Box → Raises ParseError SampleFlags
moof_body next bytes pos s box = do
  s' ←
      (if text_eq box.btype (codes "traf")
        then traf_loop (suc (length bytes)) bytes (pos + box.size) (pos + 8) s
        else returned s)
  next (pos + box.size) s'

unfoldable pub moof_loop : ℕ → Bytes → ℕ → FlagsLoop
moof_loop zero bytes moof_end pos s = raised endless
moof_loop (suc fuel) bytes moof_end pos s =
    let rest =
      read_box_header bytes pos >>= moof_body (moof_loop fuel bytes moof_end) bytes pos s in
    if ltb pos moof_end then rest else returned s

-- `first_sample_flags if first_sample_flags is not None else default_sample_flags`.
unfoldable pub effective : SampleFlags → Option ℕ
effective s = elim (s.first_flags) [ some flags ↦ some flags | none ↦ s.default_flags ]

-- Bit 16 is `sample_is_non_sync_sample`.
unfoldable pub is_sync : Option ℕ → Bool
is_sync none = false
is_sync (some flags) = not (has_bit 16 flags)

unfoldable pub detect_independent : Bytes → ℕ → ℕ → Bool → Raises ParseError Bool
detect_independent bytes moof_start moof_end false = returned true
detect_independent bytes moof_start moof_end true = do
  s ←
      moof_loop (suc (length bytes)) bytes moof_end (moof_start + 8)
        (record { default_flags = none; first_flags = none })
  returned (is_sync (effective s))

pub record Fragment : Type 0 where
  pub offset : ℕ
  pub length : ℕ
  pub independent : Bool

-- The length of the fragment whose moof is at `pos`: through the mdat after it, if that is there.
unfoldable pub through_mdat : ℕ → Box → Raises ParseError ℕ
through_mdat size next =
    returned (if text_eq next.btype (codes "mdat") then size + next.size else size)

unfoldable pub total_length : Bytes → ℕ → ℕ → Raises ParseError ℕ
total_length bytes pos size =
    if ltb (pos + size) (length bytes)
    then (read_box_header bytes (pos + size) >>= through_mdat size)
    else returned size

abbrev pub Parse : Type 0
Parse = Raises ParseError (List Fragment)

-- The body of the loop of `parse_segment` after the header; `next` is the loop from a position on.
unfoldable pub after_moof : (ℕ → Parse) → Bytes → Bool → ℕ → Box → Parse
after_moof next bytes is_video pos box = do
  total ← total_length bytes pos box.size
  independent ← detect_independent bytes pos (pos + box.size) is_video
  rest ← next (pos + total)
  returned (record { offset = pos; length = total; independent = independent } ∷ rest)

unfoldable pub after_header : (ℕ → Parse) → Bytes → Bool → ℕ → Box → Parse
after_header next bytes is_video pos box =
    if text_eq box.btype (codes "moof")
    then after_moof next bytes is_video pos box
    else next (pos + box.size)

unfoldable pub parse_from : ℕ → Bytes → Bool → ℕ → Parse
parse_from zero bytes is_video pos = raised endless
parse_from (suc fuel) bytes is_video pos =
    let rest =
      read_box_header bytes pos
      >>= after_header (parse_from fuel bytes is_video) bytes is_video pos in
    if ltb pos (length bytes) then rest else returned []

unfoldable pub parse_segment : Bytes → Bool → Parse
parse_segment bytes is_video = parse_from (suc (length bytes)) bytes is_video 0
