-- ===== src/Fragments/Headers.antt =====
-- fragments.py: reading a header or a box of flags comes to an end.
use infinite_streaming_encod.Prelude.{
  ℕ, zero, suc, ◌+◌, ◌≤◌, Bool, true, false, ◌≡◌, ◌≢◌, refl, ap, ltb, ltb→ge, inl, inr, Bool-cases,
  length, if◌then◌else◌, arith,
}
use infinite_streaming_encod.Prelude.Text.{codes, text_eq}
use infinite_streaming_encod.Prelude.Raises.{Raises, raised, returned, ◌>>=◌}
use infinite_streaming_encod.Fragments.{
  Bytes, Box, SampleFlags, ParseError, endless, truncated_header, struct_error, with_first,
  with_default, tfhd_fields, trun_fields, read_box_header, sized_box, unpack, read_sample_box,
  read_tfhd, read_trun, read_flags, has_bit,
}

abbrev pub Ends : {A : Type 0} → Raises ParseError A → Type 0
Ends m = m ≢ raised endless

pub Ends-bind :
    {A B : Type 0} (m : Raises ParseError A) (next : A → Raises ParseError B)
    → Ends m
    → ((a : A) → m ≡ returned a → Ends (next a))
    → Ends (m >>= next)
Ends-bind (raised e) next h k f = h (let g : e ≡ endless = cc in ap raised g)
Ends-bind (returned a) next h k f = k a refl f

pub returned-Ends : {A : Type 0} (a : A) → Ends (returned a)
returned-Ends a e = cc

pub struct_error-Ends : {A : Type 0} → Ends {A = A} (raised struct_error)
struct_error-Ends e = cc

pub if-Ends :
    {A : Type 0} (b : Bool) (x y : Raises ParseError A)
    → Ends x
    → Ends y
    → Ends (if b then x else y)
if-Ends true x y h k = h
if-Ends false x y h k = k

-- The first branch is taken only where the test holds.
pub if_known-Ends :
    {A : Type 0} (b : Bool) (x y : Raises ParseError A)
    → (b ≡ true → Ends x)
    → Ends y
    → Ends (if b then x else y)
if_known-Ends true x y h k = h refl
if_known-Ends false x y h k = k

pub unpack-Ends : (width : ℕ) (bytes : Bytes) (pos : ℕ) → Ends (unpack width bytes pos)
unfolding unpack
unpack-Ends width bytes pos = if-Ends _ _ _ (returned-Ends _) struct_error-Ends

pub sized_box-Ends : (bytes : Bytes) (pos size : ℕ) → Ends (sized_box bytes pos size)
unfolding sized_box
sized_box-Ends bytes pos zero = returned-Ends _
sized_box-Ends bytes pos (suc zero) =
    Ends-bind (unpack 8 bytes (pos + 8)) _ (unpack-Ends 8 bytes (pos + 8)) (λ a e. returned-Ends _)
sized_box-Ends bytes pos (suc (suc n)) = returned-Ends _

pub read_box_header-Ends : (bytes : Bytes) (pos : ℕ) → Ends (read_box_header bytes pos)
unfolding read_box_header
read_box_header-Ends bytes pos = elim (Bool-cases (ltb (length bytes) (pos + 8))) [
  | inl t ↦ rw t (λ e. cc)
  | inr t ↦ rw t (
      Ends-bind (unpack 4 bytes pos) _ (unpack-Ends 4 bytes pos)
        (λ a e. sized_box-Ends bytes pos a))
]

pub read_box_header-room :
    (bytes : Bytes) (pos : ℕ) (box : Box)
    → read_box_header bytes pos ≡ returned box
    → pos + 8 ≤ length bytes
unfolding read_box_header
read_box_header-room bytes pos box h = elim (Bool-cases (ltb (length bytes) (pos + 8))) [
  | inl t ↦ (let h1 : raised truncated_header ≡ returned box = ground arith in cc)
  | inr t ↦ ltb→ge _ _ t
]

pub read_flags-Ends : (bytes : Bytes) (tpos : ℕ) → Ends (read_flags bytes tpos)
unfolding read_flags
read_flags-Ends bytes tpos =
    Ends-bind (unpack 4 bytes (tpos + 8)) _ (unpack-Ends 4 bytes (tpos + 8))
      (λ a e. returned-Ends _)

pub unpacked-Ends :
    (bytes : Bytes) (pos : ℕ) (next : ℕ → Raises ParseError SampleFlags)
    → ((n : ℕ) → Ends (next n))
    → Ends (unpack 4 bytes pos >>= next)
unpacked-Ends bytes pos next h =
    Ends-bind (unpack 4 bytes pos) next (unpack-Ends 4 bytes pos) (λ n e. h n)

pub read_tfhd-Ends : (bytes : Bytes) (tpos : ℕ) (s : SampleFlags) → Ends (read_tfhd bytes tpos s)
unfolding read_tfhd tfhd_fields with_default
read_tfhd-Ends bytes tpos s =
    Ends-bind (read_flags bytes tpos) _ (read_flags-Ends bytes tpos) (λ flags e.
      if-Ends (has_bit 5 flags) _ _ (unpacked-Ends bytes _ _ (λ n. returned-Ends _))
        (returned-Ends s))

pub read_trun-Ends : (bytes : Bytes) (tpos : ℕ) (s : SampleFlags) → Ends (read_trun bytes tpos s)
unfolding read_trun trun_fields with_first
read_trun-Ends bytes tpos s =
    Ends-bind (read_flags bytes tpos) _ (read_flags-Ends bytes tpos) (λ flags e.
      if-Ends (has_bit 2 flags) _ _ (unpacked-Ends bytes _ _ (λ n. returned-Ends _)) (
        if-Ends (has_bit 10 flags) _ _ (unpacked-Ends bytes _ _ (λ n. returned-Ends _))
          (returned-Ends s)))

pub read_sample_box-Ends :
    (bytes : Bytes) (tpos : ℕ) (btype : Bytes) (s : SampleFlags)
    → Ends (read_sample_box bytes tpos btype s)
unfolding read_sample_box
read_sample_box-Ends bytes tpos btype s =
    if-Ends (text_eq btype (codes "tfhd")) _ _ (read_tfhd-Ends bytes tpos s)
      (if-Ends (text_eq btype (codes "trun")) _ _ (read_trun-Ends bytes tpos s) (returned-Ends s))
