-- ===== src/Resume/Discovery.antt =====
-- resume.py, discover: which files of a directory count as variants that are reused.
use infinite_streaming_encod.Prelude.{
  ℕ, ◌<◌, Bool, true, ◌&&◌, not, List, [], ◌∷◌, ◌≡◌, ◌↔◌, refl, ap, inl, inr, map, keep_if,
  Bool-cases, arith,
}
use infinite_streaming_encod.Prelude.Text.{Text}
use infinite_streaming_encod.Resume.{
  File, Marker, missing, unreadable, recorded, marker_says, is_complete, is_candidate, label_of,
  scan_codec,
}

-- A file that is there, is not empty, and has a sidecar that recorded its present size.
abbrev pub IsWhole : File → Type 0
IsWhole f = (f.is_file ≡ true) × (0 < f.size) × (f.marker ≡ recorded f.size)

marker_says_iff : (m : Marker) (size : ℕ) → (marker_says m size ≡ true) ↔ (m ≡ recorded size)
marker_says_iff missing size = (λ h. cc, λ h. cc)
marker_says_iff unreadable size = (λ h. cc, λ h. cc)
marker_says_iff (recorded n) size =
    (λ h. ap recorded (ground arith), λ h. (let e : n ≡ size = cc in ground arith))

is_complete_iff : (f : File) → (is_complete f ≡ true) ↔ IsWhole f
unfolding is_complete
is_complete_iff f = ground (arith, marker_says_iff f.marker f.size)

abbrev pub is_reused : Text → File → Bool
is_reused codec f = is_candidate codec f && is_complete f

abbrev pub is_partial : Text → File → Bool
is_partial codec f = is_candidate codec f && not (is_complete f)

scan_codec-labels :
    (codec : Text) (files : List File)
    → (scan_codec codec files).labels
      ≡ map (λ f. label_of codec (File.name f)) (keep_if (is_reused codec) files)
unfolding scan_codec
scan_codec-labels codec [] = refl
scan_codec-labels codec (f ∷ files) = elim (Bool-cases (is_candidate codec f)) [
  | inl e ↦ elim (Bool-cases (is_complete f)) [
    | inl c ↦ rw (e, c) (ap (λ l. label_of codec f.name ∷ l) (scan_codec-labels codec files))
    | inr c ↦ rw (e, c) (scan_codec-labels codec files)
  ]
  | inr e ↦ rw e (scan_codec-labels codec files)
]

scan_codec-partial :
    (codec : Text) (files : List File)
    → (scan_codec codec files).partial ≡ map (λ f. File.name f) (keep_if (is_partial codec) files)
unfolding scan_codec
scan_codec-partial codec [] = refl
scan_codec-partial codec (f ∷ files) = elim (Bool-cases (is_candidate codec f)) [
  | inl e ↦ elim (Bool-cases (is_complete f)) [
    | inl c ↦ rw (e, c) (scan_codec-partial codec files)
    | inr c ↦ rw (e, c) (ap (λ l. f.name ∷ l) (scan_codec-partial codec files))
  ]
  | inr e ↦ rw e (scan_codec-partial codec files)
]

-- The labels of a codec are those of its candidates that are whole, and the other candidates are
-- partial: a file is whole where it is there, is not empty, and its sidecar recorded the size
-- that it has.
pub scan_codec-IsWhole :
    (codec : Text) (files : List File)
    → ((scan_codec codec files).labels
        ≡ map (λ f. label_of codec (File.name f)) (keep_if (is_reused codec) files))
      × ((scan_codec codec files).partial
          ≡ map (λ f. File.name f) (keep_if (is_partial codec) files))
      × ((f : File) → (is_complete f ≡ true) ↔ IsWhole f)
scan_codec-IsWhole codec files =
    (scan_codec-labels codec files, scan_codec-partial codec files, is_complete_iff)
