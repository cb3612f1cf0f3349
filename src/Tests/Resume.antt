-- ===== src/Tests/Resume.antt =====
-- resume.py at a directory of a few files.
use infinite_streaming_encod.Prelude.{
  true, false, none, List, [], ◌∷◌, ◌≡◌, ◌↔◌, refl, map, keep_if,
}
use infinite_streaming_encod.Prelude.Text.{Text, codes, is_digit, is_empty, starts_with, text_eq}
use infinite_streaming_encod.Prelude.Raises.{returned}
use infinite_streaming_encod.Resume.{
  File, ResumeInventory, codecs_of, ends_with, has, is_candidate, is_chunk, is_complete, is_variant,
  label_of, missing, recorded, resolve_codec_selection, scan_codec, supported_codecs,
  without_digits,
}
use infinite_streaming_encod.Resume.Discovery.{IsWhole, is_reused, is_partial, scan_codec-IsWhole}
use infinite_streaming_encod.Resume.Selection.{IsServed, resolve_codec_selection-IsServed}

-- A whole variant, one that was cut off, and a chunk.
abbrev files : List File
files =
    record { name = codes "hevc_1080p.mp4"; is_file = true; size = 900; marker = recorded 900 }
    ∷ record { name = codes "hevc_720p.mp4"; is_file = true; size = 300; marker = recorded 500 }
    ∷ record { name = codes "hevc_720p_chunk003.mp4"; is_file = true; size = 70; marker = missing }
    ∷ []

one_label : (scan_codec (codes "hevc") files).labels ≡ codes "1080p" ∷ []
unfolding scan_codec is_candidate is_variant starts_with ends_with text_eq is_empty label_of
    is_chunk without_digits is_digit is_complete
one_label = refl

one_partial : (scan_codec (codes "hevc") files).partial ≡ codes "hevc_720p.mp4" ∷ []
unfolding scan_codec is_candidate is_variant starts_with ends_with text_eq is_empty label_of
    is_chunk without_digits is_digit is_complete
one_partial = refl

scan_codec-IsWhole_example :
    ((scan_codec (codes "hevc") files).labels
      ≡ map (λ f. label_of (codes "hevc") (File.name f)) (keep_if (is_reused (codes "hevc")) files))
    × ((scan_codec (codes "hevc") files).partial
        ≡ map (λ f. File.name f) (keep_if (is_partial (codes "hevc")) files))
    × ((f : File) → (is_complete f ≡ true) ↔ IsWhole f)
scan_codec-IsWhole_example = scan_codec-IsWhole (codes "hevc") files

abbrev inventory : ResumeInventory
inventory = record {
  available = (codes "hevc", codes "1080p" ∷ []) ∷ (codes "av1", codes "720p" ∷ []) ∷ [];
  has_audio = false;
  partial = [];
}

av1_is_supported : has supported_codecs (codes "av1") ≡ true
unfolding has text_eq
av1_is_supported = refl

av1_is_present : has (codecs_of inventory) (codes "av1") ≡ true
unfolding has text_eq
av1_is_present = refl

resolve_codec_selection-IsServed_example :
    (mode : Text) × (resolve_codec_selection inventory none ≡ returned mode)
    × IsServed (codecs_of inventory) mode
resolve_codec_selection-IsServed_example =
    resolve_codec_selection-IsServed inventory (codes "av1") av1_is_present av1_is_supported
