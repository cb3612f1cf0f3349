-- ===== src/Tests/Manifests.antt =====
-- manifests.py at a manifest of two segments, the first with three fragments.
use infinite_streaming_encod.Prelude.{
  max, ◌≡◌, refl, true, false, none, some, List, [], ◌∷◌, length, arith,
}
use infinite_streaming_encod.Prelude.Text.{Text, codes, text_eq}
use infinite_streaming_encod.Manifests.{
  Entry, SegmentList, Fragment, flatten, repeat, compress, runs, durations_for, expand,
  expand_entries, rewritten, is_skipped, new_durs, new_urls, fragments_of, urls_for, ranges,
  split_durations, write_fragmented_mpd, extract_segments,
}
use infinite_streaming_encod.Manifests.Timeline.{IsTimed, compress-IsTimed, sum, durations_for-sum}
use infinite_streaming_encod.Manifests.Rewrite.{write_fragmented_mpd-again}
use infinite_streaming_encod.Manifests.Collapse.{IsPlain, extract_segments-expand}

abbrev first : Text
first = codes "a.m4s"

abbrev second : Text
second = codes "b.m4s"

abbrev three : List Fragment
three =
    record { offset = 0; length = 100 }
    ∷ record { offset = 100; length = 50 }
    ∷ record { offset = 150; length = 7 }
    ∷ []

-- Only the first segment's media can be read.
abbrev fragments : Text → List Fragment
fragments media = elim (text_eq media first) [ true ↦ three | false ↦ [] ]

abbrev entries : List Entry
entries = record { t = 0; d = 100; r = 1 } ∷ []

abbrev whole : SegmentList
whole = record {
  timescale = 25;
  timeline = some entries;
  urls =
      record { media = first; media_range = none }
      ∷ record { media = second; media_range = none }
      ∷ [];
}

expand_run : expand fragments whole ≡ record {
  timescale = 25;
  timeline = some (
      record { t = 0; d = 34; r = 0 }
      ∷ record { t = 34; d = 33; r = 1 }
      ∷ record { t = 100; d = 100; r = 0 }
      ∷ []);
  urls =
      record { media = first; media_range = some (0, 99) }
      ∷ record { media = first; media_range = some (100, 149) }
      ∷ record { media = first; media_range = some (150, 156) }
      ∷ record { media = second; media_range = none }
      ∷ [];
}
unfolding expand expand_entries rewritten is_skipped new_durs new_urls fragments_of urls_for ranges
    durations_for split_durations flatten repeat compress runs text_eq
expand_run = refl

compress-IsTimed_example :
    IsTimed 0 (compress (34 ∷ 33 ∷ 33 ∷ []))
    × (flatten (compress (34 ∷ 33 ∷ 33 ∷ [])) ≡ 34 ∷ 33 ∷ 33 ∷ [])
compress-IsTimed_example = compress-IsTimed (34 ∷ 33 ∷ 33 ∷ [])

durations_for-sum_example : sum (durations_for 100 three) ≡ max 100 (length three)
durations_for-sum_example = durations_for-sum three 100 (omega arith)

write_fragmented_mpd-again_example :
    write_fragmented_mpd fragments (write_fragmented_mpd fragments (whole ∷ []))
    ≡ write_fragmented_mpd fragments (whole ∷ [])
write_fragmented_mpd-again_example = write_fragmented_mpd-again fragments (whole ∷ [])

whole-IsPlain : IsPlain fragments whole.urls (flatten entries)
unfolding flatten repeat fragments_of text_eq
whole-IsPlain = ((λ e. cc), omega arith, (refl, tt), ((λ e. cc), omega arith, tt, tt))

extract_segments-expand_example : extract_segments (expand fragments whole) ≡ extract_segments whole
extract_segments-expand_example = extract_segments-expand fragments whole entries refl whole-IsPlain
