-- ===== src/Manifests.antt =====
-- scripts/infinite_streaming_encoder/manifests.py: the segment lists of a DASH manifest, written at
-- fragment granularity and read back as whole segments for HLS.
-- XML is parsed by the Python library: a list here holds the attributes that the code reads.
pub mod Timeline
pub mod Rewrite
pub mod Collapse
use infinite_streaming_encod.Prelude.{
  ℕ, zero, suc, ◌+◌, ◌-◌, ◌*◌, ◌/◌, ◌%◌, max, Bool, true, false, ◌||◌, Option, none, some, List, [],
  ◌∷◌, ◌++◌, ltb, ◌==◌, if◌then◌else◌, length, not,
}
use infinite_streaming_encod.Prelude.Text.{Text, text_eq}

-- `<S t d r>`.
pub record Entry : Type 0 where
  pub t : ℕ
  pub d : ℕ
  pub r : ℕ

-- `<SegmentURL media mediaRange>`: no `media` is the empty text.
pub record SegmentUrl : Type 0 where
  pub media : Text
  pub media_range : Option (ℕ × ℕ)

-- `<SegmentList>`.
pub record SegmentList : Type 0 where
  pub timescale : ℕ
  pub timeline : Option (List Entry)
  pub urls : List SegmentUrl

-- A fragment of a segment, as `_segment_fragments` gives it.
pub record Fragment : Type 0 where
  pub offset : ℕ
  pub length : ℕ

-- `[d] * n`.
unfoldable pub repeat : ℕ → ℕ → List ℕ
repeat zero d = []
repeat (suc n) d = d ∷ repeat n d

-- The durations of a timeline, one for each segment.
unfoldable pub flatten : List Entry → List ℕ
flatten [] = []
flatten (s ∷ rest) = repeat (s.r + 1) s.d ++ flatten rest

-- The loop that writes a timeline: `t` is where the open run of `r + 1` durations `d` begins.
unfoldable pub runs : ℕ → ℕ → ℕ → List ℕ → List Entry
runs t d r [] = record { t = t; d = d; r = r } ∷ []
runs t d r (x ∷ xs) = elim (x == d) [
  | true ↦ runs t d (r + 1) xs
  | false ↦ record { t = t; d = d; r = r } ∷ runs (t + d * (r + 1)) x 0 xs
]

unfoldable pub compress : List ℕ → List Entry
compress [] = []
compress (d ∷ ds) = runs 0 d 0 ds

-- The fragments of one segment, from the `k`-th on: `base` ticks each, one more for the first `rem`,
-- and never none.
unfoldable pub split_durations : ℕ → ℕ → ℕ → List Fragment → List ℕ
split_durations base rem k [] = []
split_durations base rem k (f ∷ fs) =
    max (base + (if ltb k rem then 1 else 0)) 1 ∷ split_durations base rem (k + 1) fs

unfoldable pub ranges : Text → List Fragment → List SegmentUrl
ranges media [] = []
ranges media (f ∷ fs) =
    record { media = media; media_range = some (f.offset, max (f.offset + f.length - 1) f.offset) }
    ∷ ranges media fs

unfoldable pub durations_for : ℕ → List Fragment → List ℕ
durations_for seg_dur [] = seg_dur ∷ []
durations_for seg_dur (f ∷ fs) =
    let n = length (f ∷ fs) in split_durations (seg_dur / n) (seg_dur % n) 0 (f ∷ fs)

unfoldable pub urls_for : Text → List Fragment → List SegmentUrl
urls_for media [] = record { media = media; media_range = none } ∷ []
urls_for media (f ∷ fs) = ranges media (f ∷ fs)

-- `not seg_urls`, or `len(durs) != len(seg_urls)`.
unfoldable pub is_skipped : SegmentList → List ℕ → Bool
is_skipped sl durs = (length sl.urls == 0) || not (length durs == length sl.urls)

-- `fragments` stands for `_segment_fragments`, which reads the media file; a list that is missing
-- or empty is false in `if frags`.
module _ (fragments : Text → List Fragment) where
  -- `_segment_fragments(package_dir / media) if media else None`.
  unfoldable pub fragments_of : Text → List Fragment
  fragments_of [] = []
  fragments_of (c ∷ media) = fragments (c ∷ media)

  -- `new_durs` and `new_urls` after the loop over `seg_urls`.
  unfoldable pub new_durs : List SegmentUrl → List ℕ → List ℕ
  new_durs [] ds = []
  new_durs (u ∷ us) [] = []
  new_durs (u ∷ us) (d ∷ ds) = durations_for d (fragments_of u.media) ++ new_durs us ds

  unfoldable pub new_urls : List SegmentUrl → List SegmentUrl
  new_urls [] = []
  new_urls (u ∷ us) = urls_for u.media (fragments_of u.media) ++ new_urls us

  unfoldable pub rewritten : SegmentList → List ℕ → SegmentList
  rewritten sl durs = record {
    timescale = sl.timescale;
    timeline = some (compress (new_durs sl.urls durs));
    urls = new_urls sl.urls;
  }

  -- One round of the loop over the segment lists, past the first half of its first `continue`.
  unfoldable pub expand_entries : SegmentList → List Entry → SegmentList
  expand_entries sl entries =
      if is_skipped sl (flatten entries) then sl else rewritten sl (flatten entries)

  -- One round of the loop over the segment lists.
  unfoldable pub expand : SegmentList → SegmentList
  expand sl = elim sl.timeline [ none ↦ sl | some entries ↦ expand_entries sl entries ]

  unfoldable pub expand_all : List SegmentList → List SegmentList
  expand_all [] = []
  expand_all (sl ∷ rest) = expand sl ∷ expand_all rest

-- `root.find(".//mpd:SegmentURL[@mediaRange]")` of one list, and of the manifest.
unfoldable pub has_range : List SegmentUrl → Bool
has_range [] = false
has_range (u ∷ us) = elim u.media_range [ none ↦ has_range us | some r ↦ true ]

unfoldable pub is_fragmented : List SegmentList → Bool
unfolding has_range
is_fragmented [] = false
is_fragmented (sl ∷ rest) = has_range sl.urls || is_fragmented rest

-- `write_fragmented_mpd`, from the parsed manifest to the one that is written.
unfoldable pub write_fragmented_mpd : (Text → List Fragment) → List SegmentList → List SegmentList
write_fragmented_mpd fragments root = if is_fragmented root then root else expand_all fragments root

-- `seg["duration"]`: ticks over the timescale, or the 4.0 s of a segment without ticks.
pub data Seconds : Type 0 where
  ticks : ℕ → ℕ → Seconds
  four : Seconds

pub record Segment : Type 0 where
  pub url : Text
  pub timeline_duration : ℕ
  pub duration : Seconds

-- `seg["timeline_duration"] += d` at the entry of `by_url`, or nothing where the url is new.
unfoldable pub add_to : ℕ → Text → ℕ → List Segment → Option (List Segment)
add_to timescale url d [] = none
add_to timescale url d (s ∷ segments) =
    let rest = add_to timescale url d segments in
    if text_eq s.url url
    then some (
        record s {
          timeline_duration = s.timeline_duration + d;
          duration = ticks (s.timeline_duration + d) timescale;
        }
        ∷ segments)
    else elim rest [ none ↦ none | some segments' ↦ some (s ∷ segments') ]

unfoldable pub new_segment : ℕ → Text → ℕ → Segment
new_segment timescale url d = record {
  url = url;
  timeline_duration = d;
  duration = if d == 0 then four else ticks d timescale;
}

unfoldable pub put : ℕ → Text → ℕ → List Segment → List Segment
put timescale url d segments = elim (add_to timescale url d segments) [
  | none ↦ segments ++ (new_segment timescale url d ∷ [])
  | some segments' ↦ segments'
]

-- `durations[i] if i < len(durations) else 0`, along the list.
unfoldable pub next_duration : List ℕ → ℕ
next_duration [] = 0
next_duration (d ∷ ds) = d

unfoldable pub later_durations : List ℕ → List ℕ
later_durations [] = []
later_durations (d ∷ ds) = ds

unfoldable pub collapse : ℕ → List Segment → List Text → List ℕ → List Segment
collapse timescale segments [] ds = segments
collapse timescale segments (u ∷ urls) ds =
    collapse timescale (put timescale u (next_duration ds) segments) urls (later_durations ds)

-- `[u.get("media") … if u.get("media")]`.
unfoldable pub media_of : List SegmentUrl → List Text
media_of [] = []
media_of (u ∷ us) = elim u.media [ [] ↦ media_of us | c ∷ s ↦ (c ∷ s) ∷ media_of us ]

unfoldable pub timeline_only : ℕ → List ℕ → List Segment
timeline_only timescale [] = []
timeline_only timescale (d ∷ ds) =
    record { url = []; timeline_duration = d; duration = ticks d timescale }
    ∷ timeline_only timescale ds

unfoldable pub durations_of : Option (List Entry) → List ℕ
durations_of none = []
durations_of (some entries) = flatten entries

-- `_extract_segments`. A segment without a url has the empty one.
unfoldable pub extract_segments : SegmentList → List Segment
extract_segments sl =
    let ds = durations_of sl.timeline in
    elim (media_of sl.urls) [
      | [] ↦ timeline_only sl.timescale ds
      | u ∷ urls ↦ collapse sl.timescale [] (u ∷ urls) ds
    ]
