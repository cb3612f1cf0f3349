-- ===== src/Manifests/Collapse.antt =====
-- `_extract_segments` reads the same segments from a manifest before and after its expansion.
use infinite_streaming_encod.Prelude.{
  ℕ, suc, ◌+◌, ◌/◌, ◌%◌, ◌≤◌, ◌<◌, ◌≡◌, ◌≢◌, refl, ap, sym, ◌∙◌, inl, inr, false, Option, none,
  some, List, [], ◌∷◌, ◌++◌, arith, length, Bool-cases, All, All-append,
}
use infinite_streaming_encod.Prelude.Text.{Text, text_eq, text_eq_refl}
use infinite_streaming_encod.Manifests.{
  SegmentUrl, SegmentList, Segment, Fragment, Entry, ticks, flatten, ranges, split_durations,
  durations_for, urls_for, fragments_of, new_durs, new_urls, rewritten, is_skipped, expand, add_to,
  new_segment, put, next_duration, later_durations, collapse, media_of, durations_of, timeline_only,
  extract_segments,
}
use infinite_streaming_encod.Manifests.Timeline.{flatten-compress, sum, durations_for-sum}
use infinite_streaming_encod.Manifests.Rewrite.{
  expand-some, expand_entries-rewritten, expand_entries-skipped,
}

-- No segment has this url yet.
abbrev Absent : Text → List Segment → Type 0
Absent url segments = All (λ (s : Segment). text_eq s.url url ≡ false) segments

-- One url for each fragment.
abbrev same_url : Text → List ℕ → List Text
same_url url [] = []
same_url url (d ∷ ds) = url ∷ same_url url ds

module _ (timescale : ℕ) where
  -- A segment of which some fragments are read, with these ticks so far.
  abbrev partial : Text → ℕ → Segment
  partial url d = record { url = url; timeline_duration = d; duration = ticks d timescale }

  add_to-Absent :
      (url : Text) (d : ℕ) (segments : List Segment)
      → Absent url segments
      → add_to timescale url d segments ≡ none
  unfolding add_to
  add_to-Absent url d [] h = refl
  add_to-Absent url d (s ∷ segments) h = rw (h.0, add_to-Absent url d segments h.1)

  put-Absent :
      (url : Text) (d : ℕ) (segments : List Segment)
      → Absent url segments
      → put timescale url d segments ≡ segments ++ (new_segment timescale url d ∷ [])
  unfolding put
  put-Absent url d segments h = rw (add_to-Absent url d segments h, put)

  add_to-partial :
      (url : Text) (n d : ℕ) (segments : List Segment)
      → Absent url segments
      → add_to timescale url d (segments ++ (partial url n ∷ []))
        ≡ some (segments ++ (partial url (n + d) ∷ []))
  unfolding add_to
  add_to-partial url n d [] h = rw text_eq_refl
  add_to-partial url n d (s ∷ segments) h = rw (h.0, add_to-partial url n d segments h.1)

  put-partial :
      (url : Text) (n d : ℕ) (segments : List Segment)
      → Absent url segments
      → put timescale url d (segments ++ (partial url n ∷ []))
        ≡ segments ++ (partial url (n + d) ∷ [])
  unfolding put
  put-partial url n d segments h = rw (add_to-partial url n d segments h, put)

  collapse-cons :
      (segments : List Segment) (u : Text) (urls : List Text) (d : ℕ) (ds : List ℕ)
      → collapse timescale segments (u ∷ urls) (d ∷ ds)
        ≡ collapse timescale (put timescale u d segments) urls ds
  unfolding collapse next_duration later_durations
  collapse-cons segments u urls d ds = refl

  collapse-same_url :
      (url : Text) (n : ℕ) (ds : List ℕ) (segments : List Segment) (urls : List Text) (es : List ℕ)
      → Absent url segments
      → collapse timescale (segments ++ (partial url n ∷ [])) (same_url url ds ++ urls) (ds ++ es)
        ≡ collapse timescale (segments ++ (partial url (n + sum ds) ∷ [])) urls es
  collapse-same_url url n [] segments urls es h =
      ap (λ (k : ℕ). collapse timescale (segments ++ (partial url k ∷ [])) urls es) (omega arith)
  collapse-same_url url n (d ∷ ds) segments urls es h =
      collapse-cons _ url (same_url url ds ++ urls) d (ds ++ es)
      ∙ ap (λ (l : List Segment). collapse timescale l (same_url url ds ++ urls) (ds ++ es))
          (put-partial url n d segments h)
      ∙ collapse-same_url url (n + d) ds segments urls es h
      ∙ ap (λ (k : ℕ). collapse timescale (segments ++ (partial url k ∷ [])) urls es) (omega arith)

  -- The fragments of one new segment, read one by one.
  collapse-fragments :
      (url : Text) (d : ℕ) (ds : List ℕ) (segments : List Segment) (urls : List Text) (es : List ℕ)
      → Absent url segments
      → 0 < d
      → collapse timescale segments (same_url url (d ∷ ds) ++ urls) ((d ∷ ds) ++ es)
        ≡ collapse timescale (segments ++ (new_segment timescale url (d + sum ds) ∷ [])) urls es
  unfolding new_segment
  collapse-fragments url d ds segments urls es h p =
      collapse-cons segments url (same_url url ds ++ urls) d (ds ++ es)
      ∙ ap (λ (l : List Segment). collapse timescale l (same_url url ds ++ urls) (ds ++ es))
          (put-Absent url d segments h
            ∙ ap (λ (s : Segment). segments ++ (s ∷ [])) (new_partial d p))
      ∙ collapse-same_url url d ds segments urls es h
      ∙ ap (λ (s : Segment). collapse timescale (segments ++ (s ∷ [])) urls es)
          (sym (new_partial (d + sum ds) (omega arith)))
    where
      new_partial : (k : ℕ) → 0 < k → new_segment timescale url k ≡ partial url k
      new_partial k q = ground arith

-- The urls of a segment's fragments, and their durations.
media_of-ranges :
    (c : ℕ) (media : Text) (base rem k : ℕ) (fs : List Fragment) (us : List SegmentUrl)
    → media_of (ranges (c ∷ media) fs ++ us)
      ≡ same_url (c ∷ media) (split_durations base rem k fs) ++ media_of us
unfolding media_of ranges split_durations
media_of-ranges c media base rem k [] us = refl
media_of-ranges c media base rem k (f ∷ fs) us =
    ap (λ (l : List Text). (c ∷ media) ∷ l) (media_of-ranges c media base rem (k + 1) fs us)

media_of-cons :
    (u : SegmentUrl) (us : List SegmentUrl)
    → u.media ≢ []
    → media_of (u ∷ us) ≡ u.media ∷ media_of us
unfolding media_of
media_of-cons u us h = go u.media h
  where
    go :
        (m : Text)
        → m ≢ []
        → elim m [ [] ↦ media_of us | c ∷ s ↦ (c ∷ s) ∷ media_of us ] ≡ m ∷ media_of us
    go [] n = absurd (n refl)
    go (c ∷ s) n = refl

module _ (timescale : ℕ) where
  -- A segment with no more fragments than ticks is read as one, fragments or not.
  collapse-segment :
      (media : Text) (fs : List Fragment) (d : ℕ) (segments : List Segment) (us : List SegmentUrl)
      (es : List ℕ)
      → media ≢ []
      → length fs ≤ d
      → Absent media segments
      → collapse timescale segments (media_of (urls_for media fs ++ us)) (durations_for d fs ++ es)
        ≡ collapse timescale (segments ++ (new_segment timescale media d ∷ [])) (media_of us) es
  unfolding urls_for durations_for media_of split_durations
  collapse-segment [] fs d segments us es n l h = absurd (n refl)
  collapse-segment (c ∷ m) [] d segments us es n l h =
      collapse-cons timescale segments (c ∷ m) (media_of us) d es
      ∙ ap (λ (x : List Segment). collapse timescale x (media_of us) es)
          (put-Absent timescale (c ∷ m) d segments h)
  collapse-segment (c ∷ m) (f ∷ fs) d segments us es n l h =
      ap (λ (x : List Text). collapse timescale segments x (durations_for d (f ∷ fs) ++ es))
        (media_of-ranges c m base rem 0 (f ∷ fs) us)
      ∙ collapse-fragments timescale (c ∷ m) _ _ segments (media_of us) es h (omega arith)
      ∙ ap
          (λ (k : ℕ).
            collapse timescale (segments ++ (new_segment timescale (c ∷ m) k ∷ [])) (media_of us)
              es)
          (durations_for-sum (f ∷ fs) d (omega arith) ∙ omega arith)
    where
      base : ℕ
      base = d / length (f ∷ fs)

      rem : ℕ
      rem = d % length (f ∷ fs)

  Absent-snoc :
      (media : Text) (d : ℕ) (segments : List Segment) (us : List SegmentUrl)
      → All (λ (v : SegmentUrl). Absent v.media segments) us
      → All (λ (v : SegmentUrl). text_eq media v.media ≡ false) us
      → All
          (λ (v : SegmentUrl). Absent v.media (segments ++ (new_segment timescale media d ∷ [])))
          us
  unfolding new_segment
  Absent-snoc media d segments [] h k = tt
  Absent-snoc media d segments (v ∷ us) h k = (
    All-append (λ (s : Segment). text_eq s.url v.media ≡ false) segments _ h.0 (k.0, tt),
    Absent-snoc media d segments us h.1 k.1,
  )

-- One duration for each url; every url is there, and once; no segment has more fragments than ticks.
abbrev pub IsPlain : (Text → List Fragment) → List SegmentUrl → List ℕ → Type 0
IsPlain fragments [] [] = Unit
IsPlain fragments [] (d ∷ ds) = ⊥
IsPlain fragments (u ∷ us) [] = ⊥
IsPlain fragments (u ∷ us) (d ∷ ds) =
    (u.media ≢ [])
    × (length (fragments_of fragments u.media) ≤ d)
    × All (λ (v : SegmentUrl). text_eq u.media v.media ≡ false) us
    × IsPlain fragments us ds

extract_segments-collapse :
    (sl : SegmentList)
    → media_of sl.urls ≢ []
    → extract_segments sl ≡ collapse sl.timescale [] (media_of sl.urls) (durations_of sl.timeline)
unfolding extract_segments
extract_segments-collapse sl h = go (media_of sl.urls) h
  where
    ds : List ℕ
    ds = durations_of sl.timeline

    go :
        (m : List Text)
        → m ≢ []
        → elim m [
          | [] ↦ timeline_only sl.timescale ds
          | u ∷ urls ↦ collapse sl.timescale [] (u ∷ urls) ds
        ]
          ≡ collapse sl.timescale [] m ds
    go [] n = absurd (n refl)
    go (u ∷ urls) n = refl

media_of-urls_for-ne :
    (media : Text) (fs : List Fragment) (us : List SegmentUrl)
    → media ≢ []
    → media_of (urls_for media fs ++ us) ≢ []
unfolding media_of urls_for ranges
media_of-urls_for-ne [] fs us n e = n refl
media_of-urls_for-ne (c ∷ m) [] us n e = cc
media_of-urls_for-ne (c ∷ m) (f ∷ fs) us n e = cc

module _ (fragments : Text → List Fragment) where
  collapse-new :
      (timescale : ℕ) (us : List SegmentUrl) (ds : List ℕ) (segments : List Segment)
      → IsPlain fragments us ds
      → All (λ (v : SegmentUrl). Absent v.media segments) us
      → collapse timescale segments (media_of (new_urls fragments us)) (new_durs fragments us ds)
        ≡ collapse timescale segments (media_of us) ds
  unfolding new_urls new_durs
  collapse-new timescale [] [] segments p a = refl
  collapse-new timescale [] (d ∷ ds) segments p a = absurd p
  collapse-new timescale (u ∷ us) [] segments p a = absurd p
  collapse-new timescale (u ∷ us) (d ∷ ds) segments (n, l, o, p) (h, a) =
      collapse-segment timescale u.media (fragments_of fragments u.media) d segments
        (new_urls fragments us) (new_durs fragments us ds) n l h
      ∙ collapse-new timescale us ds _ p (Absent-snoc timescale u.media d segments us a o)
      ∙ sym (
          ap (λ (x : List Text). collapse timescale segments x (d ∷ ds)) (media_of-cons u us n)
          ∙ collapse-cons timescale segments u.media (media_of us) d ds
          ∙ ap (λ (x : List Segment). collapse timescale x (media_of us) ds)
              (put-Absent timescale u.media d segments h))

  lengths_of_plain :
      (us : List SegmentUrl) (ds : List ℕ) → IsPlain fragments us ds → length ds ≡ length us
  lengths_of_plain [] [] p = refl
  lengths_of_plain [] (d ∷ ds) p = absurd p
  lengths_of_plain (u ∷ us) [] p = absurd p
  lengths_of_plain (u ∷ us) (d ∷ ds) (n, l, o, p) = ap suc (lengths_of_plain us ds p)

  media_of-ne :
      (us : List SegmentUrl) (ds : List ℕ)
      → IsPlain fragments us ds
      → 0 < length us
      → (media_of us ≢ []) × (media_of (new_urls fragments us) ≢ [])
  unfolding new_urls
  media_of-ne [] ds p h = absurd (omega arith)
  media_of-ne (u ∷ us) [] p h = absurd p
  media_of-ne (u ∷ us) (d ∷ ds) (n, l, o, p) h = (
    λ e. cc (media_of-cons u us n),
    media_of-urls_for-ne u.media (fragments_of fragments u.media) (new_urls fragments us) n,
  )

  extract_segments-rewritten :
      (sl : SegmentList) (entries : List Entry)
      → sl.timeline ≡ some entries
      → IsPlain fragments sl.urls (flatten entries)
      → is_skipped sl (flatten entries) ≡ false
      → extract_segments (rewritten fragments sl (flatten entries)) ≡ extract_segments sl
  unfolding rewritten durations_of
  extract_segments-rewritten sl entries e p go =
      extract_segments-collapse (rewritten fragments sl (flatten entries)) filled.1
      ∙ ap (collapse sl.timescale [] (media_of (new_urls fragments sl.urls)))
          (flatten-compress (new_durs fragments sl.urls (flatten entries)))
      ∙ collapse-new sl.timescale sl.urls (flatten entries) [] p (none_yet sl.urls)
      ∙ sym (
          extract_segments-collapse sl filled.0
          ∙ ap
              (λ (t : Option (List Entry)).
                collapse sl.timescale [] (media_of sl.urls) (durations_of t))
              e)
    where
      filled : (media_of sl.urls ≢ []) × (media_of (new_urls fragments sl.urls) ≢ [])
      filled = media_of-ne sl.urls (flatten entries) p (unfold is_skipped in ground arith)

      none_yet : (us : List SegmentUrl) → All (λ (v : SegmentUrl). Absent v.media []) us
      none_yet [] = tt
      none_yet (u ∷ us) = (tt, none_yet us)

  -- HLS reads the same segments from a segment list and from its expansion into fragments, if it
  -- has one duration for each url, no url is empty or there twice, and no segment has more
  -- fragments than ticks: the two phases may run in either order.
  pub extract_segments-expand :
      (sl : SegmentList) (entries : List Entry)
      → sl.timeline ≡ some entries
      → IsPlain fragments sl.urls (flatten entries)
      → extract_segments (expand fragments sl) ≡ extract_segments sl
  extract_segments-expand sl entries e p = elim (Bool-cases (is_skipped sl (flatten entries))) [
    | inl stop ↦
        ap extract_segments
          (expand-some fragments sl entries e ∙ expand_entries-skipped fragments sl entries stop)
    | inr go ↦
        ap extract_segments
          (expand-some fragments sl entries e ∙ expand_entries-rewritten fragments sl entries go)
        ∙ extract_segments-rewritten sl entries e p go
  ]
