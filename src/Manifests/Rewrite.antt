-- ===== src/Manifests/Rewrite.antt =====
-- `write_fragmented_mpd` run again on what it wrote.
use infinite_streaming_encod.Prelude.{
  ℕ, suc, ◌≡◌, refl, ap, ap₂, sym, ◌∙◌, inl, inr, true, false, ◌||◌, none, some, List, [], ◌∷◌,
  ◌++◌, arith, length, Bool-cases, Option-cases, All,
}
use infinite_streaming_encod.Prelude.Text.{Text}
use infinite_streaming_encod.Manifests.{
  Entry, SegmentUrl, SegmentList, Fragment, compress, flatten, ranges, durations_for, urls_for,
  fragments_of, new_durs, new_urls, rewritten, expand, expand_all, expand_entries, is_skipped,
  has_range, is_fragmented, write_fragmented_mpd,
}
use infinite_streaming_encod.Manifests.Timeline.{flatten-compress}

has_range-append : (us vs : List SegmentUrl) → has_range (us ++ vs) ≡ (has_range us || has_range vs)
unfolding has_range
has_range-append [] vs = refl
has_range-append (u ∷ us) vs = ground (arith, has_range-append us vs)

module _ (fragments : Text → List Fragment) where
  -- Where no range was written, no segment had fragments.
  abbrev Whole : List SegmentUrl → Type 0
  Whole us = All (λ (u : SegmentUrl). fragments_of fragments u.media ≡ []) us

  no_fragments :
      (media : Text) (fs : List Fragment) → has_range (urls_for media fs) ≡ false → fs ≡ []
  unfolding has_range urls_for ranges
  no_fragments media [] h = refl
  no_fragments media (f ∷ fs) h = cc

  Whole-has_range : (us : List SegmentUrl) → has_range (new_urls fragments us) ≡ false → Whole us
  unfolding new_urls
  Whole-has_range [] h = tt
  Whole-has_range (u ∷ us) h = (
    no_fragments u.media (fragments_of fragments u.media) (ground (arith, split)),
    Whole-has_range us (ground (arith, split)),
  )
    where
      split :
          has_range (urls_for u.media (fragments_of fragments u.media) ++ new_urls fragments us) ≡ (
            has_range (urls_for u.media (fragments_of fragments u.media))
            || has_range (new_urls fragments us))
      split =
          has_range-append (urls_for u.media (fragments_of fragments u.media))
            (new_urls fragments us)

  new_urls-again :
      (us : List SegmentUrl)
      → Whole us
      → new_urls fragments (new_urls fragments us) ≡ new_urls fragments us
  unfolding new_urls urls_for
  new_urls-again [] h = refl
  new_urls-again (u ∷ us) h = rw h.0 (rw h.0 (rw (new_urls-again us h.1)))

  length-new_urls : (us : List SegmentUrl) → Whole us → length (new_urls fragments us) ≡ length us
  unfolding new_urls urls_for
  length-new_urls [] h = refl
  length-new_urls (u ∷ us) h = rw h.0 (ap suc (length-new_urls us h.1))

  new_durs-Whole :
      (us : List SegmentUrl) (ds : List ℕ)
      → Whole us
      → length ds ≡ length us
      → new_durs fragments us ds ≡ ds
  unfolding new_durs durations_for
  new_durs-Whole [] [] h e = refl
  new_durs-Whole [] (d ∷ ds) h e = absurd (omega arith)
  new_durs-Whole (u ∷ us) [] h e = absurd (omega arith)
  new_durs-Whole (u ∷ us) (d ∷ ds) h e =
      rw h.0 (ap (λ (l : List ℕ). d ∷ l) (new_durs-Whole us ds h.1 (omega arith)))

  Whole-new_urls : (us : List SegmentUrl) → Whole us → Whole (new_urls fragments us)
  unfolding new_urls urls_for
  Whole-new_urls [] h = tt
  Whole-new_urls (u ∷ us) h = rw h.0 (h.0, Whole-new_urls us h.1)

  rewritten-rewritten :
      (sl : SegmentList) (ds : List ℕ)
      → Whole sl.urls
      → length ds ≡ length sl.urls
      → rewritten fragments (rewritten fragments sl ds) ds ≡ rewritten fragments sl ds
  unfolding rewritten
  rewritten-rewritten sl ds w e = rw (
    new_urls-again sl.urls w,
    new_durs-Whole (new_urls fragments sl.urls) ds (Whole-new_urls sl.urls w)
        (e ∙ sym (length-new_urls sl.urls w)),
    new_durs-Whole sl.urls ds w e,
  )

  rewritten-urls :
      (sl : SegmentList) (ds : List ℕ)
      → (rewritten fragments sl ds).urls ≡ new_urls fragments sl.urls
  unfolding rewritten
  rewritten-urls sl ds = refl

  rewritten-timeline :
      (sl : SegmentList) (ds : List ℕ)
      → (rewritten fragments sl ds).timeline ≡ some (compress (new_durs fragments sl.urls ds))
  unfolding rewritten
  rewritten-timeline sl ds = refl

  lengths_of :
      (sl : SegmentList) (ds : List ℕ) → is_skipped sl ds ≡ false → length ds ≡ length sl.urls
  unfolding is_skipped
  lengths_of sl ds h = ground arith

  is_skipped-rewritten :
      (sl : SegmentList) (ds : List ℕ)
      → Whole sl.urls
      → is_skipped sl ds ≡ false
      → is_skipped (rewritten fragments sl ds) ds ≡ false
  unfolding is_skipped
  is_skipped-rewritten sl ds w h = rw (rewritten-urls sl ds, length-new_urls sl.urls w) h

  pub expand-some :
      (sl : SegmentList) (entries : List Entry)
      → sl.timeline ≡ some entries
      → expand fragments sl ≡ expand_entries fragments sl entries
  unfolding expand
  expand-some sl entries e = ap (elim [ none ↦ sl | some es ↦ expand_entries fragments sl es ]) e

  pub expand_entries-rewritten :
      (sl : SegmentList) (entries : List Entry)
      → is_skipped sl (flatten entries) ≡ false
      → expand_entries fragments sl entries ≡ rewritten fragments sl (flatten entries)
  unfolding expand_entries
  expand_entries-rewritten sl entries h = ground arith

  pub expand_entries-skipped :
      (sl : SegmentList) (entries : List Entry)
      → is_skipped sl (flatten entries) ≡ true
      → expand_entries fragments sl entries ≡ sl
  unfolding expand_entries
  expand_entries-skipped sl entries h = ground arith

  expand-rewritten :
      (sl : SegmentList) (ds : List ℕ)
      → Whole sl.urls
      → is_skipped sl ds ≡ false
      → expand fragments (rewritten fragments sl ds) ≡ rewritten fragments sl ds
  expand-rewritten sl ds w h =
      expand-some again (compress (new_durs fragments sl.urls ds)) (rewritten-timeline sl ds)
      ∙ expand_entries-rewritten again _
          (rw (flatten-compress, same) (is_skipped-rewritten sl ds w h))
      ∙ rw (flatten-compress, same) (rewritten-rewritten sl ds w (lengths_of sl ds h))
    where
      again : SegmentList
      again = rewritten fragments sl ds

      same : new_durs fragments sl.urls ds ≡ ds
      same = new_durs-Whole sl.urls ds w (lengths_of sl ds h)

  expand_entries-again :
      (sl : SegmentList) (entries : List Entry)
      → sl.timeline ≡ some entries
      → has_range (expand_entries fragments sl entries).urls ≡ false
      → expand fragments (expand_entries fragments sl entries) ≡ expand_entries fragments sl entries
  unfolding rewritten
  expand_entries-again sl entries e h = elim (Bool-cases (is_skipped sl (flatten entries))) [
    | inl stop ↦
        ap (expand fragments) (expand_entries-skipped sl entries stop) ∙ expand-some sl entries e
    | inr go ↦
        let written = expand_entries-rewritten sl entries go in
        rw written
          (expand-rewritten sl (flatten entries) (Whole-has_range sl.urls (rw written at h)) go)
  ]

  expand-again :
      (sl : SegmentList)
      → has_range (expand fragments sl).urls ≡ false
      → expand fragments (expand fragments sl) ≡ expand fragments sl
  expand-again sl h = elim (Option-cases sl.timeline) [
    | inl e ↦
        let same : expand fragments sl ≡ sl =
          unfold expand in ap (elim [ none ↦ sl | some es ↦ expand_entries fragments sl es ]) e in
        ap (expand fragments) same
    | inr (entries, e) ↦
        let opened = expand-some sl entries e in
        ap (expand fragments) opened
        ∙ expand_entries-again sl entries e (rw opened at h)
        ∙ sym opened
  ]

  expand_all-again :
      (root : List SegmentList)
      → is_fragmented (expand_all fragments root) ≡ false
      → expand_all fragments (expand_all fragments root) ≡ expand_all fragments root
  unfolding expand_all is_fragmented
  expand_all-again [] h = refl
  expand_all-again (sl ∷ rest) h =
      ap₂ (λ (x : SegmentList) xs. x ∷ xs) (expand-again sl (ground arith))
        (expand_all-again rest (ground arith))

  -- A manifest that was rewritten once is left as it is: phases that are retried do no harm.
  pub write_fragmented_mpd-again :
      (root : List SegmentList)
      → write_fragmented_mpd fragments (write_fragmented_mpd fragments root)
        ≡ write_fragmented_mpd fragments root
  unfolding write_fragmented_mpd
  write_fragmented_mpd-again root = elim (Bool-cases (is_fragmented root)) [
    | inl e ↦ rw e (rw e)
    | inr e ↦ rw e (elim (Bool-cases (is_fragmented (expand_all fragments root))) [
      | inl e' ↦ rw e'
      | inr e' ↦ rw e' (expand_all-again root e')
    ])
  ]
