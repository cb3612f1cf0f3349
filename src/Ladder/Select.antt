-- ===== src/Ladder/Select.antt =====
-- ladder.py, select_rungs: the rungs of the full ladder that fit the source and the band.
use infinite_streaming_encod.Prelude.{
  ℕ, ◌≤◌, Bool, true, not, ◌&&◌, ◌||◌, Option, none, some, List, [], ◌∷◌, ◌≡◌, ◌≢◌, ◌↔◌, ◌⊎◌, inl,
  inr, refl, ◌∙◌, ltb, map, keep_if, All, Bool-cases, Option-cases, arith,
}
use infinite_streaming_encod.Prelude.Text.{Text}
use infinite_streaming_encod.Prelude.Dict.{find}
use infinite_streaming_encod.Ladder.{
  Rung, RungRow, res_name_for_height, label_rows, make_rung, build_rungs, Counts, Row, count_in,
  bump, overridden, above, below, select_from, select_rungs, res_height, label_height,
  label_res_name,
}
use infinite_streaming_encod.Ladder.Labels.{
  label_height-of, label_res_name-numbered, label_res_name-plain,
}
use infinite_streaming_encod.Ladder.Distinct.{
  Distinct, build_rungs-Distinct, name_of, label_rows-repeated, label_rows-single,
}

-- No upscale, and the height between the bounds that are given, both inclusive.
abbrev pub Fits : Option ℕ → Option ℕ → ℕ → Rung → Type 0
Fits max_h min_h source_width rung =
    ((source_width ≡ 0) ⊎ (rung.width ≤ source_width))
    × ((bound : ℕ) → max_h ≡ some bound → rung.height ≤ bound)
    × ((bound : ℕ) → min_h ≡ some bound → bound ≤ rung.height)

abbrev pub fits : Option ℕ → Option ℕ → ℕ → Rung → Bool
fits max_h min_h source_width rung =
    (ltb source_width 1 || not (ltb source_width rung.width))
    && not (above max_h rung.height)
    && not (below min_h rung.height)

at_most :
    (o : Option ℕ) (h : ℕ) → (not (above o h) ≡ true) ↔ ((bound : ℕ) → o ≡ some bound → h ≤ bound)
unfolding above
at_most none h = (λ e bound f. cc, λ k. refl)
at_most (some b) h = (
  λ e bound f. (let b≡bound : b ≡ bound = cc in ground (arith)),
  λ k. (let l = k b refl in ground (arith)),
)

at_least :
    (o : Option ℕ) (h : ℕ) → (not (below o h) ≡ true) ↔ ((bound : ℕ) → o ≡ some bound → bound ≤ h)
unfolding below
at_least none h = (λ e bound f. cc, λ k. refl)
at_least (some b) h = (
  λ e bound f. (let b≡bound : b ≡ bound = cc in ground (arith)),
  λ k. (let l = k b refl in ground (arith)),
)

fits_iff :
    (max_h min_h : Option ℕ) (source_width : ℕ) (rung : Rung)
    → (fits max_h min_h source_width rung ≡ true) ↔ Fits max_h min_h source_width rung
fits_iff max_h min_h source_width rung =
    ground (arith, at_most max_h rung.height, at_least min_h rung.height)

select_from-keep_if :
    (max_h min_h : Option ℕ) (source_width : ℕ) (override : List (Text × ℕ)) (rungs : List Rung)
    → select_from max_h min_h source_width override rungs
      ≡ map (overridden override) (keep_if (fits max_h min_h source_width) rungs)
unfolding select_from
select_from-keep_if max_h min_h source_width override [] = refl
select_from-keep_if max_h min_h source_width override (rung ∷ rungs) =
    ground (arith, select_from-keep_if max_h min_h source_width override rungs)

-- The rungs that are encoded are, in the order of the full ladder, exactly those that are no wider
-- than the source and whose height is between the bounds that are given, each with the bitrate
-- that is given for its resolution.
pub select_rungs-exact :
    (raw : List RungRow) (max_res min_res : Option Text) (source_width : ℕ)
    (override : List (Text × ℕ))
    → (select_rungs raw max_res source_width override min_res
        ≡ map (overridden override) (
            keep_if
              (fits (res_height max_res) (res_height min_res) source_width)
              (build_rungs raw)))
      × ((rung : Rung)
          → (fits (res_height max_res) (res_height min_res) source_width rung ≡ true)
            ↔ Fits (res_height max_res) (res_height min_res) source_width rung)
unfolding select_rungs
select_rungs-exact raw max_res min_res source_width override = (
  select_from-keep_if (res_height max_res) (res_height min_res) source_width override
      (build_rungs raw),
  fits_iff (res_height max_res) (res_height min_res) source_width,
)

-- What the label of a rung says: its resolution and its height are read back from it.
abbrev pub Readable : Rung → Type 0
Readable r = (label_res_name r.label ≡ r.res_name) × (label_height r.label ≡ some r.height)

make_rung-Readable :
    (row : Row) (label : Text)
    → label_res_name label ≡ res_name_for_height row.height
    → Readable (make_rung row label)
unfolding make_rung
make_rung-Readable row label e = (e, label_height-of label row.height e)

label_rows-Readable :
    (counts idx : Counts) (rows : List Row) → All Readable (label_rows counts idx rows)
label_rows-Readable counts idx [] = unfold label_rows in tt
label_rows-Readable counts idx (row ∷ rows) =
    elim (Bool-cases (ltb 1 (count_in (name_of row) counts))) [
      | inl e ↦ rw (label_rows-repeated counts idx row rows e) (
        make_rung-Readable row _ (label_res_name-numbered row.height _),
        label_rows-Readable counts (bump (name_of row) idx) rows,
      )
      | inr e ↦ rw (label_rows-single counts idx row rows e) (
        make_rung-Readable row _ (label_res_name-plain row.height),
        label_rows-Readable counts idx rows,
      )
    ]

-- The resolution and the height of every rung are read back from its label.
pub build_rungs-Readable : (raw : List RungRow) → All Readable (build_rungs raw)
unfolding build_rungs
build_rungs-Readable raw = label_rows-Readable _ _ _

overridden-label : (override : List (Text × ℕ)) (r : Rung) → (overridden override r).label ≡ r.label
unfolding overridden
overridden-label override r = elim (Option-cases (find r.res_name override)) [
  | inl e ↦ rw (e, overridden) refl
  | inr (kbps, e) ↦ rw (e, overridden) refl
]

selected-Fresh :
    (override : List (Text × ℕ)) (p : Rung → Bool) (label : Text) (rungs : List Rung)
    → All (λ s. label ≢ s.label) rungs
    → All (λ s. label ≢ s.label) (map (overridden override) (keep_if p rungs))
selected-Fresh override p label [] h = tt
selected-Fresh override p label (r ∷ rungs) (n, h) = elim (Bool-cases (p r)) [
  | inl e ↦ rw e (λ f. n (f ∙ overridden-label override r), selected-Fresh override p label rungs h)
  | inr e ↦ rw e (selected-Fresh override p label rungs h)
]

selected-Distinct :
    (override : List (Text × ℕ)) (p : Rung → Bool) (rungs : List Rung)
    → Distinct rungs
    → Distinct (map (overridden override) (keep_if p rungs))
selected-Distinct override p [] h = tt
selected-Distinct override p (r ∷ rungs) (n, h) = elim (Bool-cases (p r)) [
  | inl e ↦ rw e (
    rw (overridden-label override r) (selected-Fresh override p (r.label) rungs n),
    selected-Distinct override p rungs h,
  )
  | inr e ↦ rw e (selected-Distinct override p rungs h)
]

-- Whatever the source, the band and the override are, no two of the rungs that are encoded have
-- the same label.
pub select_rungs-Distinct :
    (raw : List RungRow) (max_res min_res : Option Text) (source_width : ℕ)
    (override : List (Text × ℕ))
    → Distinct (select_rungs raw max_res source_width override min_res)
select_rungs-Distinct raw max_res min_res source_width override =
    rw ((select_rungs-exact raw max_res min_res source_width override).0)
      (selected-Distinct override _ (build_rungs raw) (build_rungs-Distinct raw))
