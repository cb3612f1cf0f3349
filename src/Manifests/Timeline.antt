-- ===== src/Manifests/Timeline.antt =====
-- The run-length timeline: what is written is read back, and its times add up.
use infinite_streaming_encod.Prelude.{
  ℕ, zero, suc, ◌+◌, ◌*◌, ◌%◌, ◌<◌, min, max, ◌≡◌, ◌≢◌, refl, ap, ◌∙◌, inl, inr, List, [], ◌∷◌,
  ◌++◌, arith, ◌==◌, length, Bool-cases, ==_iff,
}
use native.Mathlib.Decide.{dec_lt}
use native.Mathlib.Nat.{div-eq_of_lt}
use infinite_streaming_encod.Prelude.Rounding.{division}
use infinite_streaming_encod.Manifests.{
  Entry, Fragment, repeat, flatten, runs, compress, split_durations, durations_for,
}

repeat-append : (n d : ℕ) (ds : List ℕ) → repeat n d ++ d ∷ ds ≡ repeat (n + 1) d ++ ds
unfolding repeat
repeat-append zero d ds = refl
repeat-append (suc n) d ds = rw (suc_add n) (ap (λ (l : List ℕ). d ∷ l) (repeat-append n d ds))
  where
    suc_add : (k : ℕ) → suc k + 1 ≡ suc (k + 1)
    suc_add k = omega arith

flatten-runs : (t d r : ℕ) (ds : List ℕ) → flatten (runs t d r ds) ≡ repeat (r + 1) d ++ ds
unfolding flatten runs
flatten-runs t d r [] = refl
flatten-runs t d r (x ∷ xs) = elim (Bool-cases (x == d)) [
  | inl e ↦ rw (e, runs) (flatten-runs t d (r + 1) xs ∙ rw (← repeat-append, (==_iff x d).0 e))
  | inr e ↦ rw (e, runs, flatten-runs (t + d * (r + 1)) x 0 xs) (unfold repeat in refl)
]

-- The timeline that is written holds the durations that it was made from.
pub flatten-compress : (ds : List ℕ) → flatten (compress ds) ≡ ds
unfolding compress
flatten-compress [] = unfold flatten in refl
flatten-compress (d ∷ ds) = flatten-runs 0 d 0 ds ∙ (unfold repeat in refl)

abbrev pub HeadDiffers : ℕ → List Entry → Type 0
HeadDiffers d [] = Unit
HeadDiffers d (s ∷ rest) = d ≢ s.d

-- Each entry begins where the one above it ends, the first at `t`, and neighbours differ.
abbrev pub IsTimed : ℕ → List Entry → Type 0
IsTimed t [] = Unit
IsTimed t (s ∷ rest) = (s.t ≡ t) × HeadDiffers s.d rest × IsTimed (t + s.d * (s.r + 1)) rest

runs-HeadDiffers : (d t x r : ℕ) (xs : List ℕ) → d ≢ x → HeadDiffers d (runs t x r xs)
unfolding runs
runs-HeadDiffers d t x r [] h = h
runs-HeadDiffers d t x r (y ∷ ys) h = elim (Bool-cases (y == x)) [
  | inl e ↦ rw (e, runs) (runs-HeadDiffers d t x (r + 1) ys h)
  | inr e ↦ rw (e, runs) h
]

runs-IsTimed : (t d r : ℕ) (ds : List ℕ) → IsTimed t (runs t d r ds)
unfolding runs
runs-IsTimed t d r [] = (refl, tt, tt)
runs-IsTimed t d r (x ∷ xs) = elim (Bool-cases (x == d)) [
  | inl e ↦ rw (e, runs) (runs-IsTimed t d (r + 1) xs)
  | inr e ↦
      let differs : d ≢ x = ground arith in
      rw (e, runs)
        (refl, runs-HeadDiffers d _ x 0 xs differs, runs-IsTimed (t + d * (r + 1)) x 0 xs)
]

-- The timeline begins at 0, has no gap and no overlap, and no two neighbours that could be one run;
-- and it holds the durations that it was made from.
pub compress-IsTimed : (ds : List ℕ) → IsTimed 0 (compress ds) × (flatten (compress ds) ≡ ds)
unfolding compress
compress-IsTimed [] = (tt, flatten-compress [])
compress-IsTimed (d ∷ ds) = (runs-IsTimed 0 d 0 ds, flatten-compress (d ∷ ds))

abbrev pub sum : List ℕ → ℕ
sum [] = 0
sum (d ∷ ds) = d + sum ds

sum-split_durations :
    (base rem k : ℕ) (fs : List Fragment)
    → 0 < base
    → sum (split_durations base rem k fs) + min k rem ≡ base * length fs + min (k + length fs) rem
unfolding split_durations
sum-split_durations base rem k [] h = omega arith
sum-split_durations base rem k (f ∷ fs) h =
    ground (arith, sum-split_durations base rem (k + 1) fs h)

sum-split_ones : (rem k : ℕ) (fs : List Fragment) → sum (split_durations 0 rem k fs) ≡ length fs
unfolding split_durations
sum-split_ones rem k [] = refl
sum-split_ones rem k (f ∷ fs) = ground (arith, sum-split_ones rem (k + 1) fs)

-- The fragments of a segment share its ticks: together they have as many as the segment, or one
-- each where the segment has fewer ticks than fragments.
pub durations_for-sum :
    (fragments : List Fragment) (seg_dur : ℕ)
    → 0 < length fragments
    → sum (durations_for seg_dur fragments) ≡ max seg_dur (length fragments)
unfolding durations_for
durations_for-sum [] seg_dur h = absurd (omega arith)
durations_for-sum (f ∷ fs) seg_dur h = elim (dec_lt seg_dur (length (f ∷ fs))) [
  | yes small ↦ rw (div-eq_of_lt small) (sum-split_ones _ 0 (f ∷ fs) ∙ omega arith)
  | no large ↦
      let (e, b, r) = division seg_dur (length (f ∷ fs)) h (omega arith) in
      omega (arith, sum-split_durations _ (seg_dur % length (f ∷ fs)) 0 (f ∷ fs) b)
]
