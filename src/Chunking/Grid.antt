-- ===== src/Chunking/Grid.antt =====
-- The search of `chunk_grid_for`: the least common multiple of the segment and the 6 s grid.
use Prim.Native.Nat.{◌∣◌}
use mathlib.Core.Logic.{∥∥₁_elim}
use native.Mathlib.Bridge.{le_prop}
use native.Mathlib.Decide.{dec_le}
use native.Mathlib.Nat.{
  mod-lt, dvd-mod_iff, le_of_dvd, dvd_of_mod-eq-zero, mod-eq-zero_of_dvd, dvd-sub, dvd_refl,
  dvd-mul_right, dvd-mul_right_of_dvd, mul-le-mul_left,
}
use infinite_streaming_encod.Prelude.{
  ℕ, zero, suc, ◌+◌, ◌-◌, ◌*◌, ◌%◌, ◌≤◌, ◌<◌, ◌≡◌, refl, ◌⊎◌, true, false, inl, inr, arith,
  Bool-cases,
}
use infinite_streaming_encod.Prelude.Rounding.{million, round_div-cases, off_whole}
use infinite_streaming_encod.Chunking.{
  chunk_grid, chunk_grid_max_units, is_grid, grid_search, chunk_grid_for,
}

small_multiple : (k x : ℕ) → k ∣ x → x < k → x ≡ 0
small_multiple k zero d h = refl
small_multiple k (suc x) d h =
    absurd (let l = le_of_dvd {m = k} {n = suc x} (omega arith) d in omega arith)

-- Whole milliseconds leave no room for the float tolerance.
is_grid-dvd :
    (g segment : ℕ)
    → 0 < segment
    → segment < 1000 * million
    → 1000 ∣ g
    → 1000 ∣ segment
    → is_grid g segment ≡ true
    → segment ∣ g
unfolding is_grid off_whole
is_grid-dvd g segment pos small dg ds h = dvd_of_mod-eq-zero segment (
    ground (
      arith,
      mod-lt g pos,
      small_multiple 1000 (g % segment) whole,
      small_multiple 1000 (segment - g % segment) (dvd-sub 1000 ds whole),
    ))
  where
    whole : 1000 ∣ (g % segment)
    whole = (dvd-mod_iff 1000 ds).1 dg

dvd-is_grid : (g segment : ℕ) → 0 < segment → 0 < g → segment ∣ g → is_grid g segment ≡ true
unfolding is_grid off_whole
dvd-is_grid g segment p q d =
    ground (arith, mod-eq-zero_of_dvd segment d, le_of_dvd q d, round_div-cases g segment p)

module _ (segment : ℕ) (pos : 0 < segment) where
  -- What a search from `k` on finds: the first multiple of the grid that the segment divides,
  -- or the segment itself where `rounds` rounds meet none.
  abbrev Finds : ℕ → ℕ → ℕ → Type 0
  Finds rounds k g =
      (segment ∣ g)
      × (((chunk_grid ∣ g) × ((q : ℕ) → k ≤ q → segment ∣ (chunk_grid * q) → g ≤ chunk_grid * q))
          ⊎ ((g ≡ segment) × ((q : ℕ) → k ≤ q → segment ∣ (chunk_grid * q) → k + rounds ≤ q)))

  module _ (small : segment < 1000 * million) (ms : 1000 ∣ segment) where
    past :
        (k q : ℕ)
        → 0 < k
        → is_grid (chunk_grid * k) segment ≡ false
        → k ≤ q
        → segment ∣ (chunk_grid * q)
        → k + 1 ≤ q
    past k q h e l d = elim (dec_le (k + 1) q) [
      | yes p ↦ p
      | no p ↦
          let same : q ≡ k = omega arith in
          cc (e, dvd-is_grid (chunk_grid * k) segment pos (omega arith) (rw same at d))
    ]

    widen :
        (rounds k g : ℕ)
        → 0 < k
        → is_grid (chunk_grid * k) segment ≡ false
        → Finds rounds (k + 1) g
        → Finds (suc rounds) k g
    widen rounds k g h e (d, inl (m, f)) = (d, inl (m, λ q l t. f q (past k q h e l t) t))
    widen rounds k g h e (d, inr (m, f)) =
        (d, inr (m, λ q l t. omega (arith, f q (past k q h e l t) t)))

    grid_search-Finds : (rounds k : ℕ) → 0 < k → Finds rounds k (grid_search rounds k segment)
    unfolding grid_search
    grid_search-Finds zero k h = (dvd_refl segment, inr (refl, λ q l d. omega arith))
    grid_search-Finds (suc rounds) k h = elim (Bool-cases (is_grid (chunk_grid * k) segment)) [
      | inl e ↦ rw e (
        is_grid-dvd _ segment pos small (dvd-mul_right_of_dvd 1000 (dvd-mul_right 1000 6000) k) ms
            e,
        inl (dvd-mul_right chunk_grid k, λ q l d. mul-le-mul_left chunk_grid l),
      )
      | inr e ↦ rw e (widen rounds k _ h e (grid_search-Finds rounds (k + 1) (omega arith)))
    ]

    searched : chunk_grid_for segment ≡ grid_search chunk_grid_max_units 1 segment
    unfolding chunk_grid_for
    searched = ground arith

    found_first : Finds chunk_grid_max_units 1 (chunk_grid_for segment)
    found_first = rw searched (grid_search-Finds chunk_grid_max_units 1 (omega arith))

    -- A fact about the multiples of the grid by their factors, said of the multiples.
    by_factors :
        (bound : ℕ)
        → ((q : ℕ) → 1 ≤ q → segment ∣ (chunk_grid * q) → bound ≤ chunk_grid * q)
        → (m : ℕ) → 0 < m
        → chunk_grid ∣ m
        → segment ∣ m
        → bound ≤ m
    by_factors bound f m p d t = ∥∥₁_elim d le_prop λ (q, e). rw e (f q (omega arith) (rw e at t))

    -- For a segment of whole milliseconds, below 1000 s, the grid is a whole number of segments.
    -- It is the least duration that is also a multiple of 6 s; or it is the segment itself, where
    -- every such multiple is longer than 240 times 6 s.
    pub chunk_grid_for-least :
        (segment ∣ chunk_grid_for segment)
        × (((chunk_grid ∣ chunk_grid_for segment)
              × ((m : ℕ) → 0 < m → chunk_grid ∣ m → segment ∣ m → chunk_grid_for segment ≤ m))
            ⊎ ((chunk_grid_for segment ≡ segment)
                × ((m : ℕ) → 0 < m → chunk_grid ∣ m → segment ∣ m → chunk_grid * 240 < m)))
    chunk_grid_for-least = (
      found_first.0,
      elim (found_first.1) [
        | inl (m, f) ↦ inl (m, by_factors _ f)
        | inr (e, f) ↦ inr (e, by_factors _ λ q l t. omega (arith, f q l t))
      ],
    )
