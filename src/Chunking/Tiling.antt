-- ===== src/Chunking/Tiling.antt =====
-- The loop of `plan_chunks`: the chunks it makes lie end to end, start on the grid, and share the
-- grid units evenly.
use infinite_streaming_encod.Prelude.{
  ℕ, zero, suc, ◌+◌, ◌-◌, ◌*◌, ◌<◌, min, ◌≡◌, refl, ap, ◌⊎◌, List, [], ◌∷◌, arith, ltb,
  if◌then◌else◌, length, All,
}
use infinite_streaming_encod.Chunking.{Chunk, end_of, nominal, clipped, tile}

-- The chunks lie end to end from `s` to `e`, and none is empty.
abbrev pub Tiles : ℕ → ℕ → List Chunk → Type 0
Tiles s e [] = s ≡ e
Tiles s e (c ∷ cs) = (c.start ≡ s) × (0 < c.duration) × Tiles (end_of c) e cs

-- The chunks are numbered from `i` on.
abbrev pub IsNumbered : ℕ → List Chunk → Type 0
IsNumbered i [] = Unit
IsNumbered i (c ∷ cs) = (c.index ≡ i) × IsNumbered (i + 1) cs

-- A whole number of grid units.
abbrev pub OnGrid : ℕ → ℕ → Type 0
OnGrid grid t = (k : ℕ) × (t ≡ k * grid)

-- Every chunk but the last has `base` or `base + 1` units, and the last more than `base - 1`
-- and fewer than `base + 1`.
abbrev pub IsEven : ℕ → ℕ → List Chunk → Type 0
IsEven grid base [] = Unit
IsEven grid base (c ∷ []) = (base * grid < c.duration + grid) × (c.duration < (base + 1) * grid)
IsEven grid base (c ∷ d ∷ cs) =
    ((c.duration ≡ base * grid) ⊎ (c.duration ≡ (base + 1) * grid)) × IsEven grid base (d ∷ cs)

-- The grid units before the chunk with this index.
unfoldable pub reached : ℕ → ℕ → ℕ → ℕ
reached base extra i = i * base + min i extra

reached-zero : (base extra : ℕ) → reached base extra 0 ≡ 0
unfolding reached
reached-zero base extra = omega arith

reached-suc :
    (base extra i : ℕ)
    → reached base extra (i + 1) ≡ reached base extra i + (base + (if ltb i extra then 1 else 0))
unfolding reached
reached-suc base extra i = ground arith

-- What is left of a clip after `r` units, when it ends in the unit `r + base` or just beyond it.
rest_of_clip :
    (r base g c : ℕ)
    → 0 < base
    → (r + (base - 1)) * g < c
    → c < (r + base + 1) * g
    → (base * g < c - r * g + g) × (c - r * g < (base + 1) * g)
rest_of_clip r zero g c b h k = absurd (omega arith)
rest_of_clip r (suc base) g c b h k =
    let h' : (r + base) * g < c = rw (← pred_suc base) h in omega arith
  where
    pred_suc : (m : ℕ) → suc m - 1 ≡ m
    pred_suc m = omega arith

module _ (content grid n base extra : ℕ) where
  pub length-tile : (left i s : ℕ) → length (tile content grid n base extra left i s) ≡ left
  unfolding tile
  length-tile zero i s = refl
  length-tile (suc left) i s = ap suc (length-tile left (i + 1) _)

  pub tile-IsNumbered : (left i s : ℕ) → IsNumbered i (tile content grid n base extra left i s)
  unfolding tile
  tile-IsNumbered zero i s = tt
  tile-IsNumbered (suc left) i s = (refl, tile-IsNumbered left (i + 1) _)

  clipped-last : (i s : ℕ) → i + 1 ≡ n → clipped content grid n base extra i s ≡ content - s
  unfolding clipped
  clipped-last i s h = ground arith

  clipped-interior :
      (i s : ℕ)
      → i + 1 < n
      → s + nominal content grid n base extra i < content
      → clipped content grid n base extra i s ≡ nominal content grid n base extra i
  unfolding clipped
  clipped-interior i s h k = ground arith

  reached-step :
      (i : ℕ)
      → reached base extra i * grid + nominal content grid n base extra i
        ≡ reached base extra (i + 1) * grid
  unfolding nominal
  reached-step i = rw reached-suc (omega arith)

  reached-lt : (j : ℕ) → 0 < base → j < n → extra < n → reached base extra j < n * base + extra
  unfolding reached
  reached-lt j b h x = grind arith

  -- What `plan_chunks` knows of its division: no chunk is without a unit, and every unit before
  -- the last begins inside the clip.
  pub record IsDivision : Type 0 where
    pub some_units : 0 < base
    pub remainder : extra < n
    pub inside : (u : ℕ) → u < n * base + extra → u * grid < content

module _ (content grid n base extra : ℕ) (d : IsDivision content grid n base extra) where
  starts-inside : (j : ℕ) → j < n → reached base extra j * grid < content
  starts-inside j h = d.inside _ (reached-lt content grid n base extra j d.some_units h d.remainder)

  clipped-eq-nominal :
      (i : ℕ)
      → i + 1 < n
      → clipped content grid n base extra i (reached base extra i * grid)
        ≡ nominal content grid n base extra i
  clipped-eq-nominal i h =
      clipped-interior content grid n base extra i _ h (rw reached-step (starts-inside (i + 1) h))

  -- The start after an interior chunk.
  next-start :
      (i s : ℕ)
      → i + 1 < n
      → s ≡ reached base extra i * grid
      → s + clipped content grid n base extra i s ≡ reached base extra (i + 1) * grid
  next-start i s h q = rw (q, clipped-eq-nominal i h) (reached-step content grid n base extra i)

  last-duration :
      (i s : ℕ)
      → i + 1 ≡ n
      → s ≡ reached base extra i * grid
      → (0 < clipped content grid n base extra i s)
        × (s + clipped content grid n base extra i s ≡ content)
  last-duration i s e q =
      omega (arith, clipped-last content grid n base extra i s e, starts-inside i (omega arith))

  interior-duration :
      (i s : ℕ)
      → i + 1 < n
      → s ≡ reached base extra i * grid
      → 0 < grid
      → 0 < clipped content grid n base extra i s
  unfolding nominal
  interior-duration i s h q g = rw (q, clipped-eq-nominal i h) (let b = d.some_units in grind arith)

  pub tile-Tiles :
      (left i s : ℕ)
      → 0 < left
      → i + left ≡ n
      → s ≡ reached base extra i * grid
      → 0 < grid
      → Tiles s content (tile content grid n base extra left i s)
  unfolding tile
  tile-Tiles zero i s p e q g = absurd (omega arith)
  tile-Tiles (suc zero) i s p e q g = let f = last-duration i s (omega arith) q in (refl, f.0, f.1)
  tile-Tiles (suc (suc left)) i s p e q g = (
    refl,
    interior-duration i s (omega arith) q g,
    tile-Tiles (suc left) (i + 1) _ (omega arith) (omega arith) (next-start i s (omega arith) q) g,
  )

  pub tile-OnGrid :
      (left i s : ℕ)
      → 0 < left
      → i + left ≡ n
      → s ≡ reached base extra i * grid
      → All (λ c. OnGrid grid c.start) (tile content grid n base extra left i s)
  unfolding tile
  tile-OnGrid zero i s p e q = absurd (omega arith)
  tile-OnGrid (suc zero) i s p e q = ((_, q), tt)
  tile-OnGrid (suc (suc left)) i s p e q = (
    (_, q),
    tile-OnGrid (suc left) (i + 1) _ (omega arith) (omega arith) (next-start i s (omega arith) q),
  )

  pub start_zero : 0 ≡ reached base extra 0 * grid
  start_zero = rw (reached-zero base extra) (omega arith)

  -- The last chunk has `base` units before it is clipped.
  reached-last : (i : ℕ) → i + 1 ≡ n → reached base extra i + base ≡ n * base + extra
  unfolding reached
  reached-last i h = rw (← h) (let x = d.remainder in omega arith)

  interior-even :
      (i s : ℕ)
      → i + 1 < n
      → s ≡ reached base extra i * grid
      → (clipped content grid n base extra i s ≡ base * grid)
        ⊎ (clipped content grid n base extra i s ≡ (base + 1) * grid)
  unfolding nominal
  interior-even i s h q = rw (q, clipped-eq-nominal i h) (ground arith)

  module _ (covered : content < (n * base + extra + 1) * grid) where
    last-even :
        (i s : ℕ)
        → i + 1 ≡ n
        → s ≡ reached base extra i * grid
        → (base * grid < clipped content grid n base extra i s + grid)
          × (clipped content grid n base extra i s < (base + 1) * grid)
    last-even i s e q =
        rw (clipped-last content grid n base extra i s e, q)
          (rest_of_clip (reached base extra i) base grid content d.some_units
            (d.inside _ (let x = d.some_units in omega (arith, reached-last i e)))
            (rw (reached-last i e) covered))

    pub tile-IsEven :
        (left i s : ℕ)
        → 0 < left
        → i + left ≡ n
        → s ≡ reached base extra i * grid
        → IsEven grid base (tile content grid n base extra left i s)
    unfolding tile
    tile-IsEven zero i s p e q = absurd (omega arith)
    tile-IsEven (suc zero) i s p e q = last-even i s (omega arith) q
    tile-IsEven (suc (suc left)) i s p e q = (
      interior-even i s (omega arith) q,
      tile-IsEven (suc left) (i + 1) _ (omega arith) (omega arith) (next-start i s (omega arith) q),
    )
