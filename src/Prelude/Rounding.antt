-- ===== src/Prelude/Rounding.antt =====
-- Python's `round` and `math.ceil` on an exact quotient, and the distance of a quotient from the
-- nearest whole number. Durations are whole microseconds, so the source's float tolerance `_EPS`
-- of 1e-6 is one part in `million`.
use Prim.Native.Nat.{ℕ, ◌+◌, ◌-◌, ◌*◌, ◌/◌, ◌%◌, ◌≤◌, ◌<◌, min}
use mathlib.Core.Path.{◌≡◌}
use mathlib.Core.Logic.{◌⊎◌, inl, inr}
use native.Mathlib.Omega.{arith}
use native.Mathlib.Nat.{div-add-mod, mod-lt}
use infinite_streaming_encod.Prelude.Bools.{ltb, ◌==◌, if◌then◌else◌}

abbrev pub million : ℕ
million = 1_000_000

-- `round(n / d)`: to the nearest whole number, a half to the even one.
unfoldable pub round_div : ℕ → ℕ → ℕ
round_div n d =
    let q = n / d in
    let r = n % d in
    if ltb (2 * r) d then q else if ltb d (2 * r) then q + 1 else if q % 2 == 0 then q else q + 1

-- `d` times the distance of `n / d` from `round(n / d)`.
unfoldable pub off_whole : ℕ → ℕ → ℕ
off_whole n d = min (n % d) (d - n % d)

-- `math.ceil(n / d)`.
unfoldable pub ceil_div : ℕ → ℕ → ℕ
ceil_div n d = (n + (d - 1)) / d

-- Which of the two whole numbers next to the quotient `round` takes.
pub round_div-cases :
    (n d : ℕ)
    → 0 < d
    → ((round_div n d ≡ n / d) × (2 * (n % d) ≤ d))
      ⊎ ((round_div n d ≡ n / d + 1) × (d ≤ 2 * (n % d)))
unfolding round_div
round_div-cases n d h = ground arith

-- `round` is within half a unit of the quotient.
pub round_div_near :
    (n d : ℕ)
    → 0 < d
    → (2 * (round_div n d * d) ≤ 2 * n + d) × (2 * n ≤ 2 * (round_div n d * d) + d)
round_div_near n d h = elim (round_div-cases n d h) [
  | inl (e, r) ↦ rw e (grind arith, grind arith)
  | inr (e, r) ↦ rw e (grind arith, grind arith)
]

pub ceil_div_bounds : (n d : ℕ) → 0 < d → (n ≤ ceil_div n d * d) × (ceil_div n d * d < n + d)
unfolding ceil_div
ceil_div_bounds n d h = grind arith

-- `divmod` of a total by a number of parts that is no larger.
pub division :
    (total n : ℕ)
    → 0 < n
    → n ≤ total
    → (n * (total / n) + total % n ≡ total) × (0 < total / n) × (total % n < n)
division total n p h =
    (div-add-mod total n, grind (arith, div-add-mod total n, mod-lt total p), mod-lt total p)
