-- ===== src/Padding/Divisors.antt =====
-- padding.py: the greatest common divisor and the least common multiple.
use Prim.Native.Nat.{◌∣◌}
use native.Mathlib.Nat.{
  dvd_refl, zero-div, dvd-zero, dvd-mod_iff, dvd-mul_right, mul-div_assoc, mul-div_cancel',
  pos_of_dvd_of_pos, mul-dvd-mul_right, dvd_of_mul-dvd-mul_left, div-mul_cancel, mul-sub, mul-pos,
  mul_assoc, mul-div-mul_left, mod-eq-sub-mul-div, mul_comm,
}
use infinite_streaming_encod.Prelude.{
  ℕ, zero, suc, ◌-◌, ◌*◌, ◌/◌, ◌%◌, ◌<◌, false, ◌≡◌, refl, sym, ap, ◌∙◌, ◌==◌, inl, inr, Bool-cases,
  arith,
}
use infinite_streaming_encod.Prelude.Raises.{returned}
use infinite_streaming_encod.Padding.{gcd_from, gcd, lcm}

gcd_from-dvd : (fuel a b : ℕ) → b < fuel → (gcd_from fuel a b ∣ a) × (gcd_from fuel a b ∣ b)
unfolding gcd_from
gcd_from-dvd zero a b h = absurd (omega arith)
gcd_from-dvd (suc fuel) a b h = elim (Bool-cases (b == 0)) [
  | inl e ↦ rw e (let z : b ≡ 0 = ground arith in (dvd_refl a, rw z (dvd-zero a)))
  | inr e ↦
      let r = gcd_from-dvd fuel b (a % b) (ground arith) in
      rw e ((dvd-mod_iff _ {m = a} {n = b} r.0).0 r.1, r.0)
]

mod-mul : (k a b : ℕ) → 0 < k → k * a % (k * b) ≡ k * (a % b)
mod-mul k a b p =
    mod-eq-sub-mul-div (k * a) (k * b)
    ∙ ap (λ q. k * a - k * b * q) (mul-div-mul_left a b p)
    ∙ ap (λ t. k * a - t) (mul_assoc k b (a / b))
    ∙ sym (mul-sub k a (b * (a / b)))
    ∙ ap (λ t. k * t) (sym (mod-eq-sub-mul-div a b))

gcd_from-mul : (k fuel a b : ℕ) → 0 < k → gcd_from fuel (k * a) (k * b) ≡ k * gcd_from fuel a b
unfolding gcd_from
gcd_from-mul k zero a b p = refl
gcd_from-mul k (suc fuel) a b p = elim (Bool-cases (b == 0)) [
  | inl e ↦ let z : b ≡ 0 = ground arith in rw z (ground arith)
  | inr e ↦
      let n : (k * b == 0) ≡ false =
        let q = mul-pos {m = k} {n = b} p (ground arith) in ground arith in
      rw (n, e, mod-mul k a b p) (gcd_from-mul k fuel b (a % b) p)
]

dvd-gcd_from : (d fuel a b : ℕ) → d ∣ a → d ∣ b → d ∣ gcd_from fuel a b
unfolding gcd_from
dvd-gcd_from d zero a b p q = p
dvd-gcd_from d (suc fuel) a b p q = elim (Bool-cases (b == 0)) [
  | inl e ↦ rw e p
  | inr e ↦ rw e (dvd-gcd_from d fuel b (a % b) q ((dvd-mod_iff d q).1 p))
]

gcd-dvd : (a b : ℕ) → (gcd a b ∣ a) × (gcd a b ∣ b)
unfolding gcd
gcd-dvd a b = gcd_from-dvd (suc b) a b (omega arith)

gcd-mul : (k a b : ℕ) → 0 < k → k * gcd a b ≡ gcd_from (suc b) (k * a) (k * b)
unfolding gcd
gcd-mul k a b p = sym (gcd_from-mul k (suc b) a b p)

lcm-returned : (a b : ℕ) → 0 < a → (0 < gcd a b) × (lcm a b ≡ returned (a * (b / gcd a b)))
unfolding lcm
lcm-returned a b p =
    let q = pos_of_dvd_of_pos (gcd-dvd a b).0 p in
    let n : (gcd a b == 0) ≡ false = ground arith in
    (q, rw n (ap returned (mul-div_assoc (gcd a b) a (gcd-dvd a b).1)))

product_comm : (a b : ℕ) → a * (b / gcd a b) ≡ b * (a / gcd a b)
product_comm a b =
    sym (mul-div_assoc (gcd a b) a (gcd-dvd a b).1)
    ∙ ap (λ t. t / gcd a b) (mul_comm a b)
    ∙ mul-div_assoc (gcd a b) b (gcd-dvd a b).0

common : (a b m : ℕ) → 0 < a → a ∣ m → b ∣ m → 0 < m → a * (b / gcd a b) ∣ m
common a b m p q r pos =
    let g = gcd a b in
    let c : a * b ∣ gcd_from (suc b) (m * a) (m * b) =
      dvd-gcd_from (a * b) (suc b) (m * a) (m * b) (rw (mul_comm a b) (mul-dvd-mul_right b r a))
        (mul-dvd-mul_right a q b) in
    let d : a * b ∣ m * g = rw (gcd-mul m a b pos) c in
    let whole : g * (a * (b / g)) ≡ a * b =
      sym (mul_assoc g a (b / g))
      ∙ ap (λ t. t * (b / g)) (mul_comm g a)
      ∙ mul_assoc a g (b / g)
      ∙ ap (λ t. a * t) (mul-div_cancel' g (gcd-dvd a b).1) in
    let e : g * (a * (b / g)) ∣ g * m = rw (whole, mul_comm g m) d in
    dvd_of_mul-dvd-mul_left {k = g} (a * (b / g)) ((lcm-returned a b p).0) e

quotient_pos : (g b : ℕ) → 0 < b → g ∣ b → 0 < b / g
quotient_pos g b q d =
    let e : (b / g) * g ≡ b = div-mul_cancel g d in
    pos_of_dvd_of_pos (dvd-mul_right (b / g) g) (rw e q)

-- The least common multiple of two positive numbers, as a condition on the number.
abbrev pub IsLcm : ℕ → ℕ → ℕ → Type 0
IsLcm a b l = (a ∣ l) × (b ∣ l) × ((m : ℕ) → 0 < m → a ∣ m → b ∣ m → l ∣ m)

pub lcm-IsLcm : (a b : ℕ) → 0 < a → 0 < b → (l : ℕ) × (lcm a b ≡ returned l) × (0 < l) × IsLcm a b l
lcm-IsLcm a b p q = (
  a * (b / gcd a b),
  (lcm-returned a b p).1,
  mul-pos {m = a} {n = b / gcd a b} p (quotient_pos (gcd a b) b q (gcd-dvd a b).1),
  (
    dvd-mul_right a (b / gcd a b),
    rw (product_comm a b) (dvd-mul_right b (a / gcd a b)),
    λ m pos u v. common a b m p u v pos,
  ),
)

-- A duration of zero makes the least common multiple zero.
pub lcm_zero_right : (a : ℕ) → 0 < a → lcm a 0 ≡ returned 0
lcm_zero_right a p =
    (lcm-returned a 0 p).1 ∙ ap returned (ap (λ q. a * q) (zero-div (gcd a 0)) ∙ omega arith)

pub lcm_zero_left : (b : ℕ) → 0 < b → lcm 0 b ≡ returned 0
unfolding lcm
lcm_zero_left b p =
    let q = pos_of_dvd_of_pos (gcd-dvd 0 b).1 p in
    let n : (gcd 0 b == 0) ≡ false = ground arith in
    rw n (ap returned (ap (λ t. t / gcd 0 b) (omega arith) ∙ zero-div (gcd 0 b)))
