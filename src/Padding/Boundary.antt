-- ===== src/Padding/Boundary.antt =====
-- padding.py: what the boundary and the padding are, and gop.py: the keyframe interval.
use Prim.Native.Nat.{◌∣◌}
use native.Mathlib.Nat.{dvd_trans, div-add-mod, dvd-mul_right, mod-lt}
use infinite_streaming_encod.Prelude.{
  ℕ, ◌+◌, ◌-◌, ◌*◌, ◌/◌, ◌%◌, ◌≤◌, ◌<◌, max, false, ◌||◌, Option, none, some, ◌≡◌, ◌⊎◌, refl, leb,
  ◌==◌, inl, inr, Bool-cases, arith,
}
use infinite_streaming_encod.Prelude.Rounding.{round_div, round_div_near}
use infinite_streaming_encod.Prelude.Raises.{raised, returned}
use infinite_streaming_encod.Padding.{
  zero_division, PaddingPlan, multi_duration_lcm, pad_to, pad_audio, plan_padding, keyint,
}
use infinite_streaming_encod.Padding.Divisors.{lcm-IsLcm, lcm_zero_left, lcm_zero_right}

-- Of three positive durations the boundary is the smallest one that each divides: it is computed,
-- each divides it, and it divides every positive duration that each divides.
pub multi_duration_lcm-least :
    (segment partial gop : ℕ)
    → 0 < segment
    → 0 < partial
    → 0 < gop
    → (boundary : ℕ) × (multi_duration_lcm segment partial gop ≡ returned boundary)
      × (0 < boundary)
      × (segment ∣ boundary)
      × (partial ∣ boundary)
      × (gop ∣ boundary)
      × ((m : ℕ) → 0 < m → segment ∣ m → partial ∣ m → gop ∣ m → boundary ∣ m)
unfolding multi_duration_lcm
multi_duration_lcm-least segment partial gop p q r =
    let (l, e, pos, (a, b, least)) = lcm-IsLcm segment partial p q in
    let (k, f, kpos, (c, d, most)) = lcm-IsLcm l gop pos r in
    (
      k,
      rw (e, f) refl,
      kpos,
      dvd_trans segment a c,
      dvd_trans partial b c,
      d,
      λ m n u v w. most m n (least m n u v) w,
    )

-- What a stream of length `d` is padded by: nothing, where it is no more than the threshold past
-- a boundary, or what brings it to the next one, which is less than a whole step.
abbrev pub IsPad : ℕ → ℕ → ℕ → ℕ → Type 0
IsPad boundary threshold d pad =
    ((pad ≡ 0) × (d % boundary ≤ threshold))
    ⊎ ((boundary ∣ d + pad) × (pad < boundary) × (threshold < d % boundary))

next_boundary : (boundary d : ℕ) → 0 < boundary → boundary ∣ d + (boundary - d % boundary)
next_boundary boundary d p =
    let e : d + (boundary - d % boundary) ≡ boundary * (d / boundary + 1) =
      omega (arith, div-add-mod d boundary, mod-lt d {m = boundary} p) in
    rw e (dvd-mul_right boundary (d / boundary + 1))

pad_to-IsPad :
    (boundary threshold d : ℕ)
    → 0 < boundary
    → (pad : ℕ) × (pad_to boundary threshold d ≡ returned pad) × IsPad boundary threshold d pad
unfolding pad_to
pad_to-IsPad boundary threshold d p =
    let b : (boundary == 0) ≡ false = ground arith in
    elim (Bool-cases (d == 0)) [
      | inl e ↦ rw e (0, refl, inl (refl, let z : d ≡ 0 = ground arith in rw z (omega arith)))
      | inr e ↦ elim (Bool-cases ((d % boundary == 0) || leb (d % boundary) threshold)) [
        | inl f ↦ rw (e, b, f) (0, refl, inl (refl, ground arith))
        | inr f ↦
            rw (e, b, f)
              (
                boundary - d % boundary,
                refl,
                inr (
                  next_boundary boundary d p,
                  ground (arith, mod-lt d {m = boundary} p),
                  ground arith,
                ),
              )
      ]
    ]

-- Without audio there is nothing to pad.
abbrev pub IsAudioPad : ℕ → ℕ → Option ℕ → ℕ → Type 0
IsAudioPad boundary threshold none pad = pad ≡ 0
IsAudioPad boundary threshold (some d) pad = IsPad boundary threshold d pad

pad_audio-IsAudioPad :
    (boundary threshold : ℕ) (audio : Option ℕ)
    → 0 < boundary
    → (pad : ℕ) × (pad_audio boundary threshold audio ≡ returned pad)
      × IsAudioPad boundary threshold audio pad
unfolding pad_audio
pad_audio-IsAudioPad boundary threshold none p = (0, refl, refl)
pad_audio-IsAudioPad boundary threshold (some d) p = pad_to-IsPad boundary threshold d p

-- With a positive boundary a plan is always made, and it pads the video, and the audio where there
-- is one, to the boundary unless the stream is within the threshold past one. Without audio the
-- audio is padded by nothing.
pub plan_padding-IsPad :
    (video : ℕ) (audio : Option ℕ) (boundary threshold : ℕ)
    → 0 < boundary
    → (plan : PaddingPlan) × (plan_padding video audio boundary threshold ≡ returned plan)
      × IsPad boundary threshold video (plan.video_pad)
      × IsAudioPad boundary threshold audio (plan.audio_pad)
unfolding plan_padding
plan_padding-IsPad video audio boundary threshold p =
    let (v, e, h) = pad_to-IsPad boundary threshold video p in
    let (a, f, k) = pad_audio-IsAudioPad boundary threshold audio p in
    (record { video_pad = v; audio_pad = a; boundary = boundary }, rw (e, f) refl, h, k)

-- Without parts, which is a partial duration of 0, the boundary is 0, and a plan for a video
-- of any length is a division by zero.
pub plan_padding-no_parts :
    (segment gop video threshold : ℕ) (audio : Option ℕ)
    → 0 < segment
    → 0 < gop
    → 0 < video
    → (multi_duration_lcm segment 0 gop ≡ returned 0)
      × (plan_padding video audio 0 threshold ≡ raised zero_division)
unfolding multi_duration_lcm plan_padding pad_to
plan_padding-no_parts segment gop video threshold audio p q r = (
  rw (lcm_zero_right segment p) (lcm_zero_left gop q),
  let v : (video == 0) ≡ false = ground arith in rw v refl,
)

-- Half a frame either way: `frames` steps of `d` and the exact `n`.
abbrev pub IsNear : ℕ → ℕ → ℕ → Type 0
IsNear n d frames =
    (1 ≤ frames) × (2 * n ≤ 2 * (frames * d) + d) × ((frames ≡ 1) ⊎ (2 * (frames * d) ≤ 2 * n + d))

round_div-IsNear : (n d : ℕ) → 0 < d → IsNear n d (max 1 (round_div n d))
round_div-IsNear n d p = elim (Bool-cases (round_div n d == 0)) [
  | inl e ↦
      let z : round_div n d ≡ 0 = ground arith in
      let near = (round_div_near n d p).1 in
      let low : 2 * n ≤ d = let at_zero : 2 * n ≤ 2 * (0 * d) + d = rw (← z) near in omega arith in
      rw z (omega arith, omega arith, inl refl)
  | inr e ↦
      let m : max 1 (round_div n d) ≡ round_div n d = ground arith in
      rw m (ground arith, (round_div_near n d p).1, inr (round_div_near n d p).0)
]

-- At a positive frame rate the keyframe interval is computed and is at least one frame. It is
-- within half a frame of the frame rate times the duration, unless it is the one frame that the
-- interval never falls below.
pub keyint-IsNear :
    (num den gop_duration : ℕ)
    → 0 < num
    → 0 < den
    → (frames : ℕ) × (keyint num den gop_duration ≡ returned frames)
      × IsNear (num * gop_duration) (den * 1000) frames
unfolding keyint
keyint-IsNear num den gop_duration p q =
    let n : (num == 0) ≡ false = ground arith in
    (_, rw n refl, round_div-IsNear (num * gop_duration) (den * 1000) (omega arith))
