-- ===== src/Padding.antt =====
-- scripts/infinite_streaming_encoder/padding.py and gop.py: the boundary that the streams are
-- padded to, the padding, and the frames per keyframe interval. All durations are in milliseconds.
pub mod Divisors
pub mod Boundary
use infinite_streaming_encod.Prelude.{
  ℕ, zero, suc, ◌+◌, ◌-◌, ◌*◌, ◌/◌, ◌%◌, max, Bool, true, false, ◌||◌, Option, none, some, leb,
  ◌==◌, if◌then◌else◌,
}
use infinite_streaming_encod.Prelude.Rounding.{round_div}
use infinite_streaming_encod.Prelude.Raises.{Raises, raised, returned, ◌>>=◌}

pub data NumberError : Type 0 where
  zero_division : NumberError
  non_positive_fps : NumberError

-- `PADDING_THRESHOLD_S`.
abbrev pub padding_threshold : ℕ
padding_threshold = 500

pub record PaddingPlan : Type 0 where
  pub video_pad : ℕ
  pub audio_pad : ℕ
  pub boundary : ℕ

-- `math.gcd`, by Euclid's algorithm: fuel above the second number is enough.
unfoldable pub gcd_from : ℕ → ℕ → ℕ → ℕ
gcd_from zero a b = a
gcd_from (suc fuel) a b = let rest = gcd_from fuel b (a % b) in if b == 0 then a else rest

unfoldable pub gcd : ℕ → ℕ → ℕ
gcd a b = gcd_from (suc b) a b

unfoldable pub lcm : ℕ → ℕ → Raises NumberError ℕ
lcm a b = if gcd a b == 0 then raised zero_division else returned (a * b / gcd a b)

unfoldable pub multi_duration_lcm : ℕ → ℕ → ℕ → Raises NumberError ℕ
multi_duration_lcm segment partial gop = do result ← lcm segment partial; lcm result gop

unfoldable pub pad_to : ℕ → ℕ → ℕ → Raises NumberError ℕ
pad_to boundary threshold d =
    if d == 0
    then returned 0
    else if boundary == 0
    then raised zero_division
    else if (d % boundary == 0) || leb (d % boundary) threshold
    then returned 0
    else returned (boundary - d % boundary)

-- No audio stream is padded by nothing.
unfoldable pub pad_audio : ℕ → ℕ → Option ℕ → Raises NumberError ℕ
pad_audio boundary threshold none = returned 0
pad_audio boundary threshold (some d) = pad_to boundary threshold d

unfoldable pub plan_padding : ℕ → Option ℕ → ℕ → ℕ → Raises NumberError PaddingPlan
plan_padding video audio boundary threshold = do
  video_pad ← pad_to boundary threshold video
  audio_pad ← pad_audio boundary threshold audio
  returned (record { video_pad = video_pad; audio_pad = audio_pad; boundary = boundary })

-- `gop.keyint` of the frame rate `num / den`; the product is exact here.
unfoldable pub keyint : ℕ → ℕ → ℕ → Raises NumberError ℕ
keyint num den gop_duration =
    if num == 0
    then raised non_positive_fps
    else returned (max 1 (round_div (num * gop_duration) (den * 1000)))
