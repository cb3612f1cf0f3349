-- ===== src/Tests/Padding.antt =====
-- padding.py and gop.py at the default profile: 6 s segments, 0.2 s parts and a 1 s interval.
use Prim.Native.Nat.{◌∣◌}
use infinite_streaming_encod.Prelude.{ℕ, ◌<◌, none, some, ◌≡◌, refl, arith}
use infinite_streaming_encod.Prelude.Raises.{raised, returned}
use infinite_streaming_encod.Padding.{
  PaddingPlan, gcd, gcd_from, lcm, multi_duration_lcm, plan_padding, zero_division,
}
use infinite_streaming_encod.Padding.Boundary.{
  IsPad, IsAudioPad, multi_duration_lcm-least, plan_padding-IsPad, plan_padding-no_parts,
}

boundary_of_default : multi_duration_lcm 6000 200 1000 ≡ returned 6000
unfolding multi_duration_lcm lcm gcd gcd_from
boundary_of_default = refl

multi_duration_lcm-least_example :
    (boundary : ℕ) × (multi_duration_lcm 4000 200 1500 ≡ returned boundary)
    × (0 < boundary)
    × (4000 ∣ boundary)
    × (200 ∣ boundary)
    × (1500 ∣ boundary)
    × ((m : ℕ) → 0 < m → 4000 ∣ m → 200 ∣ m → 1500 ∣ m → boundary ∣ m)
multi_duration_lcm-least_example =
    multi_duration_lcm-least 4000 200 1500 (omega arith) (omega arith) (omega arith)

plan_padding-IsPad_example :
    (plan : PaddingPlan) × (plan_padding 100_300 (some 99_100) 6000 500 ≡ returned plan)
    × IsPad 6000 500 100_300 (plan.video_pad)
    × IsAudioPad 6000 500 (some 99_100) (plan.audio_pad)
plan_padding-IsPad_example = plan_padding-IsPad 100_300 (some 99_100) 6000 500 (omega arith)

plan_padding-no_parts_example :
    (multi_duration_lcm 6000 0 6000 ≡ returned 0)
    × (plan_padding 100_300 none 0 500 ≡ raised zero_division)
plan_padding-no_parts_example =
    plan_padding-no_parts 6000 6000 100_300 500 none (omega arith) (omega arith) (omega arith)
