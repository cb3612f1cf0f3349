-- ===== src/Tests/Groups.antt =====
-- _plan_groups at a ladder of four rungs.
use mathlib.Core.List.{Perm}
use infinite_streaming_encod.Prelude.{◌≡◌, refl, List, [], ◌∷◌, none, keep_if, leb}
use infinite_streaming_encod.Prelude.Text.{codes, text_eq, decimal, decimal_from, is_empty}
use infinite_streaming_encod.Prelude.Dict.{find, assign}
use infinite_streaming_encod.Prelude.Sorting.{Sorted, sort_by, insert}
use infinite_streaming_encod.Ladder.{
  Rung, listed, build_rungs, label_rows, count_in, count_rows, bump, res_name_for_height,
  normalize_rung_row, make_rung, burnin_for_height, first_anchor, preset_or_medium,
}
use infinite_streaming_encod.Groups.{
  eligible, smaller, fill, codec_groups, label_pixels, group_codecs, pixels_by_label, plan_groups,
  group_max_height,
}
use infinite_streaming_encod.Groups.Bands.{Bands, Groups, eligible-Bands, codec_groups-Groups}

abbrev rungs : List Rung
rungs = build_rungs (
    listed 416 234 145 none
    ∷ listed 640 360 365 none
    ∷ listed 960 540 2000 none
    ∷ listed 3840 2160 9000 none
    ∷ [])

-- 97,344 and 230,400 pixels share a band of 400,000, and 518,400 pixels are left alone.
groups_of_small :
    plan_groups ((codes "h264", rungs) ∷ []) 400_000 group_max_height
    ≡ (codes "h264", (codes "360p" ∷ codes "234p" ∷ []) ∷ []) ∷ []
unfolding plan_groups group_codecs codec_groups fill eligible sort_by build_rungs label_rows
    count_in find count_rows bump assign text_eq res_name_for_height decimal normalize_rung_row
    make_rung label_pixels pixels_by_label burnin_for_height first_anchor preset_or_medium insert
    decimal_from is_empty
groups_of_small = refl

eligible-Bands_example :
    Perm (eligible group_max_height rungs) (keep_if (λ r. leb r.height group_max_height) rungs)
    × Sorted smaller (eligible group_max_height rungs)
    × Bands 400_000
        (eligible group_max_height rungs)
        (fill 400_000 [] [] 0 (eligible group_max_height rungs))
eligible-Bands_example = eligible-Bands 400_000 group_max_height rungs

codec_groups-Groups_example :
    Groups
      (label_pixels rungs)
      (fill 400_000 [] [] 0 (eligible group_max_height rungs))
      (codec_groups 400_000 group_max_height rungs)
codec_groups-Groups_example = codec_groups-Groups 400_000 group_max_height rungs
