-- ===== src/Ladder/Seeds.antt =====
-- ladder.py: the built-in ladders. The descriptions are left out, and so are the VBV buffers, which
-- are fractions; a duration is the text that the source has.
use infinite_streaming_encod.Prelude.{ℕ, Option, none, some, List, [], ◌∷◌, ◌++◌}
use infinite_streaming_encod.Prelude.Text.{Text, codes}
use infinite_streaming_encod.Ladder.{RungRow, listed}

abbrev pub seed_legacy_h264 : List RungRow
seed_legacy_h264 =
    listed 640 360 600 none
    ∷ listed 960 540 1722 none
    ∷ listed 1280 720 2779 none
    ∷ listed 1920 1080 6957 none
    ∷ listed 2560 1440 16995 none
    ∷ listed 3840 2160 26453 none
    ∷ []

abbrev pub seed_legacy_hevc : List RungRow
seed_legacy_hevc =
    listed 640 360 300 none
    ∷ listed 960 540 1001 none
    ∷ listed 1280 720 1662 none
    ∷ listed 1920 1080 4273 none
    ∷ listed 2560 1440 10547 none
    ∷ listed 3840 2160 16458 none
    ∷ []

abbrev pub seed_apple_h264 : List RungRow
seed_apple_h264 =
    listed 416 234 145 none
    ∷ listed 640 360 365 none
    ∷ listed 768 432 730 none
    ∷ listed 768 432 1100 none
    ∷ listed 960 540 2000 none
    ∷ listed 1280 720 3000 none
    ∷ listed 1280 720 4500 none
    ∷ listed 1920 1080 6000 none
    ∷ listed 1920 1080 7800 none
    ∷ []

abbrev pub seed_apple_hevc : List RungRow
seed_apple_hevc =
    listed 640 360 145 none
    ∷ listed 768 432 300 none
    ∷ listed 960 540 600 none
    ∷ listed 960 540 900 none
    ∷ listed 960 540 1600 none
    ∷ listed 1280 720 2400 none
    ∷ listed 1280 720 3400 none
    ∷ listed 1920 1080 4500 none
    ∷ listed 1920 1080 5800 none
    ∷ listed 2560 1440 8100 none
    ∷ listed 3840 2160 11600 none
    ∷ listed 3840 2160 16800 none
    ∷ []

abbrev pub seed_apple_h264_uniq : List RungRow
seed_apple_h264_uniq =
    listed 416 234 145 none
    ∷ listed 640 360 365 none
    ∷ listed 704 396 730 none
    ∷ listed 768 432 1100 none
    ∷ listed 960 540 2000 none
    ∷ listed 1056 594 3000 none
    ∷ listed 1280 720 4500 none
    ∷ listed 1696 954 6000 none
    ∷ listed 1920 1080 7800 none
    ∷ []

abbrev pub seed_apple_hevc_uniq : List RungRow
seed_apple_hevc_uniq =
    listed 640 360 145 none
    ∷ listed 768 432 300 none
    ∷ listed 832 468 600 none
    ∷ listed 896 504 900 none
    ∷ listed 960 540 1600 none
    ∷ listed 1056 594 2400 none
    ∷ listed 1280 720 3400 none
    ∷ listed 1696 954 4500 none
    ∷ listed 1920 1080 5800 none
    ∷ listed 2560 1440 8100 none
    ∷ listed 3200 1800 11600 none
    ∷ listed 3840 2160 16800 none
    ∷ []

abbrev pub seed_apple_h264_uniq_full : List RungRow
seed_apple_h264_uniq_full =
    seed_apple_h264_uniq
    ++ (listed 2560 1440 13500 none
        ∷ listed 3200 1800 19000 none
        ∷ listed 3840 2160 27000 none
        ∷ [])

abbrev pub seed_netflix_av1 : List RungRow
seed_netflix_av1 =
    listed 576 324 63 none
    ∷ listed 608 342 97 none
    ∷ listed 768 432 152 none
    ∷ listed 960 540 209 none
    ∷ listed 1280 720 322 none
    ∷ listed 1888 1062 543 none
    ∷ listed 1920 1080 1020 none
    ∷ listed 3840 2160 1962 none
    ∷ []

abbrev pub seed_netflix_dv_hevc : List RungRow
seed_netflix_dv_hevc =
    listed 608 342 111 none
    ∷ listed 768 432 113 none
    ∷ listed 960 540 138 none
    ∷ listed 1280 720 232 none
    ∷ listed 1920 1080 351 none
    ∷ listed 2560 1440 528 none
    ∷ listed 3712 2088 778 none
    ∷ listed 3744 2106 1154 none
    ∷ listed 3776 2124 4213 none
    ∷ listed 3808 2142 8366 none
    ∷ listed 3840 2160 11846 none
    ∷ []

pub record SeedLadder : Type 0 where
  pub maxrate_percent : Option ℕ
  pub segment_duration : Option Text
  pub partial_duration : Option Text
  pub gop_duration : Option Text
  pub output_tag : Option Text
  pub codecs_of_seed : List (Text × List RungRow)

abbrev pub seed_ladders : List (Text × SeedLadder)
seed_ladders =
    (
      codes "apple",
      record {
        maxrate_percent = none;
        segment_duration = none;
        partial_duration = none;
        gop_duration = none;
        output_tag = none;
        codecs_of_seed =
            (codes "h264", seed_apple_h264)
            ∷ (codes "hevc", seed_apple_hevc)
            ∷ (codes "av1", seed_apple_hevc)
            ∷ [];
      },
    )
    ∷ (
      codes "apple-uniq",
      record {
        maxrate_percent = none;
        segment_duration = none;
        partial_duration = none;
        gop_duration = none;
        output_tag = none;
        codecs_of_seed =
            (codes "h264", seed_apple_h264_uniq)
            ∷ (codes "hevc", seed_apple_hevc_uniq)
            ∷ (codes "av1", seed_apple_hevc_uniq)
            ∷ [];
      },
    )
    ∷ (
      codes "apple-uniq-live-xs",
      record {
        maxrate_percent = some 100;
        segment_duration = none;
        partial_duration = some (codes "0.2");
        gop_duration = some (codes "1.0");
        output_tag = none;
        codecs_of_seed =
            (codes "h264", seed_apple_h264_uniq_full)
            ∷ (codes "hevc", seed_apple_hevc_uniq)
            ∷ (codes "av1", seed_apple_hevc_uniq)
            ∷ [];
      },
    )
    ∷ (
      codes "apple-uniq-live-1s",
      record {
        maxrate_percent = some 100;
        segment_duration = some (codes "1");
        partial_duration = some (codes "0.2");
        gop_duration = some (codes "1");
        output_tag = none;
        codecs_of_seed =
            (codes "h264", seed_apple_h264_uniq_full)
            ∷ (codes "hevc", seed_apple_hevc_uniq)
            ∷ (codes "av1", seed_apple_hevc_uniq)
            ∷ [];
      },
    )
    ∷ (
      codes "apple-uniq-live-2s",
      record {
        maxrate_percent = some 110;
        segment_duration = some (codes "2");
        partial_duration = some (codes "0.2");
        gop_duration = some (codes "2");
        output_tag = none;
        codecs_of_seed =
            (codes "h264", seed_apple_h264_uniq_full)
            ∷ (codes "hevc", seed_apple_hevc_uniq)
            ∷ (codes "av1", seed_apple_hevc_uniq)
            ∷ [];
      },
    )
    ∷ (
      codes "apple-uniq-live-6s",
      record {
        maxrate_percent = some 110;
        segment_duration = some (codes "6");
        partial_duration = some (codes "0.2");
        gop_duration = some (codes "6");
        output_tag = none;
        codecs_of_seed =
            (codes "h264", seed_apple_h264_uniq_full)
            ∷ (codes "hevc", seed_apple_hevc_uniq)
            ∷ (codes "av1", seed_apple_hevc_uniq)
            ∷ [];
      },
    )
    ∷ (
      codes "apple-uniq-vod",
      record {
        maxrate_percent = some 200;
        segment_duration = some (codes "6");
        partial_duration = some (codes "0");
        gop_duration = some (codes "6");
        output_tag = some (codes "vod");
        codecs_of_seed =
            (codes "h264", seed_apple_h264_uniq)
            ∷ (codes "hevc", seed_apple_hevc_uniq)
            ∷ (codes "av1", seed_apple_hevc_uniq)
            ∷ [];
      },
    )
    ∷ (
      codes "netflix-av1",
      record {
        maxrate_percent = some 200;
        segment_duration = some (codes "6");
        partial_duration = some (codes "0.2");
        gop_duration = some (codes "6");
        output_tag = some (codes "nf6s");
        codecs_of_seed = (codes "av1", seed_netflix_av1) ∷ [];
      },
    )
    ∷ (
      codes "netflix-dv-hevc",
      record {
        maxrate_percent = some 200;
        segment_duration = some (codes "6");
        partial_duration = some (codes "0.2");
        gop_duration = some (codes "6");
        output_tag = some (codes "nf6s");
        codecs_of_seed = (codes "hevc", seed_netflix_dv_hevc) ∷ [];
      },
    )
    ∷ []
