-- ===== src/Tests/Ladder.antt =====
-- Runs of the ladder at concrete data: a repeated resolution, a band, a store.
use infinite_streaming_encod.Prelude.{
  ℕ, true, false, none, some, List, [], ◌∷◌, ◌≡◌, ◌↔◌, refl, map, keep_if, All,
}
use infinite_streaming_encod.Prelude.Text.{Text, codes, decimal, last_is, text_eq}
use infinite_streaming_encod.Prelude.Dict.{assign, find}
use infinite_streaming_encod.Prelude.Json.{Json, null, number, object, Fields, entries}
use infinite_streaming_encod.Prelude.Raises.{raised, returned}
use infinite_streaming_encod.Ladder.{
  Rung, RungRow, build_rungs, bump, count_in, count_rows, is_tier, label_rows, listed, make_rung,
  normalize_rung_row, overridden, res_height, res_name_for_height, select_rungs,
}
use infinite_streaming_encod.Ladder.Seeds.{seed_netflix_av1}
use infinite_streaming_encod.Ladder.Distinct.{Distinct, build_rungs-Distinct}
use infinite_streaming_encod.Ladder.Select.{
  Fits, fits, Readable, build_rungs-Readable, select_rungs-exact,
}
use infinite_streaming_encod.Ladder.Store.{
  Ladders, StoreFile, parsed, stored_items, get_ladder, ladder_error, latest, or_else,
  get_ladder-found,
}

abbrev apple_rows : List RungRow
apple_rows =
    listed 768 432 730 none
    ∷ listed 768 432 1100 none
    ∷ listed 960 540 2000 none
    ∷ listed 1920 1080 7800 (some (codes "slow"))
    ∷ []

apple_labels :
    map (λ r. Rung.label r) (build_rungs apple_rows)
    ≡ codes "432p_1" ∷ codes "432p_2" ∷ codes "540p" ∷ codes "1080p" ∷ []
unfolding build_rungs label_rows count_in find count_rows bump assign text_eq res_name_for_height
    decimal normalize_rung_row make_rung
apple_labels = refl

-- A built-in ladder whose resolutions differ: each label is the resolution itself.
netflix_labels :
    map (λ r. Rung.label r) (build_rungs seed_netflix_av1)
    ≡ map (λ r. Rung.res_name r) (build_rungs seed_netflix_av1)
unfolding build_rungs label_rows count_in find count_rows bump assign text_eq res_name_for_height
    decimal normalize_rung_row make_rung
netflix_labels = refl

build_rungs-Distinct_example : Distinct (build_rungs apple_rows)
build_rungs-Distinct_example = build_rungs-Distinct apple_rows

build_rungs-Readable_example : All Readable (build_rungs apple_rows)
build_rungs-Readable_example = build_rungs-Readable apple_rows

abbrev override : List (Text × ℕ)
override = (codes "432p", 800) ∷ []

select_rungs-exact_example :
    (select_rungs apple_rows (some (codes "540p")) 1280 override none
      ≡ map (overridden override) (
          keep_if
            (fits (res_height (some (codes "540p"))) (res_height none) 1280)
            (build_rungs apple_rows)))
    × ((rung : Rung)
        → (fits (res_height (some (codes "540p"))) (res_height none) 1280 rung ≡ true)
          ↔ Fits (res_height (some (codes "540p"))) (res_height none) 1280 rung)
select_rungs-exact_example = select_rungs-exact apple_rows (some (codes "540p")) none 1280 override

uhd_is_no_tier : is_tier (codes "4K") ≡ false
unfolding is_tier last_is
uhd_is_no_tier = refl

-- One user ladder in the store, which replaces a built-in one.
abbrev user_ladder : Json
user_ladder = object (
    Fields.field (codes "codecs") (object (Fields.field (codes "av1") null Fields.close))
      Fields.close)

abbrev store : Json
store = object (
    Fields.field (codes "ladders") (object (Fields.field (codes "mine") user_ladder Fields.close))
      Fields.close)

abbrev seeds : Ladders
seeds = (codes "mine", null) ∷ (codes "apple", number 1) ∷ []

abbrev file : Text → StoreFile
file path = parsed store

store_items : stored_items store ≡ returned ((codes "mine", user_ladder) ∷ [])
unfolding stored_items entries find text_eq
store_items = refl

get_ladder-found_example :
    get_ladder seeds file (some (codes "ladders.json")) (codes "apple")
    ≡ elim (or_else
        (latest (codes "apple") ((codes "mine", user_ladder) ∷ []))
        (find (codes "apple") seeds)) [
          | none ↦ raised ladder_error
          | some definition ↦ returned definition
        ]
get_ladder-found_example =
    get_ladder-found seeds file (codes "ladders.json") (codes "apple") store
      ((codes "mine", user_ladder) ∷ []) refl store_items
