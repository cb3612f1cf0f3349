-- ===== src/Groups.antt =====
-- scripts/infinite_streaming_encoder/cli_local_dist.py, _plan_groups: the bands of rungs that
-- share one decode. A band's megapixels are counted in pixels, and so is the budget.
pub mod Bands
use infinite_streaming_encod.Prelude.{
  ℕ, ◌+◌, ◌*◌, Bool, true, false, ◌&&◌, not, none, some, List, [], ◌∷◌, ◌++◌, ltb, leb,
  if◌then◌else◌, map, keep_if, length,
}
use infinite_streaming_encod.Prelude.Text.{Text}
use infinite_streaming_encod.Prelude.Dict.{find, assign}
use infinite_streaming_encod.Prelude.Sorting.{sort_by}
use infinite_streaming_encod.Ladder.{Rung}

-- `_GROUP_MAX_HEIGHT`.
abbrev pub group_max_height : ℕ
group_max_height = 1080

abbrev pub pixels : Rung → ℕ
pixels r = r.width * r.height

abbrev pub smaller : Rung → Rung → Bool
smaller r s = leb (pixels r) (pixels s)

unfoldable pub eligible : ℕ → List Rung → List Rung
eligible max_height rungs = sort_by smaller (keep_if (λ r. leb r.height max_height) rungs)

-- `_label_pixels`: the dict and the lookup of a label in it.
unfoldable pub pixels_by_label : List (Text × ℕ) → List Rung → List (Text × ℕ)
pixels_by_label px [] = px
pixels_by_label px (r ∷ rungs) = pixels_by_label (assign r.label (pixels r) px) rungs

unfoldable pub label_pixels : List Rung → Text → ℕ
label_pixels rungs label = elim (find label (pixels_by_label [] rungs)) [
  | none ↦ 0
  | some area ↦ area
]

abbrev pub has_some {ℓ} : {A : Type ℓ} → List A → Bool
has_some [] = false
has_some (x ∷ xs) = true

-- The loop over the eligible rungs, with `bands`, `cur` and `used`, and the last band after it.
unfoldable pub fill : ℕ → List (List Text) → List Text → ℕ → List Rung → List (List Text)
fill budget bands cur used [] = if has_some cur then bands ++ cur ∷ [] else bands
fill budget bands cur used (r ∷ rungs) = elim (has_some cur && ltb budget (used + pixels r)) [
  | true ↦ fill budget (bands ++ cur ∷ []) (r.label ∷ []) (pixels r) rungs
  | false ↦ fill budget bands (cur ++ r.label ∷ []) (used + pixels r) rungs
]

abbrev pub heavier : (Text → ℕ) → Text → Text → Bool
heavier area a b = leb (area b) (area a)

-- The bands of one codec: those of more than one member, heaviest first inside.
unfoldable pub codec_groups : ℕ → ℕ → List Rung → List (List Text)
codec_groups budget max_height rungs =
    map (sort_by (heavier (label_pixels rungs)))
      (keep_if (λ band. ltb 1 (length band)) (fill budget [] [] 0 (eligible max_height rungs)))

unfoldable pub group_codecs : ℕ → ℕ → List (Text × List Rung) → List (Text × List (List Text))
group_codecs budget max_height [] = []
group_codecs budget max_height ((codec, rungs) ∷ rest) =
    let later = group_codecs budget max_height rest in
    let groups = codec_groups budget max_height rungs in
    if has_some groups then (codec, groups) ∷ later else later

unfoldable pub plan_groups : List (Text × List Rung) → ℕ → ℕ → List (Text × List (List Text))
plan_groups rungs_by_codec budget max_height =
    if leb budget 0 then [] else group_codecs budget max_height rungs_by_codec
