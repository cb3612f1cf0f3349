-- ===== src/Ladder.antt =====
-- scripts/infinite_streaming_encoder/ladder.py: the rungs of a bitrate ladder, their labels and
-- burn-in geometry, the selection of the rungs to encode, and the ladder store.
-- A bitrate, a width or a height is a whole number, zero for every number that is not positive.
pub mod Labels
pub mod Distinct
pub mod Select
pub mod Store
pub mod Seeds
use infinite_streaming_encod.Prelude.{
  ℕ, zero, suc, ◌+◌, Bool, true, false, ◌&&◌, not, Option, none, some, List, [], ◌∷◌, ◌++◌, ltb,
  leb, ◌==◌, if◌then◌else◌, map,
}
use infinite_streaming_encod.Prelude.Text.{
  Text, codes, text_eq, decimal, value_from, all_digits, before, strip_end, strip, is_empty,
  without_last, last_is,
}
use infinite_streaming_encod.Prelude.Dict.{find, assign}

-- `(fontsize_tc, fontsize_label, x, y_tc, y_label)`.
pub record Geometry : Type 0 where
  pub fontsize_tc : ℕ
  pub fontsize_label : ℕ
  pub x : ℕ
  pub y_tc : ℕ
  pub y_label : ℕ

pub record Rung : Type 0 where
  pub label : Text
  pub res_name : Text
  pub width : ℕ
  pub height : ℕ
  pub bitrate : ℕ
  pub preset : Text
  pub burnin : Geometry

abbrev pub geometry : ℕ → ℕ → ℕ → ℕ → ℕ → Geometry
geometry tc lb x ytc ylb = record {
  fontsize_tc = tc;
  fontsize_label = lb;
  x = x;
  y_tc = ytc;
  y_label = ylb;
}

-- `_BURNIN_ANCHORS`: all but the last, and the last.
abbrev pub burnin_anchors : List (ℕ × Geometry)
burnin_anchors =
    (234, geometry 16 12 8 8 24)
    ∷ (360, geometry 20 16 10 10 30)
    ∷ (432, geometry 22 18 10 10 32)
    ∷ (540, geometry 24 20 10 10 34)
    ∷ (720, geometry 28 24 10 10 38)
    ∷ (1080, geometry 36 32 10 10 45)
    ∷ (1440, geometry 42 36 10 10 52)
    ∷ (2160, geometry 54 48 10 10 64)
    ∷ []

abbrev pub last_anchor : Geometry
last_anchor = geometry 54 48 10 10 64

unfoldable pub first_anchor : ℕ → List (ℕ × Geometry) → Geometry
first_anchor height [] = last_anchor
first_anchor height ((anchor, params) ∷ rest) =
    if leb height anchor then params else first_anchor height rest

unfoldable pub burnin_for_height : ℕ → Geometry
burnin_for_height height = first_anchor height burnin_anchors

unfoldable pub res_name_for_height : ℕ → Text
res_name_for_height height = decimal height ++ b'p' ∷ []

-- `_MAX_RES_HEIGHT`.
abbrev pub max_res_height : List (Text × ℕ)
max_res_height =
    (codes "360p", 360)
    ∷ (codes "540p", 540)
    ∷ (codes "720p", 720)
    ∷ (codes "1080p", 1080)
    ∷ (codes "1440p", 1440)
    ∷ (codes "2160p", 2160)
    ∷ []

-- `n.endswith("p") and n[:-1].isdigit()`: `isdigit` is false of the empty text.
unfoldable pub is_tier : Text → Bool
is_tier n = last_is b'p' n && not (is_empty (without_last n)) && all_digits (without_last n)

unfoldable pub tier_height : Text → Option ℕ
tier_height n = if is_tier n then some (value_from 0 (without_last n)) else find n max_res_height

unfoldable pub res_height : Option Text → Option ℕ
res_height none = none
res_height (some name) = if is_empty name then none else tier_height (strip name)

-- `label.split("_", 1)[0]`.
unfoldable pub label_res_name : Text → Text
label_res_name label = before b'_' label

-- `int(…)` of a text of digits; another text raises, which is `none`.
unfoldable pub label_height : Text → Option ℕ
label_height label =
    let digits = strip_end b'p' (label_res_name label) in
    if not (is_empty digits) && all_digits digits then some (value_from 0 digits) else none

-- A rung as it is written: a list of three or four, or a dict.
pub data RungRow : Type 0 where
  listed : ℕ → ℕ → ℕ → Option Text → RungRow
  keyed : ℕ → ℕ → ℕ → Option Text → RungRow

pub record Row : Type 0 where
  pub width : ℕ
  pub height : ℕ
  pub bitrate : ℕ
  pub preset : Text

-- `preset or "medium"`.
unfoldable pub preset_or_medium : Option Text → Text
preset_or_medium none = codes "medium"
preset_or_medium (some preset) = if is_empty preset then codes "medium" else preset

unfoldable pub normalize_rung_row : RungRow → Row
normalize_rung_row (listed w h b preset) = record {
  width = w;
  height = h;
  bitrate = b;
  preset = preset_or_medium preset;
}
normalize_rung_row (keyed w h b preset) = record {
  width = w;
  height = h;
  bitrate = b;
  preset = preset_or_medium preset;
}

abbrev pub Counts : Type 0
Counts = List (Text × ℕ)

-- `d.get(rn, 0)`, and `d[rn] = d.get(rn, 0) + 1`.
unfoldable pub count_in : Text → Counts → ℕ
count_in rn d = elim (find rn d) [ none ↦ 0 | some n ↦ n ]

unfoldable pub bump : Text → Counts → Counts
bump rn d = assign rn (count_in rn d + 1) d

unfoldable pub count_rows : Counts → List Row → Counts
count_rows counts [] = counts
count_rows counts (row ∷ rows) = count_rows (bump (res_name_for_height row.height) counts) rows

unfoldable pub make_rung : Row → Text → Rung
make_rung row label = record {
  label = label;
  res_name = res_name_for_height row.height;
  width = row.width;
  height = row.height;
  bitrate = row.bitrate;
  preset = row.preset;
  burnin = burnin_for_height row.height;
}

-- `f"{rn}_{i}"`.
abbrev pub numbered_label : Text → ℕ → Text
numbered_label rn i = rn ++ b'_' ∷ decimal i

-- The second loop, with the dicts `counts` and `idx`.
unfoldable pub label_rows : Counts → Counts → List Row → List Rung
label_rows counts idx [] = []
label_rows counts idx (row ∷ rows) =
    let rn = res_name_for_height row.height in
    elim (ltb 1 (count_in rn counts)) [
      | true ↦
          make_rung row (numbered_label rn (count_in rn (bump rn idx)))
          ∷ label_rows counts (bump rn idx) rows
      | false ↦ make_rung row rn ∷ label_rows counts idx rows
    ]

-- `build_rungs`, of the rows of one codec; a codec that is missing has no rows.
unfoldable pub build_rungs : List RungRow → List Rung
build_rungs raw = let rows = map normalize_rung_row raw in label_rows (count_rows [] rows) [] rows

-- `override[rung.res_name]`, where it is there.
unfoldable pub overridden : List (Text × ℕ) → Rung → Rung
overridden override rung = elim (find rung.res_name override) [
  | none ↦ rung
  | some kbps ↦ record rung { bitrate = kbps }
]

-- The three tests of the loop that `continue`.
unfoldable pub above : Option ℕ → ℕ → Bool
above none height = false
above (some bound) height = ltb bound height

unfoldable pub below : Option ℕ → ℕ → Bool
below none height = false
below (some bound) height = ltb height bound

unfoldable pub select_from : Option ℕ → Option ℕ → ℕ → List (Text × ℕ) → List Rung → List Rung
select_from max_h min_h source_width override [] = []
select_from max_h min_h source_width override (rung ∷ rungs) =
    let rest = select_from max_h min_h source_width override rungs in
    if ltb 0 source_width && ltb source_width rung.width
    then rest
    else if above max_h rung.height
    then rest
    else if below min_h rung.height
    then rest
    else overridden override rung ∷ rest

unfoldable pub select_rungs :
    List RungRow → Option Text → ℕ → List (Text × ℕ) → Option Text → List Rung
select_rungs raw max_res source_width override min_res =
    select_from (res_height max_res) (res_height min_res) source_width override (build_rungs raw)
