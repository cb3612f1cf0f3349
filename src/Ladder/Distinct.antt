-- ===== src/Ladder/Distinct.antt =====
-- ladder.py, build_rungs: every rung of a codec has a label of its own.
use infinite_streaming_encod.Prelude.{
  ℕ, suc, ◌+◌, ◌≤◌, ◌<◌, true, false, none, some, List, [], ◌∷◌, ◌≡◌, ◌≢◌, ◌⊎◌, inl, inr, refl, sym,
  ap, ◌∙◌, ltb, ltb→ge, if◌then◌else◌, map, All, Bool-cases, arith,
}
use infinite_streaming_encod.Prelude.Text.{Text, text_eq, text_eq_iff, text_eq_refl}
use infinite_streaming_encod.Prelude.Dict.{find-assign}
use infinite_streaming_encod.Ladder.{
  Row, Rung, RungRow, Counts, res_name_for_height, numbered_label, count_in, bump, count_rows,
  make_rung, label_rows, build_rungs, normalize_rung_row,
}
use infinite_streaming_encod.Ladder.Labels.{numbered_label-injective, numbered_label-plain}

pub count_in-bump :
    (j k : Text) (d : Counts)
    → count_in j (bump k d) ≡ (if text_eq k j then count_in k d + 1 else count_in j d)
unfolding count_in bump
count_in-bump j k d =
    ap (λ o. elim o [ none ↦ 0 | some n ↦ n ]) (find-assign j k (count_in k d + 1) d)
    ∙ elim (Bool-cases (text_eq k j)) [ inl e ↦ rw e refl | inr e ↦ rw e refl ]

count_in-bump_le : (j k : Text) (d : Counts) → count_in j d ≤ count_in j (bump k d)
count_in-bump_le j k d = rw (count_in-bump j k d) (ground (arith, text_eq_iff k j))

count_in-bump_self : (k : Text) (d : Counts) → count_in k (bump k d) ≡ count_in k d + 1
count_in-bump_self k d = rw (count_in-bump k k d, text_eq_refl k) refl

-- How many of the rows have a resolution.
unfoldable occurrences : Text → List Row → ℕ
occurrences rn [] = 0
occurrences rn (row ∷ rows) =
    let rest = occurrences rn rows in
    if text_eq (res_name_for_height row.height) rn then suc rest else rest

count_in-count_rows :
    (rn : Text) (d : Counts) (rows : List Row)
    → count_in rn (count_rows d rows) ≡ count_in rn d + occurrences rn rows
unfolding count_rows occurrences
count_in-count_rows rn d [] = omega arith
count_in-count_rows rn d (row ∷ rows) =
    rw
      (
        count_in-count_rows rn (bump (res_name_for_height row.height) d) rows,
        count_in-bump rn (res_name_for_height row.height) d,
      )
      (ground (arith, text_eq_iff (res_name_for_height row.height) rn))

-- The label of a rung that is made from `rows`, with the ordinals of `idx` already given: it is
-- numbered above them, or it is the resolution of one of the rows.
abbrev Emitted : Counts → List Row → Text → Type 0
Emitted idx rows label =
    ((h : ℕ) × (j : ℕ) × (label ≡ numbered_label (res_name_for_height h) j)
      × (count_in (res_name_for_height h) idx < j))
    ⊎ ((h : ℕ) × (label ≡ res_name_for_height h) × (1 ≤ occurrences (res_name_for_height h) rows))

occurrences-later :
    (rn : Text) (row : Row) (rows : List Row) → occurrences rn rows ≤ occurrences rn (row ∷ rows)
unfolding occurrences
occurrences-later rn row rows = ground arith

Emitted-later :
    (idx : Counts) (row : Row) (rows : List Row) (label : Text)
    → Emitted idx rows label
    → Emitted idx (row ∷ rows) label
Emitted-later idx row rows label (inl w) = inl w
Emitted-later idx row rows label (inr (h, e, o)) =
    inr (h, e, omega (arith, occurrences-later (res_name_for_height h) row rows, o))

Emitted-bump :
    (rn : Text) (idx : Counts) (rows : List Row) (label : Text)
    → Emitted (bump rn idx) rows label
    → Emitted idx rows label
Emitted-bump rn idx rows label (inl (h, j, e, o)) =
    inl (h, j, e, omega (arith, o, count_in-bump_le (res_name_for_height h) rn idx))
Emitted-bump rn idx rows label (inr w) = inr w

All-Emitted-later :
    (idx : Counts) (row : Row) (rows : List Row) (rungs : List Rung)
    → All (λ r. Emitted idx rows (r.label)) rungs
    → All (λ r. Emitted idx (row ∷ rows) (r.label)) rungs
All-Emitted-later idx row rows [] h = tt
All-Emitted-later idx row rows (r ∷ rungs) (w, h) =
    (Emitted-later idx row rows (r.label) w, All-Emitted-later idx row rows rungs h)

All-Emitted-bump :
    (rn : Text) (idx : Counts) (rows : List Row) (rungs : List Rung)
    → All (λ r. Emitted (bump rn idx) rows (r.label)) rungs
    → All (λ r. Emitted idx rows (r.label)) rungs
All-Emitted-bump rn idx rows [] h = tt
All-Emitted-bump rn idx rows (r ∷ rungs) (w, h) =
    (Emitted-bump rn idx rows (r.label) w, All-Emitted-bump rn idx rows rungs h)

occurrences-here :
    (row : Row) (rows : List Row)
    → occurrences (res_name_for_height row.height) (row ∷ rows)
      ≡ suc (occurrences (res_name_for_height row.height) rows)
unfolding occurrences
occurrences-here row rows = rw (text_eq_refl (res_name_for_height row.height)) refl

abbrev pub name_of : Row → Text
name_of row = res_name_for_height row.height

pub label_rows-repeated :
    (counts idx : Counts) (row : Row) (rows : List Row)
    → ltb 1 (count_in (name_of row) counts) ≡ true
    → label_rows counts idx (row ∷ rows)
      ≡ make_rung row
          (numbered_label (name_of row) (count_in (name_of row) (bump (name_of row) idx)))
        ∷ label_rows counts (bump (name_of row) idx) rows
unfolding label_rows
label_rows-repeated counts idx row rows e = rw (e, label_rows) refl

pub label_rows-single :
    (counts idx : Counts) (row : Row) (rows : List Row)
    → ltb 1 (count_in (name_of row) counts) ≡ false
    → label_rows counts idx (row ∷ rows) ≡ make_rung row (name_of row) ∷ label_rows counts idx rows
unfolding label_rows
label_rows-single counts idx row rows e = rw (e, label_rows) refl

label_rows-Emitted :
    (counts idx : Counts) (rows : List Row)
    → All (λ r. Emitted idx rows (r.label)) (label_rows counts idx rows)
unfolding make_rung
label_rows-Emitted counts idx [] = unfold label_rows in tt
label_rows-Emitted counts idx (row ∷ rows) =
    elim (Bool-cases (ltb 1 (count_in (name_of row) counts))) [
      | inl e ↦ rw (label_rows-repeated counts idx row rows e) (
        inl (row.height, _, refl, omega (arith, count_in-bump_self (name_of row) idx)),
        All-Emitted-later idx row rows _ (
            All-Emitted-bump (name_of row) idx rows _
              (label_rows-Emitted counts (bump (name_of row) idx) rows)),
      )
      | inr e ↦ rw (label_rows-single counts idx row rows e) (
        inr (row.height, refl, omega (arith, occurrences-here row rows)),
        All-Emitted-later idx row rows _ (label_rows-Emitted counts idx rows),
      )
    ]

-- No two of the rungs have the same label.
abbrev pub Distinct : List Rung → Type 0
Distinct [] = Unit
Distinct (r ∷ rungs) = All (λ s. r.label ≢ s.label) rungs × Distinct rungs

-- A label that was given is not one of the later ones.
numbered-Fresh :
    (h i : ℕ) (idx : Counts) (rows : List Row) (rungs : List Rung)
    → i ≤ count_in (res_name_for_height h) idx
    → All (λ r. Emitted idx rows (r.label)) rungs
    → All (λ s. numbered_label (res_name_for_height h) i ≢ s.label) rungs
numbered-Fresh h i idx rows [] l w = tt
numbered-Fresh h i idx rows (r ∷ rungs) l (inl (k, j, e, o), w) = (
  λ f.
      let p = numbered_label-injective h k i j (f ∙ e) in
      let o2 : count_in (res_name_for_height h) idx < j = rw (p.0) o in
      absurd (omega (arith, l, o2, p.1)),
  numbered-Fresh h i idx rows rungs l w,
)
numbered-Fresh h i idx rows (r ∷ rungs) l (inr (k, e, o), w) =
    (λ f. numbered_label-plain h k i (f ∙ e), numbered-Fresh h i idx rows rungs l w)

plain-Fresh :
    (h : ℕ) (idx : Counts) (rows : List Row) (rungs : List Rung)
    → occurrences (res_name_for_height h) rows ≡ 0
    → All (λ r. Emitted idx rows (r.label)) rungs
    → All (λ s. res_name_for_height h ≢ s.label) rungs
plain-Fresh h idx rows [] l w = tt
plain-Fresh h idx rows (r ∷ rungs) l (inl (k, j, e, o), w) =
    (λ f. numbered_label-plain k h j (sym e ∙ sym f), plain-Fresh h idx rows rungs l w)
plain-Fresh h idx rows (r ∷ rungs) l (inr (k, e, o), w) = (
  λ f.
      let o2 : 1 ≤ occurrences (res_name_for_height h) rows = rw (f ∙ e) o in
      absurd (omega (arith, l, o2)),
  plain-Fresh h idx rows rungs l w,
)

-- Every resolution is counted at least as often as the rows that are left have it.
abbrev Counted : Counts → List Row → Type 0
Counted counts rows = (rn : Text) → occurrences rn rows ≤ count_in rn counts

label_rows-Distinct :
    (counts idx : Counts) (rows : List Row)
    → Counted counts rows
    → Distinct (label_rows counts idx rows)
label_rows-Distinct counts idx [] c = unfold label_rows in tt
label_rows-Distinct counts idx (row ∷ rows) c =
    let later : Counted counts rows = λ rn. omega (arith, c rn, occurrences-later rn row rows) in
    elim (Bool-cases (ltb 1 (count_in (name_of row) counts))) [
      | inl e ↦ rw (label_rows-repeated counts idx row rows e) (
        unfold make_rung in
            numbered-Fresh row.height _ (bump (name_of row) idx) rows _ (omega arith)
              (label_rows-Emitted counts (bump (name_of row) idx) rows),
        label_rows-Distinct counts (bump (name_of row) idx) rows later,
      )
      | inr e ↦ rw (label_rows-single counts idx row rows e) (
        unfold make_rung in
            plain-Fresh row.height idx rows _
              (omega (
                arith,
                c (name_of row),
                occurrences-here row rows,
                ltb→ge 1 (count_in (name_of row) counts) e,
              ))
              (label_rows-Emitted counts idx rows),
        label_rows-Distinct counts idx rows later,
      )
    ]

-- No two rungs of a codec have the same label, whatever rows the ladder lists and however often
-- a resolution is repeated.
pub build_rungs-Distinct : (raw : List RungRow) → Distinct (build_rungs raw)
unfolding build_rungs
build_rungs-Distinct raw =
    label_rows-Distinct _ [] _
      (λ rn. omega (arith, count_in-count_rows rn [] (map normalize_rung_row raw)))
