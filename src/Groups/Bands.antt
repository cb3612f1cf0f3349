-- ===== src/Groups/Bands.antt =====
-- _plan_groups: how the eligible rungs are cut into bands.
use mathlib.Core.List.{append_assoc, append-nil, Perm}
use infinite_streaming_encod.Prelude.{
  ℕ, ◌+◌, ◌≤◌, ◌<◌, true, false, ◌&&◌, List, [], ◌∷◌, ◌++◌, ◌≡◌, ◌⊎◌, inl, inr, refl, sym, ap, ap₂,
  ◌∙◌, ltb, leb, ltb→lt, ltb→ge, leb→le, leb→gt, le→leb, map, keep_if, length, Bool-cases, arith,
}
use infinite_streaming_encod.Prelude.Text.{Text}
use infinite_streaming_encod.Prelude.Sorting.{sort_by, sort_by-Perm, sort_by-Sorted, Sorted}
use infinite_streaming_encod.Ladder.{Rung}
use infinite_streaming_encod.Groups.{
  pixels, smaller, eligible, label_pixels, has_some, fill, heavier, codec_groups,
}

abbrev pub weight : List Rung → ℕ
weight [] = 0
weight (r ∷ rungs) = pixels r + weight rungs

weight-append : (xs ys : List Rung) → weight (xs ++ ys) ≡ weight xs + weight ys
weight-append [] ys = omega arith
weight-append (r ∷ xs) ys = omega (arith, weight-append xs ys)

abbrev pub labels : List Rung → List Text
labels rungs = map (λ r. Rung.label r) rungs

-- Cuts a list of rungs into bands: each is not empty, is within the budget or is one rung alone,
-- and has no room for the first rung after it.
pub data Bands (budget : ℕ) : List Rung → List (List Text) → Type 0 where
  none_left : Bands budget [] []
  last_band :
      (r : Rung) (band : List Rung)
      → (weight (r ∷ band) ≤ budget) ⊎ (band ≡ [])
      → Bands budget (r ∷ band) (labels (r ∷ band) ∷ [])
  next_band :
      (r : Rung) (band : List Rung) (s : Rung) (rest : List Rung) (bands : List (List Text))
      → (weight (r ∷ band) ≤ budget) ⊎ (band ≡ [])
      → budget < weight (r ∷ band) + pixels s
      → Bands budget (s ∷ rest) bands
      → Bands budget ((r ∷ band) ++ s ∷ rest) (labels (r ∷ band) ∷ bands)

labels-append : (xs ys : List Rung) → labels (xs ++ ys) ≡ labels xs ++ labels ys
labels-append [] ys = refl
labels-append (r ∷ xs) ys = ap (λ l. Rung.label r ∷ l) (labels-append xs ys)

fill-close :
    (budget : ℕ) (bands : List (List Text)) (cur : List Text) (used : ℕ) (r : Rung)
    (rungs : List Rung)
    → has_some cur && ltb budget (used + pixels r) ≡ true
    → fill budget bands cur used (r ∷ rungs)
      ≡ fill budget (bands ++ cur ∷ []) (r.label ∷ []) (pixels r) rungs
unfolding fill
fill-close budget bands cur used r rungs e = rw (e, fill) refl

fill-grow :
    (budget : ℕ) (bands : List (List Text)) (cur : List Text) (used : ℕ) (r : Rung)
    (rungs : List Rung)
    → has_some cur && ltb budget (used + pixels r) ≡ false
    → fill budget bands cur used (r ∷ rungs)
      ≡ fill budget bands (cur ++ r.label ∷ []) (used + pixels r) rungs
unfolding fill
fill-grow budget bands cur used r rungs e = rw (e, fill) refl

fill-Bands :
    (budget : ℕ) (r : Rung) (band rest : List Rung) (bands : List (List Text))
    → (weight (r ∷ band) ≤ budget) ⊎ (band ≡ [])
    → (later : List (List Text)) × (fill budget bands (labels (r ∷ band)) (weight (r ∷ band)) rest
        ≡ bands ++ later)
      × Bands budget ((r ∷ band) ++ rest) later
fill-Bands budget r band [] bands w =
    (labels (r ∷ band) ∷ [], unfold fill in refl, rw (append-nil band) (last_band r band w))
fill-Bands budget r band (s ∷ rest) bands w =
    elim (Bool-cases (ltb budget (weight (r ∷ band) + pixels s))) [
      | inl e ↦
          let (later, f, b) =
            fill-Bands budget s [] rest (bands ++ labels (r ∷ band) ∷ []) (inr refl) in
          (
            labels (r ∷ band) ∷ later,
            fill-close budget bands (labels (r ∷ band)) (weight (r ∷ band)) s rest e
                ∙ ap (λ u. fill budget (bands ++ labels (r ∷ band) ∷ []) (s.label ∷ []) u rest)
                    (omega arith)
                ∙ f
                ∙ append_assoc bands (labels (r ∷ band) ∷ []) later,
            next_band r band s rest later w (ltb→lt budget _ e) b,
          )
      | inr e ↦
          let (later, f, b) =
            fill-Bands budget r (band ++ s ∷ []) rest bands
              (inl (omega (arith, ltb→ge budget _ e, weight-append band (s ∷ [])))) in
          (
            later,
            fill-grow budget bands (labels (r ∷ band)) (weight (r ∷ band)) s rest e
                ∙ ap₂ (λ l u. fill budget bands l u rest) (sym (labels-append (r ∷ band) (s ∷ [])))
                    (omega (arith, weight-append (r ∷ band) (s ∷ [])))
                ∙ f,
            rw (← append_assoc band (s ∷ []) rest) b,
          )
    ]

fill_all-Bands : (budget : ℕ) (rungs : List Rung) → Bands budget rungs (fill budget [] [] 0 rungs)
fill_all-Bands budget [] = unfold fill in none_left
fill_all-Bands budget (r ∷ rest) =
    let (later, f, b) = fill-Bands budget r [] rest [] (inr refl) in
    let first : fill budget [] [] 0 (r ∷ rest) ≡ later =
      fill-grow budget [] [] 0 r rest refl
      ∙ ap (λ u. fill budget [] (r.label ∷ []) u rest) (omega arith)
      ∙ f in
    rw first b

smaller_total : (r s : Rung) → smaller r s ≡ false → smaller s r ≡ true
smaller_total r s e = le→leb (pixels s) (pixels r) (omega (arith, leb→gt (pixels r) (pixels s) e))

smaller_trans : (r s t : Rung) → smaller r s ≡ true → smaller s t ≡ true → smaller r t ≡ true
smaller_trans r s t e f =
    le→leb (pixels r) (pixels t)
      (omega (arith, leb→le (pixels r) (pixels s) e, leb→le (pixels s) (pixels t) f))

-- The rungs of a codec that are not above the height, smallest first, are cut into bands: each
-- rung is in one band, a band is within the budget or is one rung alone, and a band is closed
-- only where the next rung does not fit in it.
pub eligible-Bands :
    (budget max_height : ℕ) (rungs : List Rung)
    → Perm (eligible max_height rungs) (keep_if (λ r. leb r.height max_height) rungs)
      × Sorted smaller (eligible max_height rungs)
      × Bands budget (eligible max_height rungs) (fill budget [] [] 0 (eligible max_height rungs))
unfolding eligible
eligible-Bands budget max_height rungs = (
  sort_by-Perm smaller _,
  sort_by-Sorted smaller smaller_total smaller_trans _,
  fill_all-Bands budget _,
)

heavier_total : (area : Text → ℕ) (a b : Text) → heavier area a b ≡ false → heavier area b a ≡ true
heavier_total area a b e = le→leb (area a) (area b) (omega (arith, leb→gt (area b) (area a) e))

heavier_trans :
    (area : Text → ℕ) (a b c : Text)
    → heavier area a b ≡ true
    → heavier area b c ≡ true
    → heavier area a c ≡ true
heavier_trans area a b c e f =
    le→leb (area c) (area a) (omega (arith, leb→le (area b) (area a) e, leb→le (area c) (area b) f))

-- A group has two members or more, is a rearrangement of one of the bands, and its first member
-- is the heaviest.
abbrev pub Groups : (Text → ℕ) → List (List Text) → List (List Text) → Type 0
Groups area [] groups = groups ≡ []
Groups area (band ∷ bands) groups =
    ((length band ≤ 1) × Groups area bands groups)
    ⊎ ((group : List Text) × (rest : List (List Text)) × (groups ≡ group ∷ rest)
        × (1 < length band)
        × Perm group band
        × Sorted (heavier area) group
        × Groups area bands rest)

Groups-of :
    (area : Text → ℕ) (bands : List (List Text))
    → Groups area bands (map (sort_by (heavier area)) (keep_if (λ band. ltb 1 (length band)) bands))
Groups-of area [] = refl
Groups-of area (band ∷ bands) = elim (Bool-cases (ltb 1 (length band))) [
  | inl e ↦ inr (
    sort_by (heavier area) band,
    _,
    rw e refl,
    ltb→lt 1 (length band) e,
    sort_by-Perm (heavier area) band,
    sort_by-Sorted (heavier area) (heavier_total area) (heavier_trans area) band,
    Groups-of area bands,
  )
  | inr e ↦ rw e (inl (ltb→ge 1 (length band) e, Groups-of area bands))
]

-- The groups of a codec are its bands of two members or more, in order, each with its heaviest
-- member first: no band of one rung is a group, and no other band is lost.
pub codec_groups-Groups :
    (budget max_height : ℕ) (rungs : List Rung)
    → Groups
        (label_pixels rungs)
        (fill budget [] [] 0 (eligible max_height rungs))
        (codec_groups budget max_height rungs)
unfolding codec_groups
codec_groups-Groups budget max_height rungs = Groups-of (label_pixels rungs) _
