-- ===== src/Resume/Selection.antt =====
-- resume.py, resolve_codec_selection: the mode that is driven has every codec that it needs.
use infinite_streaming_encod.Prelude.{
  true, false, none, some, List, [], ◌∷◌, ◌≡◌, ◌⊎◌, refl, sym, ap, ◌∙◌, inl, inr, if◌then◌else◌,
  if_false, All, Bool-cases, Option-cases,
}
use infinite_streaming_encod.Prelude.Text.{Text, codes, text_eq, text_eq_iff}
use mathlib.Core.Bool.{true≢false}
use infinite_streaming_encod.Prelude.Dict.{find}
use infinite_streaming_encod.Prelude.Raises.{raised, returned}
use infinite_streaming_encod.Resume.{
  ResumeInventory, is_nil, unknown_selection, missing_codecs, supported_codecs, has, has_all,
  required_codecs, check_requested, auto_select, codecs_of, resolve_codec_selection,
}

-- The mode is known, and every codec that it needs is present.
abbrev pub IsServed : List Text → Text → Type 0
IsServed present mode =
    (required : List Text) × (find mode required_codecs ≡ some required)
    × (has_all present required ≡ true)

-- A request is answered with the mode itself, where every codec that it needs is present, and
-- otherwise with an error: the mode is unknown, or a codec that it needs is not present.
pub check_requested-cases :
    (present : List Text) (requested : Text)
    → ((check_requested present requested ≡ returned requested) × IsServed present requested)
      ⊎ ((check_requested present requested ≡ raised unknown_selection)
          × (find requested required_codecs ≡ none))
      ⊎ ((check_requested present requested ≡ raised missing_codecs)
          × ((required : List Text) × (find requested required_codecs ≡ some required)
              × (has_all present required ≡ false)))
unfolding check_requested
check_requested-cases present requested = elim (Option-cases (find requested required_codecs)) [
  | inl e ↦ inr (inl (rw (e, check_requested) refl, e))
  | inr (required, e) ↦ elim (Bool-cases (has_all present required)) [
    | inl f ↦ inl (
      ap
            (λ o. elim o [
              | none ↦ raised unknown_selection
              | some r ↦ if has_all present r then returned requested else raised missing_codecs
            ])
            e
          ∙ rw f refl,
      (required, e, f),
    )
    | inr f ↦ inr (
        inr (
          ap
                (λ o. elim o [
                  | none ↦ raised unknown_selection
                  | some r ↦ if has_all present r then returned requested else raised missing_codecs
                ])
                e
              ∙ rw f refl,
          (required, e, f),
        ))
  ]
]

single :
    (present : List Text) (codec : Text)
    → has present codec ≡ true
    → has_all present (codec ∷ []) ≡ true
unfolding has_all
single present codec h = rw h refl

-- Without a request: a mode whose codecs are all present, or no supported codec is.
auto_select-cases :
    (present : List Text)
    → ((mode : Text) × (auto_select present ≡ returned mode) × IsServed present mode)
      ⊎ All (λ codec. has present codec ≡ false) supported_codecs
unfolding auto_select find text_eq
auto_select-cases present =
    elim (Bool-cases (has_all present (codes "hevc" ∷ codes "h264" ∷ codes "av1" ∷ []))) [
      | inl a ↦ inl (codes "all", rw a refl, (_, refl, a))
      | inr a ↦ elim (Bool-cases (has_all present (codes "hevc" ∷ codes "h264" ∷ []))) [
        | inl b ↦ inl (codes "both", rw (a, b) refl, (_, refl, b))
        | inr b ↦ elim (Bool-cases (has present (codes "hevc"))) [
          | inl c ↦ inl (codes "hevc", rw (a, b, c) refl, (_, refl, single present _ c))
          | inr c ↦ elim (Bool-cases (has present (codes "h264"))) [
            | inl d ↦ inl (codes "h264", rw (a, b, c, d) refl, (_, refl, single present _ d))
            | inr d ↦ elim (Bool-cases (has present (codes "av1"))) [
              | inl f ↦ inl (codes "av1", rw (a, b, c, d, f) refl, (_, refl, single present _ f))
              | inr f ↦ inr (c, (d, (f, tt)))
            ]
          ]
        ]
      ]
    ]

has-cons :
    (codec c : Text) (codecs : List Text)
    → has (codec ∷ codecs) c ≡ true
    → (codec ≡ c) ⊎ (has codecs c ≡ true)
unfolding has
has-cons codec c codecs h = elim (Bool-cases (text_eq codec c)) [
  | inl e ↦ inl ((text_eq_iff codec c).0 e)
  | inr e ↦ inr (sym (if_false _ _ e) ∙ h)
]

none_supported :
    (c : Text) (present codecs : List Text)
    → has present c ≡ true
    → All (λ codec. has present codec ≡ false) codecs
    → has codecs c ≡ true
    → ⊥
unfolding has
none_supported c present [] p h s = true≢false (sym s)
none_supported c present (codec ∷ codecs) p (h, k) s = elim (has-cons codec c codecs s) [
  | inl e ↦ true≢false (sym p ∙ ap (has present) (sym e) ∙ h)
  | inr t ↦ none_supported c present codecs p k t
]

auto_select-IsServed :
    (inventory : ResumeInventory)
    → ((mode : Text) × (auto_select (codecs_of inventory) ≡ returned mode)
        × IsServed (codecs_of inventory) mode)
    → is_nil (codecs_of inventory) ≡ false
    → (mode : Text) × (resolve_codec_selection inventory none ≡ returned mode)
      × IsServed (codecs_of inventory) mode
unfolding resolve_codec_selection
auto_select-IsServed inventory (mode, e, served) n = (mode, if_false _ _ n ∙ e, served)

has-is_nil :
    (present : List Text) (codec : Text) → has present codec ≡ true → is_nil present ≡ false
unfolding has
has-is_nil [] codec h = absurd (true≢false (sym h))
has-is_nil (c ∷ present) codec h = refl

-- Without a request, an inventory that has a supported codec is given a mode, and every codec that
-- the mode needs is in the inventory: the last error of the function is never raised.
pub resolve_codec_selection-IsServed :
    (inventory : ResumeInventory) (codec : Text)
    → has (codecs_of inventory) codec ≡ true
    → has supported_codecs codec ≡ true
    → (mode : Text) × (resolve_codec_selection inventory none ≡ returned mode)
      × IsServed (codecs_of inventory) mode
resolve_codec_selection-IsServed inventory codec h s =
    elim (auto_select-cases (codecs_of inventory)) [
      | inl served ↦
          auto_select-IsServed inventory served (has-is_nil (codecs_of inventory) codec h)
      | inr missed ↦ absurd (none_supported codec (codecs_of inventory) supported_codecs h missed s)
    ]
