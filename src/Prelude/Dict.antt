-- ===== src/Prelude/Dict.antt =====
-- Python's `dict` with text keys, in insertion order: `d.get(k)` and `d[k] = v`.
use mathlib.Core.Path.{◌≡◌, refl, sym, ap, ◌∙◌, subst}
use mathlib.Core.Logic.{inl, inr}
use mathlib.Core.Option.{Option, none, some}
use mathlib.Core.List.{List, [], ◌∷◌}
use native.Mathlib.Omega.{arith}
use infinite_streaming_encod.Prelude.Bools.{if◌then◌else◌, Bool-cases}
use infinite_streaming_encod.Prelude.Lists.{All}
use infinite_streaming_encod.Prelude.Text.{Text, text_eq, text_eq_iff, text_eq_refl}

module _ {ℓ} {V : Type ℓ} where
  unfoldable pub find : Text → List (Text × V) → Option V
  find key [] = none
  find key ((k, v) ∷ rest) = if text_eq k key then some v else find key rest

  unfoldable pub assign : Text → V → List (Text × V) → List (Text × V)
  assign key v [] = (key, v) ∷ []
  assign key v ((k, w) ∷ rest) =
      if text_eq k key then (key, v) ∷ rest else (k, w) ∷ assign key v rest

  pub find-assign :
      (j k : Text) (v : V) (d : List (Text × V))
      → find j (assign k v d) ≡ (if text_eq k j then some v else find j d)
  unfolding find assign
  find-assign j k v [] = refl
  find-assign j k v ((i, w) ∷ d) =
      ground (arith, text_eq_iff k j, text_eq_iff i k, text_eq_iff i j, find-assign j k v d)

  -- No key is there twice.
  abbrev pub IsDict : List (Text × V) → Type ℓ
  IsDict [] = Unit
  IsDict ((k, v) ∷ rest) = (find k rest ≡ none) × IsDict rest

  pub assign-IsDict : (k : Text) (v : V) (d : List (Text × V)) → IsDict d → IsDict (assign k v d)
  unfolding assign
  assign-IsDict k v [] h = (unfold find in refl, tt)
  assign-IsDict k v ((i, w) ∷ d) (n, h) = elim (Bool-cases (text_eq i k)) [
    | inl e ↦ rw e (subst (λ j. find j d ≡ none) ((text_eq_iff i k).0 e) n, h)
    | inr e ↦ rw e (
      find-assign i k v d ∙ ground (arith, text_eq_iff k i, text_eq_iff i k),
      assign-IsDict k v d h,
    )
  ]

  found_later :
      (i : Text) (w : V) (d rest : List (Text × V))
      → find i d ≡ none
      → All (λ x. find x.0 d ≡ some x.1) rest
      → All (λ x. find x.0 ((i, w) ∷ d) ≡ some x.1) rest
  unfolding find
  found_later i w d [] n h = tt
  found_later i w d ((k, v) ∷ rest) n h = elim (Bool-cases (text_eq i k)) [
    | inl e ↦
        let same = ap (λ j. find j d) ((text_eq_iff i k).0 e) in
        let no : none ≡ some v = sym n ∙ same ∙ h.0 in absurd (cc)
    | inr e ↦ rw e (h.0, found_later i w d rest n h.1)
  ]

  -- Each item of a dict is found under its key.
  pub items_found : (d : List (Text × V)) → IsDict d → All (λ x. find x.0 d ≡ some x.1) d
  items_found [] h = tt
  items_found ((k, v) ∷ d) (n, h) =
      (unfold find in rw (text_eq_refl k) refl, found_later k v d d n (items_found d h))
