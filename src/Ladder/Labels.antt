-- ===== src/Ladder/Labels.antt =====
-- ladder.py: the labels of rungs. A label is the height in digits, the letter p, and for a
-- repeated height an underscore and an ordinal.
use infinite_streaming_encod.Prelude.{
  ℕ, true, false, none, some, [], ◌∷◌, ◌++◌, ◌≡◌, ◌≢◌, refl, sym, ap, ap₂, ◌∙◌, inl, inr,
  Bool-cases, All, All-append, List, arith,
}
use mathlib.Core.List.{append_assoc}
use infinite_streaming_encod.Prelude.Text.{
  Text, decimal, decimal-injective, decimal-digits, value_from-decimal, IsDigit, all_digits,
  all_digits_of, Free, digits-Free, digits-Solid, Solid, strip-Solid, is_digit, text_eq, text_eq→eq,
  is_space, before-Free, before-append, strip_end-append, strip_end-Free, without_last-append,
  last_is-append, is_empty-append, is_empty-decimal, strip_end, is_empty, without_last, last_is,
}
use infinite_streaming_encod.Prelude.Dict.{find}
use mathlib.Core.Bool.{true≢false}
use infinite_streaming_encod.Ladder.{
  res_name_for_height, numbered_label, label_res_name, label_height, res_height, is_tier,
  tier_height, max_res_height,
}

split_at :
    (c : ℕ) (x y s t : Text)
    → All IsDigit x
    → All IsDigit y
    → ¬ (IsDigit c)
    → x ++ c ∷ s ≡ y ++ c ∷ t
    → (x ≡ y) × (s ≡ t)
split_at c [] [] s t h k n e = (refl, cc)
split_at c [] (d ∷ y) s t h k n e = let c≡d : c ≡ d = cc in absurd (n (rw c≡d k.0))
split_at c (d ∷ x) [] s t h k n e = let d≡c : d ≡ c = cc in absurd (n (rw (← d≡c) h.0))
split_at c (d ∷ x) (f ∷ y) s t h k n e =
    let d≡f : d ≡ f = cc in
    let e1 : x ++ c ∷ s ≡ y ++ c ∷ t = cc in
    let r = split_at c x y s t h.1 k.1 n e1 in (ap₂ (λ a b. a ∷ b) d≡f r.0, r.1)

append_letter : (x y : Text) (c : ℕ) (s : Text) → (x ++ c ∷ []) ++ s ≡ x ++ c ∷ s
append_letter x y c s = append_assoc x (c ∷ []) s

tail_eq : {c : ℕ} {s t : Text} → c ∷ s ≡ c ∷ t → s ≡ t
tail_eq e = cc

-- Two numbered labels are equal only where their heights and their ordinals are.
pub numbered_label-injective :
    (h k i j : ℕ)
    → numbered_label (res_name_for_height h) i ≡ numbered_label (res_name_for_height k) j
    → (h ≡ k) × (i ≡ j)
unfolding res_name_for_height
numbered_label-injective h k i j e =
    let e1 : decimal h ++ b'p' ∷ b'_' ∷ decimal i ≡ decimal k ++ b'p' ∷ b'_' ∷ decimal j =
      sym (append_assoc (decimal h) (b'p' ∷ []) _) ∙ e ∙ append_assoc (decimal k) (b'p' ∷ []) _ in
    let r =
      split_at b'p' _ _ _ _ (decimal-digits h) (decimal-digits k) (λ d. absurd (omega arith)) e1 in
    (decimal-injective h k r.0, decimal-injective i j (tail_eq r.1))

pub res_name_for_height-injective :
    (h k : ℕ) → res_name_for_height h ≡ res_name_for_height k → h ≡ k
unfolding res_name_for_height
res_name_for_height-injective h k e =
    let r =
      split_at b'p' (decimal h) (decimal k) [] [] (decimal-digits h) (decimal-digits k)
        (λ d. absurd (omega arith)) e in
    decimal-injective h k r.0

-- A numbered label is not a plain one.
pub numbered_label-plain :
    (h k i : ℕ) → numbered_label (res_name_for_height h) i ≢ res_name_for_height k
unfolding res_name_for_height
numbered_label-plain h k i e =
    let e1 : decimal h ++ b'p' ∷ b'_' ∷ decimal i ≡ decimal k ++ b'p' ∷ [] =
      sym (append_assoc (decimal h) (b'p' ∷ []) _) ∙ e in
    let r =
      split_at b'p' (decimal h) (decimal k) (b'_' ∷ decimal i) [] (decimal-digits h)
        (decimal-digits k) (λ d. absurd (omega arith)) e1 in
    let last : b'_' ∷ decimal i ≡ [] = r.1 in cc

pub res_name-Free : (h : ℕ) → Free b'_' (res_name_for_height h)
unfolding res_name_for_height
res_name-Free h =
    All-append _ (decimal h) (b'p' ∷ []) (digits-Free b'_' _ (omega arith) (decimal-digits h))
      (ground arith)

-- The part of a label in front of the underscore is the resolution it was made from.
pub label_res_name-numbered :
    (h i : ℕ) → label_res_name (numbered_label (res_name_for_height h) i) ≡ res_name_for_height h
unfolding label_res_name
label_res_name-numbered h i = before-append b'_' _ (decimal i) (res_name-Free h)

pub label_res_name-plain : (h : ℕ) → label_res_name (res_name_for_height h) ≡ res_name_for_height h
unfolding label_res_name
label_res_name-plain h = before-Free b'_' _ (res_name-Free h)

height_digits : (h : ℕ) → strip_end b'p' (res_name_for_height h) ≡ decimal h
unfolding res_name_for_height
height_digits h =
    strip_end-append b'p' (decimal h)
    ∙ strip_end-Free b'p' (decimal h) (digits-Free b'p' _ (omega arith) (decimal-digits h))

-- The height is read back from a label whose resolution is that of the height.
pub label_height-of :
    (label : Text) (h : ℕ)
    → label_res_name label ≡ res_name_for_height h
    → label_height label ≡ some h
unfolding label_height
label_height-of label h e =
    rw
      (
        e,
        height_digits h,
        is_empty-decimal h,
        all_digits_of (decimal h) (decimal-digits h),
        value_from-decimal h,
      )
      refl

res_name-Solid : (h : ℕ) → Solid (res_name_for_height h)
unfolding res_name_for_height is_space
res_name-Solid h =
    All-append _ (decimal h) (b'p' ∷ []) (digits-Solid _ (decimal-digits h)) (ground arith)

-- A bound that is written as the resolution of a height is read as that height.
pub res_height-res_name_for_height : (h : ℕ) → res_height (some (res_name_for_height h)) ≡ some h
unfolding res_height tier_height is_tier
res_height-res_name_for_height h = rw (strip-Solid _ (res_name-Solid h)) (
    unfold res_name_for_height in
    rw
      (
        is_empty-append (decimal h) b'p',
        last_is-append (decimal h) b'p',
        without_last-append (decimal h) b'p',
        is_empty-decimal h,
        all_digits_of (decimal h) (decimal-digits h),
        value_from-decimal h,
      )
      refl)

find-tierless :
    (n : Text) (d : List (Text × ℕ))
    → All (λ entry. is_tier (entry.0) ≡ true) d
    → is_tier n ≡ false
    → find n d ≡ none
unfolding find
find-tierless n [] h e = refl
find-tierless n ((k, v) ∷ d) h e = elim (Bool-cases (text_eq k n)) [
  | inl t ↦ absurd (true≢false (sym h.0 ∙ ap is_tier (text_eq→eq k n t) ∙ e))
  | inr t ↦ rw t (find-tierless n d h.1 e)
]

-- A name that is not digits followed by the letter p has no height: every name of the fallback
-- table has that form, so the table is never the one that answers.
pub tier_height-fallback : (n : Text) → is_tier n ≡ false → tier_height n ≡ none
unfolding tier_height is_tier is_empty without_last last_is all_digits is_digit
tier_height-fallback n e =
    rw e (find-tierless n max_res_height ((refl, (refl, (refl, (refl, (refl, (refl, tt))))))) e)
