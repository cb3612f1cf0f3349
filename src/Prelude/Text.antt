-- ===== src/Prelude/Text.antt =====
-- Python's text as a list of code points, with the built-in functions that the source uses:
-- `str` of a number, `int` and `isdigit` of a text, equality, `startswith`, slices.
use Prim.Native.Nat.{ℕ, zero, suc, ◌+◌, ◌-◌, ◌*◌, ◌/◌, ◌%◌, ◌≤◌, ◌<◌}
use Prim.Native.Char.{code}
use Prim.Native.String.{String}
use mathlib.Core.Path.{subst, ◌≡◌, refl, ap, ◌∙◌, sym}
use mathlib.Core.Logic.{◌↔◌, inl, inr}
use mathlib.Core.Bool.{Bool, true, false, ◌&&◌, ◌||◌}
use mathlib.Core.Option.{Option, none, some}
use mathlib.Core.List.{List, [], ◌∷◌, ◌++◌}
use native.Mathlib.Omega.{arith}
use infinite_streaming_encod.Prelude.Bools.{
  ltb, leb, ◌==◌, if◌then◌else◌, if_true, if_false, Bool-cases, Option-cases,
}
use infinite_streaming_encod.Prelude.Lists.{All, All-append, All-weaken, length, length-append}
use infinite_streaming_encod.Prelude.Slices.{drop}

abbrev pub Text : Type 0
Text = List ℕ

abbrev pub codes : String → Text
codes String.[] = []
codes (String.◌∷◌ c s) = code c ∷ codes s

unfoldable pub text_eq : Text → Text → Bool
text_eq [] [] = true
text_eq [] (d ∷ t) = false
text_eq (c ∷ s) [] = false
text_eq (c ∷ s) (d ∷ t) = c == d && text_eq s t

pub text_eq→eq : (s t : Text) → text_eq s t ≡ true → s ≡ t
unfolding text_eq
text_eq→eq [] [] h = refl
text_eq→eq [] (d ∷ t) h = cc
text_eq→eq (c ∷ s) [] h = cc
text_eq→eq (c ∷ s) (d ∷ t) h = ground (arith, text_eq→eq s t)

pub text_eq_refl : (s : Text) → text_eq s s ≡ true
unfolding text_eq
text_eq_refl [] = refl
text_eq_refl (c ∷ s) = ground (arith, text_eq_refl s)

pub text_eq_iff : (s t : Text) → (text_eq s t ≡ true) ↔ (s ≡ t)
text_eq_iff s t = (text_eq→eq s t, λ e. rw e (text_eq_refl t))

-- `text.startswith(prefix)`.
unfoldable pub starts_with : Text → Text → Bool
starts_with [] text = true
starts_with (c ∷ prefix) [] = false
starts_with (c ∷ prefix) (d ∷ text) = c == d && starts_with prefix text

-- `str.isdigit` of one ASCII character, and of a text.
unfoldable pub is_digit : ℕ → Bool
is_digit c = leb b'0' c && leb c b'9'

unfoldable pub all_digits : Text → Bool
unfolding is_digit
all_digits [] = true
all_digits (c ∷ s) = is_digit c && all_digits s

-- `int` of a text of digits.
unfoldable pub value_from : ℕ → Text → ℕ
value_from n [] = n
value_from n (c ∷ s) = value_from (n * 10 + (c - b'0')) s

-- `str` of a number: fuel above the number is enough.
unfoldable pub decimal_from : ℕ → ℕ → Text
decimal_from zero n = []
decimal_from (suc fuel) n =
    let rest = decimal_from fuel (n / 10) ++ ((b'0' + n % 10) ∷ []) in
    if ltb n 10 then (b'0' + n) ∷ [] else rest

unfoldable pub decimal : ℕ → Text
unfolding decimal_from
decimal n = decimal_from (suc n) n

value_from-append :
    (n : ℕ) (s : Text) (c : ℕ) → value_from n (s ++ c ∷ []) ≡ value_from n s * 10 + (c - b'0')
unfolding value_from
value_from-append n [] c = refl
value_from-append n (d ∷ s) c = value_from-append (n * 10 + (d - b'0')) s c

value_from-decimal_from : (fuel n : ℕ) → n < fuel → value_from 0 (decimal_from fuel n) ≡ n
unfolding decimal_from
value_from-decimal_from zero n h = absurd (omega arith)
value_from-decimal_from (suc fuel) n h = elim (Bool-cases (ltb n 10)) [
  | inl e ↦ rw e (unfold value_from in omega arith)
  | inr e ↦
      rw (e, value_from-append, value_from-decimal_from fuel (n / 10) (ground arith)) (ground arith)
]

-- `int(str(n)) == n`.
pub value_from-decimal : (n : ℕ) → value_from 0 (decimal n) ≡ n
unfolding decimal
value_from-decimal n = value_from-decimal_from (suc n) n (omega arith)

pub decimal-injective : (m n : ℕ) → decimal m ≡ decimal n → m ≡ n
decimal-injective m n e = sym (value_from-decimal m) ∙ ap (value_from 0) e ∙ value_from-decimal n

abbrev pub IsDigit : ℕ → Type 0
IsDigit c = (b'0' ≤ c) × (c ≤ b'9')

decimal_from-digits : (fuel n : ℕ) → All IsDigit (decimal_from fuel n)
unfolding decimal_from
decimal_from-digits zero n = tt
decimal_from-digits (suc fuel) n = elim (Bool-cases (ltb n 10)) [
  | inl e ↦ rw e (ground arith)
  | inr e ↦ rw e (All-append IsDigit _ _ (decimal_from-digits fuel (n / 10)) (omega arith))
]

pub decimal-digits : (n : ℕ) → All IsDigit (decimal n)
unfolding decimal
decimal-digits n = decimal_from-digits (suc n) n

pub all_digits_of : (s : Text) → All IsDigit s → all_digits s ≡ true
unfolding all_digits
all_digits_of [] h = refl
all_digits_of (c ∷ s) (d, h) = ground (arith, all_digits_of s h)

-- White space among the ASCII characters.
unfoldable pub is_space : ℕ → Bool
is_space c = c == b' ' || (leb 9 c && leb c 13) || (leb 28 c && leb c 31)

-- `text.split(c, 1)[0]`.
unfoldable pub before : ℕ → Text → Text
before c [] = []
before c (d ∷ s) = let rest = before c s in if d == c then [] else d ∷ rest

-- `text.rstrip(c)`.
unfoldable pub strip_end : ℕ → Text → Text
strip_end c [] = []
strip_end c (d ∷ s) = elim (strip_end c s) [
  | [] ↦ if d == c then [] else d ∷ []
  | e ∷ rest ↦ d ∷ e ∷ rest
]

unfoldable pub is_empty : Text → Bool
is_empty [] = true
is_empty (c ∷ s) = false

-- `text.lstrip()` and `text.strip()`.
unfoldable pub strip_start : Text → Text
strip_start [] = []
strip_start (c ∷ s) = if is_space c then strip_start s else c ∷ s

unfoldable pub strip_space_end : Text → Text
strip_space_end [] = []
strip_space_end (c ∷ s) = elim (strip_space_end s) [
  | [] ↦ if is_space c then [] else c ∷ []
  | d ∷ rest ↦ c ∷ d ∷ rest
]

unfoldable pub strip : Text → Text
unfolding strip_start strip_space_end
strip s = strip_space_end (strip_start s)

-- `text[:-1]`, and `text.endswith` of one character.
unfoldable pub without_last : Text → Text
without_last [] = []
without_last (c ∷ []) = []
without_last (c ∷ d ∷ s) = c ∷ without_last (d ∷ s)

unfoldable pub last_is : ℕ → Text → Bool
last_is c [] = false
last_is c (d ∷ []) = d == c
last_is c (d ∷ e ∷ s) = last_is c (e ∷ s)

-- The same texts, characters that a function does not remove.
abbrev pub Free : ℕ → Text → Type 0
Free c s = All (λ d. (d == c) ≡ false) s

pub before-Free : (c : ℕ) (s : Text) → Free c s → before c s ≡ s
unfolding before
before-Free c [] h = refl
before-Free c (d ∷ s) h = rw (h.0, before-Free c s h.1) refl

pub before-append : (c : ℕ) (s t : Text) → Free c s → before c (s ++ c ∷ t) ≡ s
unfolding before
before-append c [] t h = ground arith
before-append c (d ∷ s) t h = rw (h.0, before-append c s t h.1) refl

pub strip_end-Free : (c : ℕ) (s : Text) → Free c s → strip_end c s ≡ s
unfolding strip_end
strip_end-Free c [] h = refl
strip_end-Free c (d ∷ []) h = rw (h.0) refl
strip_end-Free c (d ∷ e ∷ s) h = rw (strip_end-Free c (e ∷ s) h.1) refl

pub strip_end-append : (c : ℕ) (s : Text) → strip_end c (s ++ c ∷ []) ≡ strip_end c s
unfolding strip_end
strip_end-append c [] = ground arith
strip_end-append c (d ∷ s) = rw (strip_end-append c s) refl

pub without_last-append : (s : Text) (c : ℕ) → without_last (s ++ c ∷ []) ≡ s
unfolding without_last
without_last-append [] c = refl
without_last-append (d ∷ []) c = refl
without_last-append (d ∷ e ∷ s) c = ap (λ r. d ∷ r) (without_last-append (e ∷ s) c)

pub last_is-append : (s : Text) (c : ℕ) → last_is c (s ++ c ∷ []) ≡ true
unfolding last_is
last_is-append [] c = ground arith
last_is-append (d ∷ []) c = ground arith
last_is-append (d ∷ e ∷ s) c = last_is-append (e ∷ s) c

abbrev pub Solid : Text → Type 0
Solid s = All (λ d. is_space d ≡ false) s

strip_space_end-Solid : (s : Text) → Solid s → strip_space_end s ≡ s
unfolding strip_space_end
strip_space_end-Solid [] h = refl
strip_space_end-Solid (c ∷ []) h = rw (h.0) refl
strip_space_end-Solid (c ∷ d ∷ s) h = rw (strip_space_end-Solid (d ∷ s) h.1) refl

pub strip-Solid : (s : Text) → Solid s → strip s ≡ s
unfolding strip strip_start
strip-Solid [] h = unfold strip_space_end in refl
strip-Solid (c ∷ s) h = rw (h.0) (strip_space_end-Solid (c ∷ s) h)

pub is_empty-append : (s : Text) (c : ℕ) → is_empty (s ++ c ∷ []) ≡ false
unfolding is_empty
is_empty-append [] c = refl
is_empty-append (d ∷ s) c = refl

pub is_empty-decimal : (n : ℕ) → is_empty (decimal n) ≡ false
unfolding decimal decimal_from
is_empty-decimal n = elim (Bool-cases (ltb n 10)) [
  | inl e ↦ rw e (unfold is_empty in refl)
  | inr e ↦ rw e (is_empty-append _ _)
]

-- A text of digits has no letter and no white space.
pub digits-Free : (c : ℕ) (s : Text) → b'9' < c → All IsDigit s → Free c s
digits-Free c s l h = All-weaken s (λ d k. ground arith) h

pub digits-Solid : (s : Text) → All IsDigit s → Solid s
unfolding is_space
digits-Solid s h = All-weaken s (λ d k. ground arith) h

-- `text.split(c)` and `c.join(parts)`, of a character.
unfoldable pub add_first : ℕ → List Text → List Text
add_first d [] = (d ∷ []) ∷ []
add_first d (part ∷ parts) = (d ∷ part) ∷ parts

unfoldable pub split : ℕ → Text → List Text
unfolding add_first
split c [] = [] ∷ []
split c (d ∷ s) = let rest = split c s in if d == c then [] ∷ rest else add_first d rest

unfoldable pub join : ℕ → List Text → Text
join c [] = []
join c (part ∷ []) = part
join c (part ∷ next ∷ parts) = part ++ c ∷ join c (next ∷ parts)

split-Free : (c : ℕ) (s : Text) → Free c s → split c s ≡ s ∷ []
unfolding split add_first
split-Free c [] h = refl
split-Free c (d ∷ s) h = rw (split-Free c s h.1, h.0) refl

split-append : (c : ℕ) (s t : Text) → Free c s → split c (s ++ c ∷ t) ≡ s ∷ split c t
unfolding split add_first
split-append c [] t h = ground arith
split-append c (d ∷ s) t h = rw (split-append c s t h.1, h.0) refl

-- Splitting what was joined gives the parts again, when no part has the character.
pub split-join :
    (c : ℕ) (part : Text) (parts : List Text)
    → Free c part
    → All (Free c) parts
    → split c (join c (part ∷ parts)) ≡ part ∷ parts
unfolding join
split-join c part [] h k = split-Free c part h
split-join c part (next ∷ parts) h k =
    split-append c part (join c (next ∷ parts)) h
    ∙ ap (λ l. part ∷ l) (split-join c next parts k.0 k.1)

-- The length of a joined text: `bound` characters for each part, its separator included.
pub length-join :
    (c bound : ℕ) (parts : List Text)
    → All (λ part. length part < bound) parts
    → length (join c parts) ≤ length parts * bound
unfolding join
length-join c bound [] h = omega arith
length-join c bound (part ∷ []) h = omega arith
length-join c bound (part ∷ next ∷ parts) h =
    omega (
      arith,
      length-append part (c ∷ join c (next ∷ parts)),
      length-join c bound (next ∷ parts) h.1,
    )

-- `text.split(c, 1)` of a text with the character: what is in front of the first one, and behind it.
abbrev pub in_front : ℕ → Option (Text × Text) → Option (Text × Text)
in_front d none = none
in_front d (some (a, b)) = some (d ∷ a, b)

unfoldable pub partition : ℕ → Text → Option (Text × Text)
partition c [] = none
partition c (d ∷ s) = let rest = partition c s in if d == c then some ([], s) else in_front d rest

pub partition-append : (c : ℕ) (s t : Text) → Free c s → partition c (s ++ c ∷ t) ≡ some (s, t)
unfolding partition
partition-append c [] t h = ground arith
partition-append c (d ∷ s) t h = rw (h.0, partition-append c s t h.1) refl

-- The part in front has no such character.
pub partition-Free : (c : ℕ) (s a b : Text) → partition c s ≡ some (a, b) → Free c a
unfolding partition
partition-Free c [] a b e = absurd (cc)
partition-Free c (d ∷ s) a b e = elim (Bool-cases (d == c)) [
  | inl t ↦
      let same : ◌≡◌ {A = Option (Text × Text)} (some ([], s)) (some (a, b)) =
        sym (if_true _ _ t) ∙ e in
      let front : ◌≡◌ {A = Text × Text} ([], s) (a, b) = cc in
      subst (Free c) (ap (λ x. x.0) front) tt
  | inr t ↦
      let later : in_front d (partition c s) ≡ some (a, b) = sym (if_false _ _ t) ∙ e in
      elim (Option-cases (partition c s)) [
        | inl n ↦
            let no : ◌≡◌ {A = Option (Text × Text)} none (some (a, b)) =
              ap (in_front d) (sym n) ∙ later in
            absurd (cc)
        | inr ((x, y), n) ↦
            let same : ◌≡◌ {A = Option (Text × Text)} (some (d ∷ x, y)) (some (a, b)) =
              ap (in_front d) (sym n) ∙ later in
            let front : ◌≡◌ {A = Text × Text} (d ∷ x, y) (a, b) = cc in
            subst (Free c) (ap (λ z. z.0) front) (t, partition-Free c s x y n)
      ]
]

-- A text with a prefix is the prefix and the rest.
pub starts_with→append : (p s : Text) → starts_with p s ≡ true → s ≡ p ++ drop (length p) s
unfolding starts_with
starts_with→append [] s h = refl
starts_with→append (c ∷ p) [] h = cc
starts_with→append (c ∷ p) (d ∷ s) h = ground (arith, starts_with→append p s)

-- `text.lstrip(c)` and `text.strip(c)`.
unfoldable pub strip_front : ℕ → Text → Text
strip_front c [] = []
strip_front c (d ∷ s) = if d == c then strip_front c s else d ∷ s

unfoldable pub strip_both : ℕ → Text → Text
strip_both c s = strip_end c (strip_front c s)

-- `a <= b` of two texts.
unfoldable pub text_leb : Text → Text → Bool
text_leb [] t = true
text_leb (c ∷ s) [] = false
text_leb (c ∷ s) (d ∷ t) = ltb c d || (c == d && text_leb s t)
