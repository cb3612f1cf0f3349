-- ===== src/Staging/Guard.antt =====
-- dist_staging.py, delete_prefix: what its guard accepts.
use mathlib.Core.Path.{subst}
use infinite_streaming_encod.Prelude.{
  ℕ, ◌≡◌, ◌≢◌, inl, inr, refl, sym, ap, ap₂, ◌∙◌, true, false, ◌||◌, ◌&&◌, not, List, [], ◌∷◌, ◌++◌,
  ◌==◌, if◌then◌else◌, if_true, if_false, All, Bool-cases, ==_iff, arith,
}
use infinite_streaming_encod.Prelude.Text.{
  Text, Free, codes, text_eq, text_eq_iff, is_empty, strip_end, strip_front, strip_both, split,
  add_first, join, strip_end-append,
}
use infinite_streaming_encod.Staging.{
  slash, jobs_prefix, with_slash, normalize_prefix, is_job_prefix,
}

add_first-Free :
    (c d : ℕ) (parts : List Text)
    → (d == c) ≡ false
    → All (Free c) parts
    → All (Free c) (add_first d parts)
unfolding add_first
add_first-Free c d [] e h = ((e, tt), tt)
add_first-Free c d (part ∷ parts) e h = ((e, h.0), h.1)

-- The parts of a text have no separator.
split-Free : (c : ℕ) (s : Text) → All (Free c) (split c s)
unfolding split add_first
split-Free c [] = (tt, tt)
split-Free c (d ∷ s) = elim (Bool-cases (d == c)) [
  | inl e ↦ rw e (tt, split-Free c s)
  | inr e ↦ rw e (add_first-Free c d (split c s) e (split-Free c s))
]

-- A text that does not begin with a slash.
abbrev Bare : Text → Type 0
Bare [] = Unit
Bare (c ∷ s) = (c == slash) ≡ false

strip_front-Bare : (s : Text) → Bare (strip_front slash s)
unfolding strip_front
strip_front-Bare [] = tt
strip_front-Bare (c ∷ s) = elim (Bool-cases (c == slash)) [
  | inl e ↦ rw e (strip_front-Bare s)
  | inr e ↦ rw e e
]

Bare-strip_front : (s : Text) → Bare s → strip_front slash s ≡ s
unfolding strip_front
Bare-strip_front [] h = refl
Bare-strip_front (c ∷ s) h = rw h refl

-- `strip_end` of one character more.
abbrev strip_step : ℕ → Text → Text
strip_step c [] = if c == slash then [] else c ∷ []
strip_step c (d ∷ rest) = c ∷ d ∷ rest

strip_end-step : (c : ℕ) (s : Text) → strip_end slash (c ∷ s) ≡ strip_step c (strip_end slash s)
unfolding strip_end
strip_end-step c s = elim (strip_end slash s) [ [] ↦ refl | d ∷ rest ↦ refl ]

Bare-step : (c : ℕ) (s : Text) → (c == slash) ≡ false → Bare (strip_step c s)
Bare-step c [] h = rw h h
Bare-step c (d ∷ rest) h = h

Bare-strip_end : (s : Text) → Bare s → Bare (strip_end slash s)
Bare-strip_end [] h = unfold strip_end in tt
Bare-strip_end (c ∷ s) h = subst Bare (sym (strip_end-step c s)) (Bare-step c (strip_end slash s) h)

Bare-append : (s t : Text) → is_empty s ≡ false → Bare s → Bare (s ++ t)
unfolding is_empty
Bare-append [] t n h = absurd (cc)
Bare-append (c ∷ s) t n h = h

strip_step-again :
    (c : ℕ) (s : Text) → strip_end slash s ≡ s → strip_end slash (strip_step c s) ≡ strip_step c s
unfolding strip_end
strip_step-again c [] e = elim (Bool-cases (c == slash)) [
  | inl h ↦ rw h refl
  | inr h ↦ rw (h, strip_end) (rw h refl)
]
strip_step-again c (d ∷ rest) e = rw e refl

strip_end-again : (s : Text) → strip_end slash (strip_end slash s) ≡ strip_end slash s
strip_end-again [] = unfold strip_end in refl
strip_end-again (c ∷ s) =
    ap (strip_end slash) (strip_end-step c s)
    ∙ strip_step-again c (strip_end slash s) (strip_end-again s)
    ∙ sym (strip_end-step c s)

-- What `normalize_prefix` strips stays stripped, with a slash behind it.
strip_both-again :
    (s : Text)
    → is_empty (strip_both slash s) ≡ false
    → strip_both slash (strip_both slash s ++ slash ∷ []) ≡ strip_both slash s
unfolding strip_both
strip_both-again s n =
    let core = strip_end slash (strip_front slash s) in
    let bare : Bare core = Bare-strip_end (strip_front slash s) (strip_front-Bare s) in
    ap (strip_end slash)
      (Bare-strip_front (core ++ slash ∷ []) (Bare-append core (slash ∷ []) n bare))
    ∙ strip_end-append slash core
    ∙ strip_end-again (strip_front slash s)

join-add_first : (c d : ℕ) (parts : List Text) → join c (add_first d parts) ≡ d ∷ join c parts
unfolding join add_first
join-add_first c d [] = refl
join-add_first c d (part ∷ []) = refl
join-add_first c d (part ∷ next ∷ parts) = refl

add_first-some :
    (d : ℕ) (parts : List Text)
    → (part : Text) × (rest : List Text) × (add_first d parts ≡ part ∷ rest)
unfolding add_first
add_first-some d [] = (_, _, refl)
add_first-some d (part ∷ parts) = (_, _, refl)

split-some : (c : ℕ) (s : Text) → (part : Text) × (rest : List Text) × (split c s ≡ part ∷ rest)
unfolding split
split-some c [] = (_, _, refl)
split-some c (d ∷ s) = elim (Bool-cases (d == c)) [
  | inl e ↦ rw e (_, _, refl)
  | inr e ↦ rw e (add_first-some d (split c s))
]

-- The parts of a text joined are the text again.
join-split : (c : ℕ) (s : Text) → join c (split c s) ≡ s
unfolding split join
join-split c [] = refl
join-split c (d ∷ s) = elim (Bool-cases (d == c)) [
  | inl e ↦
      let some_part = split-some c s in
      let is_c : d ≡ c = (==_iff d c).0 e in
      rw e (
        ap (λ parts. join c ([] ∷ parts)) some_part.2
        ∙ ap (λ parts. c ∷ join c parts) (sym some_part.2)
        ∙ ap₂ (λ x l. x ∷ l) (sym is_c) (join-split c s))
  | inr e ↦ rw e (join-add_first c d (split c s) ∙ ap (λ l. d ∷ l) (join-split c s))
]

-- The id of a job, as the guard accepts it.
abbrev pub IsId : Text → Type 0
IsId id = Free slash id × (is_empty id ≡ false) × (id ≢ codes ".") × (id ≢ codes "..")

not_eq : (s t : Text) → text_eq s t ≡ false → s ≢ t
not_eq s t h e =
    let same : text_eq s t ≡ true = (text_eq_iff s t).1 e in
    let no : true ≡ false = sym same ∙ h in cc

guard-IsId :
    (parts : List Text)
    → All (Free slash) parts
    → (elim parts [
      | jobs ∷ id ∷ [] ↦
          text_eq jobs (codes "jobs")
          && not (is_empty id || text_eq id (codes ".") || text_eq id (codes ".."))
      | _ ↦ false
    ])
      ≡ true
    → (id : Text) × IsId id × (parts ≡ codes "jobs" ∷ id ∷ [])
guard-IsId [] f h = absurd (cc)
guard-IsId (jobs ∷ []) f h = absurd (cc)
guard-IsId (jobs ∷ id ∷ []) f h =
    let here : text_eq jobs (codes "jobs") ≡ true = ground arith in
    let dot : text_eq id (codes ".") ≡ false = ground arith in
    let dots : text_eq id (codes "..") ≡ false = ground arith in
    (
      id,
      (f.1.0, ground arith, not_eq id (codes ".") dot, not_eq id (codes "..") dots),
      ap (λ l. l ∷ id ∷ []) ((text_eq_iff jobs (codes "jobs")).0 here),
    )
guard-IsId (jobs ∷ id ∷ next ∷ parts) f h = absurd (cc)

slash-restored :
    (s : Text) {d : ℕ} {name : Text}
    → strip_both slash (with_slash (strip_both slash s)) ≡ d ∷ name
    → with_slash (strip_both slash s) ≡ d ∷ (name ++ slash ∷ [])
slash-restored s {d = d} {name = name} h = elim (Bool-cases (is_empty (strip_both slash s))) [
  | inl e ↦
      let nothing : strip_both slash (with_slash (strip_both slash s)) ≡ [] =
        ap (strip_both slash) (if_true [] _ e)
        ∙ (unfold strip_both strip_front strip_end in refl) in
      let no : [] ≡ d ∷ name = sym nothing ∙ h in absurd (cc)
  | inr e ↦
      let made = if_false [] (strip_both slash s ++ slash ∷ []) e in
      let core : strip_both slash s ≡ d ∷ name =
        sym (strip_both-again s e) ∙ ap (strip_both slash) (sym made) ∙ h in
      made ∙ ap (λ l. l ++ slash ∷ []) core
]

-- A prefix that the guard accepts is that of one job.
pub is_job_prefix-IsId :
    (prefix : Text)
    → is_job_prefix (normalize_prefix prefix) ≡ true
    → (id : Text) × IsId id × (normalize_prefix prefix ≡ jobs_prefix ++ (id ++ slash ∷ []))
unfolding is_job_prefix
is_job_prefix-IsId prefix h =
    let p = normalize_prefix prefix in
    let parts =
      guard-IsId (split slash (strip_both slash p)) (split-Free slash (strip_both slash p)) h in
    let named : strip_both slash p ≡ jobs_prefix ++ parts.0 =
      sym (join-split slash (strip_both slash p))
      ∙ ap (join slash) parts.2
      ∙ (unfold join in refl) in
    (parts.0, parts.1, (unfold normalize_prefix in slash-restored _ named))
