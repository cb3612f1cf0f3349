-- ===== src/Stages/Guard.antt =====
-- cli_batch.py, _emit_stage_locked: what the sources can make the board show of a stage.
use mathlib.Core.List.{append_assoc, append-nil}
use infinite_streaming_encod.Prelude.{
  ℕ, ◌≤◌, true, false, Option, none, some, List, [], ◌∷◌, ◌++◌, ◌≡◌, ◌⊎◌, inl, inr, refl, sym, ap,
  ap₂, ◌∙◌, ltb→ge, if◌then◌else◌, if_true, if_false, Bool-cases, arith,
}
use infinite_streaming_encod.Prelude.Text.{Text, codes, text_eq, text_eq_iff}
use infinite_streaming_encod.Prelude.Dict.{find, find-assign}
use infinite_streaming_encod.Stages.{
  Board, Line, fill, stage, census, passed, is_in, final_stage, stage_interrupts, rank, or_zero,
  is_stale, is_prev, carried, announce, emit_stage, Call, emit_all, shown, fill_lines, census_lines,
  rendered_width,
}

-- The status and the percent that the board has for a stage.
abbrev pub paired : Option Text → Option ℕ → Option (Text × ℕ)
paired none percent = none
paired (some status) percent = some (status, or_zero percent)

abbrev pub current : Text → Board → Option (Text × ℕ)
current key b = paired (find key b.state) (find key b.percents)

-- A stage that is done stays done; otherwise the new status is not before the old one in the
-- lifecycle, or it interrupts, or the old one was a failure. In one status, other than done, the
-- percent does not fall.
abbrev pub IsForward : Text × ℕ → Text × ℕ → Type 0
IsForward (prev, known) (status, percent) =
    (is_in prev final_stage ≡ true → is_in status final_stage ≡ true)
    × ((prev ≡ codes "failed") ⊎ (is_in status stage_interrupts ≡ true) ⊎ (rank prev ≤ rank status))
    × (prev ≡ status → is_in status final_stage ≡ false → known ≤ percent)

abbrev pub Lifecycle : Option (Text × ℕ) → List (Text × ℕ) → Type 0
Lifecycle prev [] = Unit
Lifecycle none (next ∷ rest) = Lifecycle (some next) rest
Lifecycle (some prev) (next ∷ rest) = IsForward prev next × Lifecycle (some next) rest

carried-keeps :
    (prev status : Text) (known percent : Option ℕ)
    → prev ≡ status
    → is_in status final_stage ≡ false
    → or_zero known ≤ carried (some prev) status known percent
unfolding carried is_prev
carried-keeps prev status known none e f = omega arith
carried-keeps prev status known (some percent) e f =
    let t : text_eq prev status ≡ true = (text_eq_iff prev status).1 e in ground arith

guard-IsForward :
    (prev status : Text)
    → is_stale (some prev) status ≡ false
    → (is_in prev final_stage ≡ true → is_in status final_stage ≡ true)
      × ((prev ≡ codes "failed")
          ⊎ (is_in status stage_interrupts ≡ true)
          ⊎ (rank prev ≤ rank status))
unfolding is_stale
guard-IsForward prev status h =
    let failed = text_eq_iff prev (codes "failed") in
    ground (arith, failed, ltb→ge (rank status) (rank prev))

carried-IsForward :
    (prev status : Text) (known percent : Option ℕ)
    → is_stale (some prev) status ≡ false
    → IsForward (prev, or_zero known) (status, carried (some prev) status known percent)
carried-IsForward prev status known percent h =
    let g = guard-IsForward prev status h in (g.0, g.1, carried-keeps prev status known percent)

pub current-announce :
    (key k status src : Text) (percent : ℕ) (b : Board)
    → current key (announce k status percent src b)
      ≡ (if text_eq k key then some (status, percent) else current key b)
unfolding announce
current-announce key k status src percent b =
    ap₂ paired (find-assign key k status b.state) (find-assign key k percent b.percents)
    ∙ elim (Bool-cases (text_eq k key)) [ inl e ↦ rw e refl | inr e ↦ rw e refl ]

pub shown-append :
    (key : Text) (xs ys : List Line) → shown key (xs ++ ys) ≡ shown key xs ++ shown key ys
unfolding shown
shown-append key [] ys = refl
shown-append key (stage k status percent ∷ xs) ys = elim (Bool-cases (text_eq k key)) [
  | inl e ↦ rw e (ap (λ l. (status, percent) ∷ l) (shown-append key xs ys))
  | inr e ↦ rw e (shown-append key xs ys)
]
shown-append key (fill k before after ∷ xs) ys = shown-append key xs ys
shown-append key (census k known ∷ xs) ys = shown-append key xs ys
shown-append key (passed marker ∷ xs) ys = shown-append key xs ys

shown-fill_lines : (key k : Text) (before after : ℕ) → shown key (fill_lines k before after) ≡ []
unfolding shown
shown-fill_lines key k before after = ground arith

shown-census_lines :
    (key k src : Text) (prev : Option Text) → shown key (census_lines k prev src) ≡ []
unfolding shown
shown-census_lines key k src prev = ground arith

-- Only the marker itself shows a stage.
shown-marker :
    (key k status src : Text) (percent before after : ℕ) (prev : Option Text)
    → shown key (fill_lines k before after ++ stage k status percent ∷ census_lines k prev src)
      ≡ (if text_eq k key then (status, percent) ∷ [] else [])
shown-marker key k status src percent before after prev =
    shown-append key (fill_lines k before after) _
    ∙ ap (λ l. l ++ shown key (stage k status percent ∷ census_lines k prev src))
        (shown-fill_lines key k before after)
    ∙ (unfold shown in
        ap (λ l. if text_eq k key then (status, percent) ∷ l else l)
          (shown-census_lines key k src prev))

shown-announce :
    (key k status src : Text) (percent : ℕ) (b : Board)
    → shown key (announce k status percent src b).printed
      ≡ shown key b.printed ++ (if text_eq k key then (status, percent) ∷ [] else [])
unfolding announce
shown-announce key k status src percent b =
    shown-append key b.printed _
    ∙ ap (λ l. shown key b.printed ++ l)
        (shown-marker key k status src percent (rendered_width (find k b.state) (find k b.percents))
          (rendered_width (some status) (some percent)) (find k b.state))

-- What a stage is at after further announcements of it.
abbrev pub latest : Option (Text × ℕ) → List (Text × ℕ) → Option (Text × ℕ)
latest prev [] = prev
latest prev (next ∷ rest) = latest (some next) rest

-- A run from `b` to `c` shows a stage going forward, and leaves the board at what it showed last.
abbrev pub Shows : Text → Board → Board → Type 0
Shows key b c =
    (later : List (Text × ℕ)) × (shown key c.printed ≡ shown key b.printed ++ later)
    × Lifecycle (current key b) later
    × (current key c ≡ latest (current key b) later)

Lifecycle-append :
    (prev : Option (Text × ℕ)) (xs ys : List (Text × ℕ))
    → Lifecycle prev xs
    → Lifecycle (latest prev xs) ys
    → Lifecycle prev (xs ++ ys)
Lifecycle-append prev [] ys h k = k
Lifecycle-append none (x ∷ xs) ys h k = Lifecycle-append (some x) xs ys h k
Lifecycle-append (some prev) (x ∷ xs) ys h k = (h.0, Lifecycle-append (some x) xs ys h.1 k)

latest-append :
    (prev : Option (Text × ℕ)) (xs ys : List (Text × ℕ))
    → latest prev (xs ++ ys) ≡ latest (latest prev xs) ys
latest-append prev [] ys = refl
latest-append prev (x ∷ xs) ys = latest-append (some x) xs ys

pub Shows-refl : (key : Text) (b : Board) → Shows key b b
Shows-refl key b = ([], sym (append-nil _), tt, refl)

pub Shows-trans : (key : Text) (b c d : Board) → Shows key b c → Shows key c d → Shows key b d
Shows-trans key b c d (xs, e, f, g) (ys, k, l, m) = (
  xs ++ ys,
  k ∙ ap (λ s. s ++ ys) e ∙ append_assoc (shown key b.printed) xs ys,
  Lifecycle-append (current key b) xs ys f (rw (← g) l),
  m ∙ ap (λ o. latest o ys) g ∙ sym (latest-append (current key b) xs ys),
)

announced-Lifecycle :
    (prev : Option Text) (known percent : Option ℕ) (status : Text)
    → is_stale prev status ≡ false
    → Lifecycle (paired prev known) ((status, carried prev status known percent) ∷ [])
announced-Lifecycle none known percent status h = tt
announced-Lifecycle (some prev) known percent status h =
    (carried-IsForward prev status known percent h, tt)

announce-Shows :
    (key k status src : Text) (percent : Option ℕ) (b : Board)
    → is_stale (find k b.state) status ≡ false
    → Shows key b
        (announce k status (carried (find k b.state) status (find k b.percents) percent) src b)
announce-Shows key k status src percent b h = elim (Bool-cases (text_eq k key)) [
  | inl e ↦
      let same : k ≡ key = (text_eq_iff k key).0 e in
      (
        (status, carried (find k b.state) status (find k b.percents) percent) ∷ [],
        shown-announce key k status src _ b ∙ ap (λ l. shown key b.printed ++ l) (if_true _ _ e),
        rw (← same) (announced-Lifecycle (find k b.state) (find k b.percents) percent status h),
        current-announce key k status src _ b ∙ if_true _ _ e,
      )
  | inr e ↦ (
    [],
    shown-announce key k status src _ b ∙ ap (λ l. shown key b.printed ++ l) (if_false _ _ e),
    tt,
    current-announce key k status src _ b ∙ if_false _ _ e,
  )
]

pub emit_stage-Shows :
    (key k status src : Text) (percent : Option ℕ) (b : Board)
    → Shows key b (emit_stage k status percent src b).0
unfolding emit_stage
emit_stage-Shows key k status src percent b = elim (Bool-cases (is_stale (find k b.state) status)) [
  | inl e ↦ rw e (Shows-refl key b)
  | inr e ↦ rw e (announce-Shows key k status src percent b e)
]

-- Whatever the sources announce, and in whatever order their calls come, the markers that are
-- printed for a stage go forward: done is never taken back, no status is before the one in front
-- of it in the lifecycle except after a failure or as an interruption, and in one status other than
-- done the percent does not fall. The board is at what was printed last.
pub emit_all-Shows : (key : Text) (calls : List Call) (b : Board) → Shows key b (emit_all calls b)
unfolding emit_all
emit_all-Shows key [] b = Shows-refl key b
emit_all-Shows key (c ∷ calls) b =
    let next = (emit_stage c.key c.status c.percent c.src b).0 in
    Shows-trans key b next (emit_all calls next)
      (emit_stage-Shows key c.key c.status c.src c.percent b) (emit_all-Shows key calls next)
