-- ===== src/Stages.antt =====
-- scripts/infinite_streaming_encoder/cli_batch.py: the stage board of one execution, which every
-- source of stage announcements goes through, and the stages of a run.
-- A percent is counted in millionths of one percent. The calls run one at a time under
-- `_STAGE_LOCK`, and what is printed is a list, oldest first.
pub mod Guard
pub mod Repeat
use infinite_streaming_encod.Prelude.{
  ℕ, ◌+◌, ◌-◌, ◌*◌, Bool, true, false, ◌&&◌, ◌||◌, not, Option, none, some, List, [], ◌∷◌, ◌++◌,
  ltb, if◌then◌else◌,
}
use infinite_streaming_encod.Prelude.Text.{Text, codes, text_eq}
use infinite_streaming_encod.Prelude.Dict.{find, assign}

abbrev pub full : ℕ
full = 100_000_000

-- `status in names`.
unfoldable pub is_in : Text → List Text → Bool
is_in status [] = false
is_in status (name ∷ names) = text_eq name status || is_in status names

-- `_FINAL_STAGE`, `_STAGE_RANK` and `_STAGE_INTERRUPTS`.
abbrev pub final_stage : List Text
final_stage = codes "done" ∷ []

abbrev pub stage_rank : List (Text × ℕ)
stage_rank =
    (codes "pending", 0)
    ∷ (codes "queued", 1)
    ∷ (codes "starting", 2)
    ∷ (codes "running", 3)
    ∷ (codes "reclaimed", 3)
    ∷ (codes "failed", 4)
    ∷ (codes "done", 5)
    ∷ []

abbrev pub stage_interrupts : List Text
stage_interrupts = codes "failed" ∷ codes "reclaimed" ∷ []

-- `_STAGE_RANK.get(status, 0)`.
unfoldable pub rank : Text → ℕ
rank status = elim (find status stage_rank) [ none ↦ 0 | some n ↦ n ]

-- `percent or 0.0`, and `_STAGE_PCT.get(key, 0.0)`.
abbrev pub or_zero : Option ℕ → ℕ
or_zero none = 0
or_zero (some n) = n

unfoldable pub rendered_width : Option Text → Option ℕ → ℕ
rendered_width none percent = 0
rendered_width (some status) percent =
    if is_in status (codes "pending" ∷ codes "queued" ∷ codes "starting" ∷ [])
    then 0
    else if is_in status (codes "done" ∷ codes "skipped" ∷ codes "reclaimed" ∷ [])
    then full
    else or_zero percent

-- The lines that are printed: a [fill] line with the widths, the stage marker, a [census] line
-- which says whether the key was known; and a marker of another kind that is passed on.
pub data Line : Type 0 where
  fill : Text → ℕ → ℕ → Line
  stage : Text → Text → ℕ → Line
  census : Text → Bool → Line
  passed : Text → Line

-- `_STAGE_STATE`, `_STAGE_PCT`, and the lines printed.
pub record Board : Type 0 where
  pub state : List (Text × Text)
  pub percents : List (Text × ℕ)
  pub printed : List Line

abbrev pub empty_board : Board
empty_board = record { state = []; percents = []; printed = [] }

-- The two tests that return False.
unfoldable pub is_stale : Option Text → Text → Bool
is_stale none status = false
is_stale (some prev) status =
    (is_in prev final_stage && not (is_in status final_stage))
    || (not (text_eq prev (codes "failed"))
        && not (is_in status stage_interrupts)
        && ltb (rank status) (rank prev))

abbrev pub is_prev : Option Text → Text → Bool
is_prev none status = false
is_prev (some prev) status = text_eq prev status

-- The percent that is announced.
unfoldable pub carried : Option Text → Text → Option ℕ → Option ℕ → ℕ
carried prev status known none = or_zero known
carried prev status known (some percent) =
    if not (is_in status final_stage) && is_prev prev status && ltb percent (or_zero known)
    then or_zero known
    else percent

-- `abs(after - before) > 0.05`.
abbrev pub fill_lines : Text → ℕ → ℕ → List Line
fill_lines key before after =
    if ltb 50_000 (after - before) || ltb 50_000 (before - after)
    then fill key before after ∷ []
    else []

abbrev pub is_known : Option Text → Bool
is_known none = false
is_known (some prev) = true

abbrev pub census_lines : Text → Option Text → Text → List Line
census_lines key prev src =
    if text_eq src (codes "census") then census key (is_known prev) ∷ [] else []

-- The part of `_emit_stage_locked` after the guards, with the percent that is announced.
unfoldable pub announce : Text → Text → ℕ → Text → Board → Board
announce key status percent src b =
    let prev = find key b.state in
    record {
      state = assign key status b.state;
      percents = assign key percent b.percents;
      printed =
          b.printed
          ++ (fill_lines key (rendered_width prev (find key b.percents))
                (rendered_width (some status) (some percent))
              ++ stage key status percent ∷ census_lines key prev src);
    }

-- `_emit_stage`: the board, and whether the announcement was made.
unfoldable pub emit_stage : Text → Text → Option ℕ → Text → Board → Board × Bool
emit_stage key status percent src b = if is_stale (find key b.state) status then (b, false) else (
  announce key status (carried (find key b.state) status (find key b.percents) percent) src b,
  true,
)

-- An announcement by one of the sources, and a run of them in the order of the lock.
pub record Call : Type 0 where
  pub key : Text
  pub status : Text
  pub percent : Option ℕ
  pub src : Text

unfoldable pub emit_all : List Call → Board → Board
emit_all [] b = b
emit_all (c ∷ calls) b = emit_all calls (emit_stage c.key c.status c.percent c.src b).0

-- The stages that are announced for a key, oldest first.
unfoldable pub shown : Text → List Line → List (Text × ℕ)
shown key [] = []
shown key (stage k status percent ∷ lines) =
    let rest = shown key lines in if text_eq k key then (status, percent) ∷ rest else rest
shown key (fill k before after ∷ lines) = shown key lines
shown key (census k known ∷ lines) = shown key lines
shown key (passed marker ∷ lines) = shown key lines
