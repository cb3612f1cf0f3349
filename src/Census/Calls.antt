-- ===== src/Census/Calls.antt =====
-- cli_batch.py: runs of announcements, and what each status of Batch is announced as.
use mathlib.Core.Path.{subst}
use infinite_streaming_encod.Prelude.{
  ℕ, sym, if_true, if_false, Option, none, some, List, [], ◌∷◌, ◌++◌, ◌≡◌, inl, inr, refl, ap, ◌∙◌,
  All, All-append, All-weaken, Bool-cases,
}
use infinite_streaming_encod.Prelude.Text.{Text, codes, text_eq, text_eq_iff}
use infinite_streaming_encod.Prelude.Dict.{find}
use infinite_streaming_encod.Stages.{Board, Call, emit_stage, emit_all}
use infinite_streaming_encod.Jobs.{stage_key_for_job}
use infinite_streaming_encod.Census.{batch_stage_status, known_percent}

-- From `b` to `c` by announcements of one kind.
abbrev pub Announced : (Call → Type 0) → Board → Board → Type 0
Announced P b c = (calls : List Call) × (emit_all calls b ≡ c) × All P calls

pub Announced-refl : (P : Call → Type 0) (b : Board) → Announced P b b
unfolding emit_all
Announced-refl P b = ([], refl, tt)

emit_all-append :
    (xs ys : List Call) (b : Board) → emit_all (xs ++ ys) b ≡ emit_all ys (emit_all xs b)
unfolding emit_all
emit_all-append [] ys b = refl
emit_all-append (c ∷ xs) ys b =
    emit_all-append xs ys (emit_stage c.key c.status c.percent c.src b).0

pub Announced-trans :
    (P : Call → Type 0) (b c d : Board) → Announced P b c → Announced P c d → Announced P b d
Announced-trans P b c d (xs, e, f) (ys, g, h) =
    (xs ++ ys, emit_all-append xs ys b ∙ ap (emit_all ys) e ∙ g, All-append P xs ys f h)

pub emit_stage-Announced :
    (P : Call → Type 0) (call : Call) (b : Board)
    → P call
    → Announced P b (emit_stage call.key call.status call.percent call.src b).0
unfolding emit_all
emit_stage-Announced P call b h = (call ∷ [], refl, (h, tt))

-- What Batch says of a job, and what is announced for it: the status and the percent.
pub data Translates : Text → Text → Option ℕ → Type 0 where
  submitted : Translates (codes "SUBMITTED") (codes "queued") none
  runnable : Translates (codes "RUNNABLE") (codes "queued") none
  is_running : Translates (codes "RUNNING") (codes "running") none
  is_starting : Translates (codes "STARTING") (codes "starting") none
  succeeded : Translates (codes "SUCCEEDED") (codes "done") (some 100_000_000)
  is_failed : Translates (codes "FAILED") (codes "failed") none

-- The call for a job of this name, on whatever Batch says of it.
abbrev pub IsCall : Text → Text → Text → Call → Type 0
IsCall src job_name batch_status call =
    (call.src ≡ src)
    × (stage_key_for_job job_name ≡ some call.key)
    × Translates batch_status call.status call.percent

abbrev pub call_of : Text → Text → Text → Call
call_of key status src = record {
  key = key;
  status = status;
  percent = known_percent status;
  src = src;
}

-- A row of the table, as the calls read it.
pub table-Translates :
    All (λ (row : Text × Text). Translates row.0 row.1 (known_percent row.1)) batch_stage_status
unfolding text_eq
table-Translates =
    (submitted, (runnable, (is_running, (is_starting, (succeeded, (is_failed, tt))))))

pub data Listed {A : Type 0} (x : A) : List A → Type 0 where
  at_front : {xs : List A} → Listed x (x ∷ xs)
  later : {y : A} {xs : List A} → Listed x xs → Listed x (y ∷ xs)

pub All-Listed : {A : Type 0} (xs : List A) → All (λ x. Listed x xs) xs
All-Listed [] = tt
All-Listed (x ∷ xs) = (at_front, All-weaken xs (λ y l. later l) (All-Listed xs))

pub find-All :
    (Q : Text → Text → Type 0) (key value : Text) (table : List (Text × Text))
    → All (λ (row : Text × Text). Q row.0 row.1) table
    → find key table ≡ some value
    → Q key value
unfolding find
find-All Q key value [] h e = absurd (cc)
find-All Q key value ((k, v) ∷ table) h e = elim (Bool-cases (text_eq k key)) [
  | inl t ↦
      let found : some v ≡ some value = sym (if_true _ _ t) ∙ e in
      let is : v ≡ value = cc in
      subst (λ x. Q key x) is (subst (λ x. Q x v) ((text_eq_iff k key).0 t) h.0)
  | inr t ↦ find-All Q key value table h.1 (sym (if_false _ _ t) ∙ e)
]
