-- ===== src/Census/Batches.antt =====
-- cli_batch.py, _sync_stages_from_batch: a census that finds nothing new is silent, and the ids are
-- described in slices.
use infinite_streaming_encod.Prelude.{
  ℕ, zero, suc, ◌≤◌, ◌<◌, true, ◌||◌, some, List, [], ◌∷◌, ◌++◌, ◌≡◌, inl, inr, refl, ap, ◌∙◌, All,
  take, drop, take-append-drop, length, length-take, length-drop, Option-cases, arith,
}
use infinite_streaming_encod.Prelude.Text.{Text}
use infinite_streaming_encod.Prelude.Dict.{find}
use infinite_streaming_encod.Stages.{Board, is_prev}
use infinite_streaming_encod.Jobs.{stage_key_for_job}
use infinite_streaming_encod.Census.{
  BatchJob, Census, batch_stage_status, is_terminal, sync_stage, sync_job, sync_jobs, sync_statuses,
  sync_stages_from_batch, slices, describe_max,
}

-- The board already has this status for the job's stage, or the stage is done or failed.
abbrev pub IsSettled : Board → Text → BatchJob → Type 0
IsSettled b stage_status job =
    (key : Text)
    → stage_key_for_job job.job_name ≡ some key
    → (is_prev (find key b.state) stage_status || is_terminal (find key b.state)) ≡ true

settled-sync_job :
    (stage_status : Text) (job : BatchJob) (c : Census)
    → IsSettled c.board stage_status job
    → sync_job stage_status job c ≡ c
unfolding sync_job sync_stage
settled-sync_job stage_status job c h = elim (Option-cases (stage_key_for_job job.job_name)) [
  | inl e ↦ rw (e, sync_job) refl
  | inr (key, e) ↦ rw (e, sync_job, sync_stage, h key e) refl
]

settled-sync_jobs :
    (stage_status : Text) (jobs : List BatchJob) (c : Census)
    → All (IsSettled c.board stage_status) jobs
    → sync_jobs stage_status jobs c ≡ c
unfolding sync_jobs
settled-sync_jobs stage_status [] c h = refl
settled-sync_jobs stage_status (job ∷ jobs) c h =
    ap (sync_jobs stage_status jobs) (settled-sync_job stage_status job c h.0)
    ∙ settled-sync_jobs stage_status jobs c h.1

abbrev pub AllSettled : (Text → List BatchJob) → Board → List (Text × Text) → Type 0
AllSettled list_jobs b [] = Unit
AllSettled list_jobs b ((status, stage_status) ∷ rest) =
    All (IsSettled b stage_status) (list_jobs status) × AllSettled list_jobs b rest

settled-sync_statuses :
    (list_jobs : Text → List BatchJob) (table : List (Text × Text)) (c : Census)
    → AllSettled list_jobs c.board table
    → sync_statuses list_jobs table c ≡ c
unfolding sync_statuses
settled-sync_statuses list_jobs [] c h = refl
settled-sync_statuses list_jobs ((status, stage_status) ∷ rest) c h =
    ap (sync_statuses list_jobs rest) (settled-sync_jobs stage_status (list_jobs status) c h.0)
    ∙ settled-sync_statuses list_jobs rest c h.1

-- Where the board agrees with Batch about every job, or has its stage as done or failed, a census
-- prints nothing, repairs nothing and describes no job.
pub sync_stages_from_batch_quiet :
    (list_jobs : Text → List BatchJob) (b : Board)
    → AllSettled list_jobs b batch_stage_status
    → sync_stages_from_batch list_jobs b
      ≡ (record { board = b; newly_announced = []; repairs = 0 }, [])
unfolding sync_stages_from_batch
sync_stages_from_batch_quiet list_jobs b h =
    ap (λ (c : Census). (c, slices (length c.newly_announced) c.newly_announced))
      (settled-sync_statuses list_jobs batch_stage_status
        (record { board = b; newly_announced = []; repairs = 0 }) h)
    ∙ (unfold slices in refl)

abbrev pub join : List (List Text) → List Text
join [] = []
join (xs ∷ rest) = xs ++ join rest

slices-join : (fuel : ℕ) (ids : List Text) → length ids ≤ fuel → join (slices fuel ids) ≡ ids
unfolding slices
slices-join zero [] h = refl
slices-join zero (i ∷ ids) h = absurd (omega arith)
slices-join (suc fuel) [] h = refl
slices-join (suc fuel) (i ∷ ids) h =
    ap (λ r. take describe_max (i ∷ ids) ++ r)
      (slices-join fuel (drop describe_max (i ∷ ids))
        (omega (arith, length-drop describe_max (i ∷ ids))))
    ∙ take-append-drop describe_max (i ∷ ids)

slices-bounds :
    (fuel : ℕ) (ids : List Text)
    → All (λ (xs : List Text). (0 < length xs) × (length xs ≤ describe_max)) (slices fuel ids)
unfolding slices
slices-bounds zero ids = tt
slices-bounds (suc fuel) [] = tt
slices-bounds (suc fuel) (i ∷ ids) = (
  omega (arith, length-take describe_max (i ∷ ids)),
  slices-bounds fuel (drop describe_max (i ∷ ids)),
)

-- The jobs that are described are all that were newly announced, in order, in requests of one to
-- a hundred ids.
pub sync_stages_from_batch-slices :
    (list_jobs : Text → List BatchJob) (b : Board)
    → (join (sync_stages_from_batch list_jobs b).1
        ≡ (sync_stages_from_batch list_jobs b).0.newly_announced)
      × All
          (λ (xs : List Text). (0 < length xs) × (length xs ≤ describe_max))
          ((sync_stages_from_batch list_jobs b).1)
unfolding sync_stages_from_batch
sync_stages_from_batch-slices list_jobs b = (slices-join _ _ (omega arith), slices-bounds _ _)
