-- ===== src/Tests/Census.antt =====
-- cli_batch.py, the census of Batch and the queue of its state changes.
use infinite_streaming_encod.Prelude.Dict.{find, assign}
use infinite_streaming_encod.Prelude.{
  List, Option, [], if◌then◌else◌, none, refl, some, sym, ◌∙◌, ◌∷◌, ◌≡◌,
}
use infinite_streaming_encod.Prelude.Text.{
  Text, all_digits, before, codes, decimal, decimal_from, is_digit, is_empty, starts_with, text_eq,
  value_from,
}
use infinite_streaming_encod.Stages.{
  Board, announce, carried, emit_stage, empty_board, is_in, is_stale, rank, rendered_width,
}
use infinite_streaming_encod.Stages.Guard.{Shows}
use infinite_streaming_encod.Jobs.{
  chunk_index, segment, stage_key_for_job, variant_job, variant_key,
}
use infinite_streaming_encod.Census.{
  BatchJob, Receive, StateMessage, apply_message, apply_messages, apply_status, batch_stage_status,
  client_error, drain_rounds, drain_state, is_terminal, received, sync_stages_from_batch,
}
use infinite_streaming_encod.Census.Calls.{Announced}
use infinite_streaming_encod.Census.Runs.{IsCensusCall, IsEventCall, sources-Shows}
use infinite_streaming_encod.Census.Batches.{AllSettled, IsSettled}

abbrev v1 : Text
v1 = codes "encode:h264:720p:chunk1"

abbrev job : BatchJob
job = record { job_name = codes "var-h264-720p-c1-x"; job_id = codes "id1" }

-- One job, which runs.
abbrev jobs : Text → List BatchJob
jobs status = if text_eq status (codes "RUNNING") then job ∷ [] else []

abbrev finished : StateMessage
finished = record {
  job_name = codes "var-h264-720p-c1-x";
  status = codes "SUCCEEDED";
  instance_arn = codes "arn";
}

abbrev rounds : List (Receive (Option StateMessage))
rounds = received (none ∷ some finished ∷ []) ∷ client_error ∷ received (some finished ∷ []) ∷ []

drained : (drain_state rounds empty_board).applied ≡ 1
unfolding drain_state drain_rounds apply_messages apply_message stage_key_for_job starts_with
    variant_job segment is_empty before variant_key chunk_index all_digits find text_eq apply_status
    emit_stage assign decimal decimal_from is_digit value_from announce carried is_in is_stale rank
    rendered_width
drained = refl

sources-Shows_example :
    Announced (IsCensusCall jobs) empty_board (sync_stages_from_batch jobs empty_board).0.board
    × Announced (IsEventCall rounds) empty_board (drain_state rounds empty_board).board
    × Shows v1 empty_board (sync_stages_from_batch jobs empty_board).0.board
    × Shows v1 empty_board (drain_state rounds empty_board).board
sources-Shows_example = sources-Shows jobs rounds empty_board v1

abbrev known : Board
known = record { state = (v1, codes "running") ∷ []; percents = (v1, 7) ∷ []; printed = [] }

known_key : stage_key_for_job job.job_name ≡ some v1
unfolding stage_key_for_job starts_with variant_job segment is_empty before variant_key chunk_index
    all_digits decimal value_from
known_key = refl

job_is_known : IsSettled known (codes "running") job
unfolding find text_eq is_in is_terminal
job_is_known key e =
    let known : some v1 ≡ some key = sym known_key ∙ e in
    let same : v1 ≡ key = cc in rw (← same) refl

known-AllSettled : AllSettled jobs known batch_stage_status
unfolding text_eq
known-AllSettled = (tt, (tt, ((job_is_known, tt), (tt, (tt, (tt, tt))))))
