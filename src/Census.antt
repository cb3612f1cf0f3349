-- ===== src/Census.antt =====
-- scripts/infinite_streaming_encoder/cli_batch.py: the two sources of stage state that Batch itself
-- gives, the census of its jobs and the queue of its state changes.
-- What AWS answers is an argument: the jobs of a status, and the result of each receive.
pub mod Calls
pub mod Runs
pub mod Batches
use infinite_streaming_encod.Prelude.{
  ℕ, zero, suc, ◌+◌, Bool, true, false, ◌&&◌, ◌||◌, Option, none, some, List, [], ◌∷◌, ◌++◌,
  if◌then◌else◌, is_nil, take, drop, length,
}
use infinite_streaming_encod.Prelude.Text.{Text, codes, text_eq, is_empty}
use infinite_streaming_encod.Prelude.Dict.{find}
use infinite_streaming_encod.Stages.{Board, full, is_in, is_prev, is_known, emit_stage}
use infinite_streaming_encod.Jobs.{stage_key_for_job}

-- `_BATCH_STAGE_STATUS`, `_TERMINAL_STAGE`.
abbrev pub batch_stage_status : List (Text × Text)
batch_stage_status =
    (codes "SUBMITTED", codes "queued")
    ∷ (codes "RUNNABLE", codes "queued")
    ∷ (codes "RUNNING", codes "running")
    ∷ (codes "STARTING", codes "starting")
    ∷ (codes "SUCCEEDED", codes "done")
    ∷ (codes "FAILED", codes "failed")
    ∷ []

abbrev pub terminal_stage : List Text
terminal_stage = codes "done" ∷ codes "failed" ∷ []

-- `_EVENT_STAGE_STATUS`, which repeats two entries of the other table.
abbrev pub event_stage_status : List (Text × Text)
event_stage_status = batch_stage_status

-- A job of `_list_exec_jobs`, the empty text for an id that is missing.
pub record BatchJob : Type 0 where
  pub job_name : Text
  pub job_id : Text

pub record Census : Type 0 where
  pub board : Board
  pub newly_announced : List Text
  pub repairs : ℕ

-- `100.0 if status == "done" else None`.
abbrev pub known_percent : Text → Option ℕ
known_percent status = if text_eq status (codes "done") then some full else none

abbrev pub has_machine : Text → Bool
has_machine status = is_in status (codes "running" ∷ codes "starting" ∷ codes "done" ∷ [])

unfoldable pub is_terminal : Option Text → Bool
is_terminal none = false
is_terminal (some prev) = is_in prev terminal_stage

-- The loop body, for a job with a stage of this key.
unfoldable pub sync_stage : Text → Text → Text → Census → Census
sync_stage stage_status job_id key c =
    let prev = find key c.board.state in
    if is_prev prev stage_status || is_terminal prev
    then c
    else (let made =
          emit_stage key stage_status (known_percent stage_status) (codes "census") c.board in
        record {
          board = made.0;
          newly_announced =
              if has_machine stage_status && (if is_empty job_id then false else true)
              then c.newly_announced ++ job_id ∷ []
              else c.newly_announced;
          repairs = if made.1 && is_known prev then c.repairs + 1 else c.repairs;
        })

unfoldable pub sync_job : Text → BatchJob → Census → Census
sync_job stage_status job c = elim (stage_key_for_job job.job_name) [
  | none ↦ c
  | some key ↦ sync_stage stage_status job.job_id key c
]

unfoldable pub sync_jobs : Text → List BatchJob → Census → Census
sync_jobs stage_status [] c = c
sync_jobs stage_status (job ∷ jobs) c = sync_jobs stage_status jobs (sync_job stage_status job c)

unfoldable pub sync_statuses : (Text → List BatchJob) → List (Text × Text) → Census → Census
sync_statuses list_jobs [] c = c
sync_statuses list_jobs ((status, stage_status) ∷ rest) c =
    sync_statuses list_jobs rest (sync_jobs stage_status (list_jobs status) c)

-- `describe_jobs caps at 100`.
abbrev pub describe_max : ℕ
describe_max = 100

-- The slices of the loop over `range(0, len(ids), 100)`; as much fuel as there are ids is enough.
unfoldable pub slices : ℕ → List Text → List (List Text)
slices zero ids = []
slices (suc fuel) ids =
    let rest = slices fuel (drop describe_max ids) in
    if is_nil ids then [] else take describe_max ids ∷ rest

-- `_sync_stages_from_batch`: the census, and the lists of ids that are described.
unfoldable pub sync_stages_from_batch : (Text → List BatchJob) → Board → Census × List (List Text)
sync_stages_from_batch list_jobs b =
    let c =
      sync_statuses list_jobs batch_stage_status
        (record { board = b; newly_announced = []; repairs = 0 }) in
    (c, slices (length c.newly_announced) c.newly_announced)

-- A message of the state queue whose body is JSON: the empty text for what is missing.
pub record StateMessage : Type 0 where
  pub job_name : Text
  pub status : Text
  pub instance_arn : Text

-- What one receive gives: a `ClientError`, or the messages, of which a body may not parse.
pub data Receive {ℓ} (M : Type ℓ) : Type ℓ where
  client_error : Receive M
  received : List M → Receive M

pub record StateDrain : Type 0 where
  pub board : Board
  pub applied : ℕ
  pub hosts : List (Text × Text)

unfoldable pub apply_status : StateMessage → Text → Text → StateDrain → StateDrain
apply_status m key status d =
    let made = emit_stage key status (known_percent status) (codes "event") d.board in
    record {
      board = made.0;
      applied = if made.1 then d.applied + 1 else d.applied;
      hosts =
          if has_machine status && (if is_empty m.instance_arn then false else true)
          then d.hosts ++ (m.job_name, m.instance_arn) ∷ []
          else d.hosts;
    }

unfoldable pub apply_message : Option StateMessage → StateDrain → StateDrain
apply_message none d = d
apply_message (some m) d = elim (stage_key_for_job m.job_name) [
  | none ↦ d
  | some key ↦ elim (find m.status event_stage_status) [
    | none ↦ d
    | some status ↦ apply_status m key status d
  ]
]

unfoldable pub apply_messages : List (Option StateMessage) → StateDrain → StateDrain
apply_messages [] d = d
apply_messages (m ∷ rest) d = apply_messages rest (apply_message m d)

-- The rounds that the time budget allows, each with the result of its receive.
unfoldable pub drain_rounds : List (Receive (Option StateMessage)) → StateDrain → StateDrain
drain_rounds [] d = d
drain_rounds (client_error ∷ rest) d = d
drain_rounds (received [] ∷ rest) d = d
drain_rounds (received (m ∷ msgs) ∷ rest) d = drain_rounds rest (apply_messages (m ∷ msgs) d)

-- `_drain_state`, with a queue url.
unfoldable pub drain_state : List (Receive (Option StateMessage)) → Board → StateDrain
drain_state rounds b = drain_rounds rounds (record { board = b; applied = 0; hosts = [] })
