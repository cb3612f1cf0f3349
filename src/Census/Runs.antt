-- ===== src/Census/Runs.antt =====
-- cli_batch.py: the census and the state queue change the board by announcements alone.
use infinite_streaming_encod.Prelude.{
  ◌||◌, Option, none, some, List, [], ◌∷◌, inl, inr, refl, All, Bool-cases, Option-cases,
}
use infinite_streaming_encod.Prelude.Text.{Text, codes}
use infinite_streaming_encod.Prelude.Dict.{find}
use infinite_streaming_encod.Stages.{Board, Call, is_prev}
use infinite_streaming_encod.Stages.Guard.{Shows, emit_all-Shows}
use infinite_streaming_encod.Jobs.{stage_key_for_job}
use infinite_streaming_encod.Census.{
  BatchJob, Census, batch_stage_status, is_terminal, known_percent, sync_stage, sync_job, sync_jobs,
  sync_statuses, sync_stages_from_batch, StateMessage, StateDrain, Receive, client_error, received,
  event_stage_status, apply_status, apply_message, apply_messages, drain_rounds, drain_state,
}
use infinite_streaming_encod.Census.Calls.{
  Announced, Announced-refl, Announced-trans, emit_stage-Announced, Translates, IsCall, call_of,
  table-Translates, Listed, All-Listed, find-All,
}

module _ (list_jobs : Text → List BatchJob) where
  -- A job that Batch lists under a status, and the call for it.
  abbrev pub IsCensusCall : Call → Type 0
  IsCensusCall call =
      (batch_status : Text) × (job : BatchJob) × Listed job (list_jobs batch_status)
      × IsCall (codes "census") job.job_name batch_status call

  sync_stage-Announced :
      (stage_status job_id key : Text) (c : Census)
      → IsCensusCall (call_of key stage_status (codes "census"))
      → Announced IsCensusCall c.board (sync_stage stage_status job_id key c).board
  unfolding sync_stage
  sync_stage-Announced stage_status job_id key c h =
      elim (Bool-cases
        (is_prev (find key c.board.state) stage_status || is_terminal (find key c.board.state))) [
          | inl e ↦ rw e (Announced-refl _ _)
          | inr e ↦ rw e (
              emit_stage-Announced IsCensusCall (call_of key stage_status (codes "census")) c.board
                h)
        ]

  sync_job-Announced :
      (batch_status stage_status : Text) (job : BatchJob) (c : Census)
      → Translates batch_status stage_status (known_percent stage_status)
      → Listed job (list_jobs batch_status)
      → Announced IsCensusCall c.board (sync_job stage_status job c).board
  unfolding sync_job
  sync_job-Announced batch_status stage_status job c t l =
      elim (Option-cases (stage_key_for_job job.job_name)) [
        | inl e ↦ rw (e, sync_job) (Announced-refl _ _)
        | inr (key, e) ↦
            rw (e, sync_job)
              (sync_stage-Announced stage_status job.job_id key c
                (batch_status, job, l, (refl, e, t)))
      ]

  sync_jobs-Announced :
      (batch_status stage_status : Text) (jobs : List BatchJob) (c : Census)
      → Translates batch_status stage_status (known_percent stage_status)
      → All (λ job. Listed job (list_jobs batch_status)) jobs
      → Announced IsCensusCall c.board (sync_jobs stage_status jobs c).board
  unfolding sync_jobs
  sync_jobs-Announced batch_status stage_status [] c t h = Announced-refl _ _
  sync_jobs-Announced batch_status stage_status (job ∷ jobs) c t h =
      Announced-trans _ c.board (sync_job stage_status job c).board _
        (sync_job-Announced batch_status stage_status job c t h.0)
        (sync_jobs-Announced batch_status stage_status jobs (sync_job stage_status job c) t h.1)

  sync_statuses-Announced :
      (table : List (Text × Text)) (c : Census)
      → All (λ (row : Text × Text). Translates row.0 row.1 (known_percent row.1)) table
      → Announced IsCensusCall c.board (sync_statuses list_jobs table c).board
  unfolding sync_statuses
  sync_statuses-Announced [] c h = Announced-refl _ _
  sync_statuses-Announced ((status, stage_status) ∷ rest) c h =
      Announced-trans _ c.board (sync_jobs stage_status (list_jobs status) c).board _
        (sync_jobs-Announced status stage_status (list_jobs status) c h.0
          (All-Listed (list_jobs status)))
        (sync_statuses-Announced rest (sync_jobs stage_status (list_jobs status) c) h.1)

module _ (rounds : List (Receive (Option StateMessage))) where
  abbrev IsReceived : StateMessage → Type 0
  IsReceived m =
      (messages : List (Option StateMessage)) × Listed (received messages) rounds
      × Listed (some m) messages

  -- A message that a receive gives, and the call for it.
  abbrev pub IsEventCall : Call → Type 0
  IsEventCall call =
      (m : StateMessage) × IsReceived m × IsCall (codes "event") m.job_name m.status call

  apply_status-Announced :
      (m : StateMessage) (key status : Text) (d : StateDrain)
      → IsEventCall (call_of key status (codes "event"))
      → Announced IsEventCall d.board (apply_status m key status d).board
  unfolding apply_status
  apply_status-Announced m key status d h =
      emit_stage-Announced IsEventCall (call_of key status (codes "event")) d.board h

  apply_message-Announced :
      (messages : List (Option StateMessage)) (m : Option StateMessage) (d : StateDrain)
      → Listed (received messages) rounds
      → Listed m messages
      → Announced IsEventCall d.board (apply_message m d).board
  unfolding apply_message
  apply_message-Announced messages none d r l = Announced-refl _ _
  apply_message-Announced messages (some m) d r l =
      elim (Option-cases (stage_key_for_job m.job_name)) [
        | inl e ↦ rw (e, apply_message) (Announced-refl _ _)
        | inr (key, e) ↦ elim (Option-cases (find m.status event_stage_status)) [
          | inl f ↦ rw (e, f, apply_message) (Announced-refl _ _)
          | inr (status, f) ↦
              rw (e, f, apply_message)
                (apply_status-Announced m key status d (
                  m,
                  (messages, r, l),
                  (
                    refl,
                    e,
                    find-All (λ x y. Translates x y (known_percent y)) m.status status
                        event_stage_status table-Translates f,
                  ),
                ))
        ]
      ]

  apply_messages-Announced :
      (messages rest : List (Option StateMessage)) (d : StateDrain)
      → Listed (received messages) rounds
      → All (λ m. Listed m messages) rest
      → Announced IsEventCall d.board (apply_messages rest d).board
  unfolding apply_messages
  apply_messages-Announced messages [] d r h = Announced-refl _ _
  apply_messages-Announced messages (m ∷ rest) d r h =
      Announced-trans _ d.board (apply_message m d).board _
        (apply_message-Announced messages m d r h.0)
        (apply_messages-Announced messages rest (apply_message m d) r h.1)

  drain_rounds-Announced :
      (rest : List (Receive (Option StateMessage))) (d : StateDrain)
      → All (λ round. Listed round rounds) rest
      → Announced IsEventCall d.board (drain_rounds rest d).board
  unfolding drain_rounds
  drain_rounds-Announced [] d h = Announced-refl _ _
  drain_rounds-Announced (client_error ∷ rest) d h = Announced-refl _ _
  drain_rounds-Announced (received [] ∷ rest) d h = Announced-refl _ _
  drain_rounds-Announced (received (m ∷ messages) ∷ rest) d h =
      Announced-trans _ d.board (apply_messages (m ∷ messages) d).board _
        (apply_messages-Announced (m ∷ messages) (m ∷ messages) d h.0 (All-Listed (m ∷ messages)))
        (drain_rounds-Announced rest (apply_messages (m ∷ messages) d) h.1)

-- A census changes the board by announcements alone, each for a job that Batch lists under a status,
-- and a drain of the state queue by announcements alone, each for a message that was received. The
-- call is for the stage that the name of the job stands for, with what the status means: queued for
-- SUBMITTED and RUNNABLE, starting for STARTING, running for RUNNING, failed for FAILED, without a
-- percent, and done at 100 for SUCCEEDED. So the markers that they print for a stage go forward.
pub sources-Shows :
    (list_jobs : Text → List BatchJob) (rounds : List (Receive (Option StateMessage))) (b : Board)
    (key : Text)
    → Announced (IsCensusCall list_jobs) b (sync_stages_from_batch list_jobs b).0.board
      × Announced (IsEventCall rounds) b (drain_state rounds b).board
      × Shows key b (sync_stages_from_batch list_jobs b).0.board
      × Shows key b (drain_state rounds b).board
unfolding sync_stages_from_batch drain_state
sources-Shows list_jobs rounds b key =
    let census =
      sync_statuses-Announced list_jobs batch_stage_status
        (record { board = b; newly_announced = []; repairs = 0 }) table-Translates in
    let event =
      drain_rounds-Announced rounds rounds (record { board = b; applied = 0; hosts = [] })
        (All-Listed rounds) in
    (
      census,
      event,
      rw (← census.1) (emit_all-Shows key census.0 b),
      rw (← event.1) (emit_all-Shows key event.0 b),
    )
