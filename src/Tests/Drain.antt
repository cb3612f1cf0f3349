-- ===== src/Tests/Drain.antt =====
-- cli_batch.py and telemetry.py, from the publisher of a worker to the drain of the orchestrator.
use mathlib.Core.Path.{subst}
use mathlib.Core.List.{Perm}
use mathlib.Core.List.Perm
use infinite_streaming_encod.Prelude.{
  ℕ, ◌+◌, ◌≡◌, ◌⊎◌, refl, ◌==◌, ◌&&◌, not, Bool, true, false, List, [], ◌∷◌, ◌++◌, All, keep_if,
  map, arith,
}
use infinite_streaming_encod.Prelude.Text.{
  Free, Text, add_first, all_digits, before, codes, decimal, decimal_from, is_digit, is_empty,
  is_space, join, split, starts_with, strip_end, strip_space_end, text_eq, value_from,
}
use infinite_streaming_encod.Stages.{
  announce, carried, emit_stage, empty_board, is_in, is_stale, rank, rendered_width,
}
use infinite_streaming_encod.Census.{Receive, client_error, received}
use infinite_streaming_encod.Telemetry.{
  Step, add, after_key, begin_warn, class_of_name, close_round, end_warn, enqueue,
  is_empty as is_empty_buf, is_gauge, is_heartbeat, is_marker, is_record, is_tick, marker_class,
  perform, pick, run, send, start, step_add, step_send, step_take, step_tick, take_batch, tick,
}
use infinite_streaming_encod.Telemetry.Numbering.{count_if}
use infinite_streaming_encod.Telemetry.Queueing.{added}
use infinite_streaming_encod.Telemetry.Sink.{
  Entry, entry_for, new_sink, sink_send, sink_send_all, sink_warn,
}
use infinite_streaming_encod.Drain.{
  Message, collect, decimal_part, drain_telemetry, forward_line, forward_lines, forward_marker,
  forward_message, forward_messages, forward_stage, is_dropped, is_replay, note_seq, percent_then,
  read_percent, solid_part, solid_then, stage_line,
}
use infinite_streaming_encod.Drain.Records.{
  records_printed, records_of, is_record_line, drain_telemetry-Prints,
}
use infinite_streaming_encod.Drain.Replay.{
  PrintsOnly, records_only_of, IsNumbered, drain_telemetry-replay,
}
use infinite_streaming_encod.Drain.Sink.{IsPlain, drain_telemetry-run, message_of, msg_seq}
use infinite_streaming_encod.Prelude.Dict.{assign, find}

abbrev half : Text
half = codes "[[ENCODER-STAGE key=v status=running percent=50.0]]"

abbrev timing : Text
timing = codes "[[ENCODER-TIMING s=3]]"

abbrev packed : Message
packed = record { publisher = codes "p"; seq = 1; sent = 0; body = half ++ 10 ∷ timing }

abbrev rounds : List (Receive Message)
rounds = received (packed ∷ []) ∷ client_error ∷ []

drain_telemetry-Prints_example :
    ((drain_telemetry 0 rounds empty_board []).raised ≡ true)
    ⊎ (records_printed (drain_telemetry 0 rounds empty_board []).board.printed
        ≡ records_printed empty_board.printed ++ records_of (collect rounds))
drain_telemetry-Prints_example = drain_telemetry-Prints 0 rounds empty_board []

printed : records_printed (drain_telemetry 0 rounds empty_board []).board.printed ≡ timing ∷ []
unfolding records_printed drain_telemetry forward_messages collect forward_message forward_lines
    split forward_line is_dropped is_marker starts_with strip_space_end is_space is_replay is_empty
    find is_gauge decimal_part forward_marker forward_stage note_seq percent_then read_percent
    solid_part solid_then stage_line assign add_first all_digits before is_digit strip_end text_eq
    value_from announce carried emit_stage is_in is_stale rank rendered_width class_of_name
    is_record marker_class
printed = refl

-- A percent that does not parse ends the call, and the record behind it is lost.
abbrev broken : Message
broken = record {
  publisher = codes "p";
  seq = 1;
  sent = 0;
  body = codes "[[ENCODER-STAGE key=v status=running percent=5.0.0]]" ++ 10 ∷ timing;
}

lost :
    let d = drain_telemetry 0 (received (broken ∷ []) ∷ []) empty_board [] in
    (d.raised ≡ true) × (records_printed d.board.printed ≡ [])
unfolding drain_telemetry forward_messages collect forward_message forward_lines split forward_line
    is_dropped is_marker starts_with strip_space_end is_space is_replay is_empty find is_gauge
    marker_class decimal_part forward_marker forward_stage note_seq percent_then read_percent
    solid_part solid_then stage_line assign add_first all_digits before is_digit strip_end text_eq
    value_from announce carried emit_stage is_in is_stale rank rendered_width class_of_name
    is_record records_printed
lost = (refl, refl)

packed-IsNumbered : IsNumbered packed
unfolding is_empty
packed-IsNumbered = (refl, omega arith)

goes_on : (drain_telemetry 0 rounds empty_board []).raised ≡ false
unfolding drain_telemetry forward_messages collect forward_message forward_lines split forward_line
    is_dropped is_marker starts_with strip_space_end is_space is_replay is_empty find is_gauge
    marker_class decimal_part forward_marker forward_stage note_seq percent_then read_percent
    solid_part solid_then stage_line assign add_first all_digits before is_digit strip_end text_eq
    value_from announce carried emit_stage is_in is_stale rank rendered_width class_of_name
    is_record
goes_on = refl

collected :
    All
      (λ m.
        IsNumbered m
        × ((front : List Message) × (back : List Message) × (collect rounds ≡ front ++ m ∷ back)))
      (collect rounds)
unfolding collect
collected = ((packed-IsNumbered, ([], [], refl)), tt)

drain_telemetry-replay_example :
    let first = drain_telemetry 0 rounds empty_board [] in
    PrintsOnly first
      (drain_telemetry 9 rounds first.board first.seen_seq)
      (records_only_of (collect rounds))
drain_telemetry-replay_example =
    drain_telemetry-replay 0 9 rounds rounds empty_board [] goes_on collected

abbrev never : ℕ → Bool
never k = false

abbrev at_once : Entry → ℕ
at_once e = 0

abbrev steps : List Step
steps =
    step_add 1000 half
    ∷ step_tick 2000
    ∷ step_add 2500 timing
    ∷ step_take 2600
    ∷ step_send false 0
    ∷ []

abbrev lacks : ℕ → Text → Bool
lacks c [] = true
lacks c (d ∷ s) = not (d == c) && lacks c s

Free-lacks : (c : ℕ) (s : Text) → lacks c s ≡ true → Free c s
Free-lacks c [] h = tt
Free-lacks c (d ∷ s) h = (ground arith, Free-lacks c s (ground arith))

half-Free : Free 10 half
half-Free = Free-lacks 10 half refl

timing-Free : Free 10 timing
timing-Free = Free-lacks 10 timing refl

steps-IsPlain : All IsPlain (added steps)
unfolding strip_space_end is_space
steps-IsPlain = ((half-Free, refl, omega arith), ((timing-Free, refl, omega arith), tt))

none_left : (run steps start).flushing ≡ 0
unfolding run perform send pick take_batch add enqueue tick is_heartbeat starts_with is_tick
    is_space after_key is_empty_buf is_gauge marker_class class_of_name before strip_end text_eq
none_left = refl

none_held : (run steps start).held ≡ []
unfolding run perform send pick take_batch add enqueue tick is_heartbeat starts_with is_tick
    is_space after_key is_empty_buf is_gauge marker_class class_of_name before strip_end text_eq
none_held = refl

queued :
    collect rounds
    ≡ map
        (message_of at_once)
        (sink_send_all never (codes "p") (run steps start).handed new_sink).accepted
unfolding sink_send_all collect class_of_name before decimal decimal_from join strip_end text_eq
    entry_for sink_send sink_warn begin_warn close_round end_warn run perform send pick take_batch
    add enqueue tick is_heartbeat starts_with is_tick is_space after_key is_empty_buf is_gauge
    marker_class message_of msg_seq all_digits is_digit is_empty value_from
queued = refl

drain_telemetry-run_example :
    ((drain_telemetry 0 rounds empty_board []).raised ≡ true)
    ⊎ (count_if
          (text_eq timing)
          (records_printed (drain_telemetry 0 rounds empty_board []).board.printed)
        ≡ count_if (text_eq timing) (records_printed empty_board.printed)
          + count_if (text_eq timing) (keep_if is_record_line (added steps)))
drain_telemetry-run_example =
    drain_telemetry-run never (codes "p") at_once (λ k. refl) steps steps-IsPlain none_left
      none_held 0 rounds empty_board []
      (subst (Perm (collect rounds)) queued (Perm.refl (collect rounds))) (text_eq timing)
