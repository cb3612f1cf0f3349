-- ===== src/Tests/Telemetry.antt =====
-- telemetry.py with a sink that raises.
use mathlib.Core.Bool.{false≢true}
use infinite_streaming_encod.Prelude.{
  ◌≤◌, ◌≡◌, refl, ◌≢◌, Bool, true, false, not, List, [], ◌∷◌, arith, length, last_of,
}
use infinite_streaming_encod.Prelude.Text.{
  Text, codes, text_eq, text_eq_iff, starts_with, before, strip_end, is_space,
}
use infinite_streaming_encod.Telemetry.{
  Item, Step, add, after_key, begin_warn, class_of_name, close_round, end_warn, enqueue, is_empty,
  is_gauge, is_heartbeat, is_tick, marker_class, name_max, perform, pick, queue_name, run, send,
  start, step_add, step_flush, step_send, step_take, step_tick, step_warn, take_batch, tick,
}
use infinite_streaming_encod.Telemetry.Numbering.{count_if, count_batches}
use infinite_streaming_encod.Telemetry.Queueing.{IsFaithful}
use infinite_streaming_encod.Telemetry.Delivery.{run_start-IsFaithful, run_start-handed}
use infinite_streaming_encod.Telemetry.Names.{queue_name_distinct}

abbrev halfway : Text
halfway = codes "[[ENCODER-STAGE key=v1 status=running percent=50.0]]"

abbrev finished : Text
finished = codes "[[ENCODER-STAGE key=v1 status=done percent=100.0]]"

-- A heartbeat and an event; the second call of `flush` finds nothing, and the send raises.
abbrev steps : List Step
steps =
    step_add 1000 halfway
    ∷ step_tick 2000
    ∷ step_add 2500 finished
    ∷ step_flush
    ∷ step_take 2600
    ∷ step_take 2600
    ∷ step_send true 0
    ∷ step_warn
    ∷ []

halfway_waits : is_heartbeat halfway ≡ true
unfolding is_heartbeat is_tick after_key is_gauge marker_class class_of_name starts_with before
    strip_end text_eq is_space
halfway_waits = refl

finished_goes : is_heartbeat finished ≡ false
unfolding is_heartbeat is_tick after_key is_gauge marker_class class_of_name starts_with before
    strip_end text_eq is_space
finished_goes = refl

run_start-IsFaithful_example : IsFaithful (halfway ∷ finished ∷ []) (run steps start)
run_start-IsFaithful_example = run_start-IsFaithful steps

none_left : (run steps start).flushing ≡ 0
unfolding run perform end_warn send pick take_batch add enqueue tick is_heartbeat starts_with
    is_tick is_space after_key is_empty is_gauge marker_class class_of_name before strip_end text_eq
    begin_warn close_round
none_left = refl

none_held : (run steps start).held ≡ []
unfolding run perform end_warn send pick take_batch add enqueue tick is_heartbeat starts_with
    is_tick is_space after_key is_empty is_gauge marker_class class_of_name before strip_end text_eq
    begin_warn close_round
none_held = refl

warned_once : (run steps start).printed ≡ 1
unfolding run perform end_warn send pick take_batch add enqueue tick is_heartbeat starts_with
    is_tick is_space after_key is_empty is_gauge marker_class class_of_name before strip_end text_eq
    begin_warn close_round
warned_once = refl

abbrev is_event : Item → Bool
is_event i = not (is_heartbeat i.1)

run_start-handed_example :
    count_batches is_event (run steps start).handed
    ≡ count_if is_event ((1, halfway) ∷ (2, finished) ∷ [])
run_start-handed_example =
    run_start-handed steps is_event none_left none_held (λ i h. ground (arith, h))

-- The event's call of `flush` has yet to take its batch.
abbrev begun : List Step
begun = step_add 1000 halfway ∷ step_add 2500 finished ∷ []

abbrev job : Text
job = codes "a1b2c3-movie-0f9e8d"

abbrev other : Text
other = codes "a1b2c3-movie-112233"

queue_name_distinct_example :
    (length (queue_name job) ≤ name_max) × (queue_name job ≢ queue_name other)
unfolding text_eq
queue_name_distinct_example =
    queue_name_distinct job other (omega arith) (omega arith)
      (λ e. false≢true ((text_eq_iff (last_of 7 job) (last_of 7 other)).1 e))
