-- ===== src/Telemetry.antt =====
-- scripts/infinite_streaming_encoder/telemetry.py: which markers may wait, the publisher that
-- batches them, and the names of the queues that they go to.
-- Texts are ASCII, and the clock is a number of milliseconds. A step is what one thread does between
-- two points where others can come between: what it does under the lock, a call of the sink outside
-- the lock, the test and the count of a warning.
pub mod Markers
pub mod Numbering
pub mod Queueing
pub mod Batches
pub mod Sending
pub mod Items
pub mod Delivery
pub mod Settling
pub mod Names
pub mod Sink
use infinite_streaming_encod.Prelude.{
  ℕ, zero, suc, ◌+◌, ◌-◌, Bool, true, false, ◌||◌, ◌&&◌, not, Option, none, some, List, [], ◌∷◌,
  ◌++◌, ltb, leb, ◌==◌, if◌then◌else◌, length, take, drop, last_of,
}
use infinite_streaming_encod.Prelude.Text.{
  Text, codes, text_eq, starts_with, before, strip_end, is_space,
}

abbrev pub queue_prefix : Text
queue_prefix = codes "encoder-telemetry-"

abbrev pub queue_suffix : Text
queue_suffix = codes ".fifo"

-- `_SQS_NAME_MAX`.
abbrev pub name_max : ℕ
name_max = 80

-- `trim_execution_name`, for a `room` of 7 or more.
unfoldable pub trim_execution_name : Text → ℕ → Text
trim_execution_name name room =
    if leb (length name) room then name else take (room - 7) name ++ last_of 7 name

unfoldable pub queue_name : Text → Text
queue_name name =
    let room = name_max - length queue_prefix - length queue_suffix in
    queue_prefix ++ trim_execution_name name room ++ queue_suffix

-- `_BATCH_MAX`, `_BATCH_MAX_AGE_S` and `_MAX_WARNINGS`.
abbrev pub batch_max : ℕ
batch_max = 10

abbrev pub batch_max_age : ℕ
batch_max_age = 3000

abbrev pub max_warnings : ℕ
max_warnings = 3

abbrev pub marker_prefix : Text
marker_prefix = codes "[[ENCODER-"

unfoldable pub is_marker : Text → Bool
is_marker line = starts_with marker_prefix line

pub data MarkerClass : Type 0 where
  live gauge record_class : MarkerClass

-- `_CLASS_BY_NAME.get(name, CLASS_RECORD)`.
unfoldable pub class_of_name : Text → MarkerClass
class_of_name name =
    if text_eq name (codes "STAGE")
    then live
    else if text_eq name (codes "FLEET")
    then gauge
    else record_class

unfoldable pub marker_class : Text → MarkerClass
marker_class line = class_of_name (strip_end b']' (before b' ' (drop (length marker_prefix) line)))

unfoldable pub is_record : Text → Bool
is_record line = elim (marker_class line) [ record_class ↦ true | _ ↦ false ]

unfoldable pub is_gauge : Text → Bool
is_gauge line = elim (marker_class line) [ gauge ↦ true | _ ↦ false ]

abbrev pub stage_key : Text
stage_key = codes "[[ENCODER-STAGE key="

abbrev pub running_percent : Text
running_percent = codes " status=running percent="

-- `\S+ status=running percent=(?!0\.0\]|100\.0\])`: `\S+` ends at the first white space.
unfoldable pub after_key : Text → Text
after_key [] = []
after_key (c ∷ s) = if is_space c then c ∷ s else after_key s

unfoldable pub is_tick : Text → Bool
is_tick [] = false
is_tick (c ∷ s) =
    not (is_space c)
    && (let rest = after_key s in
        starts_with running_percent rest
        && (let percent = drop (length running_percent) rest in
            not (starts_with (codes "0.0]") percent || starts_with (codes "100.0]") percent)))

unfoldable pub is_heartbeat : Text → Bool
is_heartbeat line =
    (starts_with stage_key line && is_tick (drop (length stage_key) line)) || is_gauge line

abbrev pub Item : Type 0
Item = ℕ × Text

-- `_Publisher`, and where its threads stand. `handed` are the calls of `sink.send`, in their order,
-- `printed` the warnings on stderr. `flushing` counts the calls of `flush` that have not yet taken the
-- lock, `held` are the batches that such calls have taken under the lock and not yet sent, and
-- `warning` counts the calls of `_warn` that have passed the test and not yet counted themselves.
pub record Publisher : Type 0 where
  pub buf : List Item
  pub oldest : ℕ
  pub seq : ℕ
  pub stopped : Bool
  pub sink_closed : Bool
  pub flushing : ℕ
  pub held : List (List Item)
  pub handed : List (List Item)
  pub warning : ℕ
  pub warned : ℕ
  pub printed : ℕ

abbrev pub start : Publisher
start = record {
  buf = [];
  oldest = 0;
  seq = 0;
  stopped = false;
  sink_closed = false;
  flushing = 0;
  held = [];
  handed = [];
  warning = 0;
  warned = 0;
  printed = 0;
}

unfoldable pub is_empty {ℓ} : {A : Type ℓ} → List A → Bool
is_empty [] = true
is_empty (x ∷ xs) = false

abbrev pub call_flush : Publisher → Publisher
call_flush p = record p { flushing = p.flushing + 1 }

-- What `add` does under the lock.
unfoldable pub enqueue : ℕ → Text → Publisher → Publisher
enqueue now marker p = record p {
  oldest = if is_empty p.buf then now else p.oldest;
  seq = p.seq + 1;
  buf = p.buf ++ ((p.seq + 1, marker) ∷ []);
}

-- `add`, up to its call of `flush`: the test reads what was computed under the lock.
unfoldable pub add : ℕ → Text → Publisher → Publisher
add now marker p =
    let p' = enqueue now marker p in
    if leb batch_max (length p'.buf) || not (is_heartbeat marker) then call_flush p' else p'

abbrev pub with_batch : List Item → List (List Item) → List (List Item)
with_batch [] held = held
with_batch (i ∷ batch) held = held ++ (i ∷ batch) ∷ []

-- What a call of `flush` does under the lock; an empty batch ends it. `n` further calls remain.
abbrev pub take_from_buf : ℕ → ℕ → Publisher → Publisher
take_from_buf now n p =
    let rest = drop batch_max p.buf in
    record p {
      flushing = n;
      buf = rest;
      oldest = if is_empty rest then 0 else now;
      held = with_batch (take batch_max p.buf) p.held;
    }

unfoldable pub take_batch : ℕ → Publisher → Publisher
take_batch now p = elim p.flushing [ zero ↦ p | suc n ↦ take_from_buf now n p ]

abbrev pub with_first :
    List Item → Option (List Item × List (List Item)) → Option (List Item × List (List Item))
with_first b none = none
with_first b (some (c, rest)) = some (c, b ∷ rest)

-- The `k`-th batch, and the others.
unfoldable pub pick : ℕ → List (List Item) → Option (List Item × List (List Item))
pick k [] = none
pick zero (b ∷ bs) = some (b, bs)
pick (suc k) (b ∷ bs) = with_first b (pick k bs)

-- `_warn`, up to its count: the test is not under a lock.
unfoldable pub begin_warn : Publisher → Publisher
begin_warn p = if leb max_warnings p.warned then p else record p { warning = p.warning + 1 }

unfoldable pub end_warn : Publisher → Publisher
end_warn p = elim p.warning [
  | zero ↦ p
  | suc n ↦ record p { warning = n; warned = p.warned + 1; printed = p.printed + 1 }
]

-- `self._sink.send(batch)`, outside the lock, and its `except`.
unfoldable pub send : Bool → ℕ → Publisher → Publisher
send raises k p = elim (pick k p.held) [
  | none ↦ p
  | some (batch, rest) ↦
      let p' = record p { held = rest; handed = p.handed ++ batch ∷ [] } in
      if raises then begin_warn p' else p'
]

-- One round of `_loop`, up to its call of `flush`.
unfoldable pub tick : ℕ → Publisher → Publisher
tick now p =
    if not p.stopped && (not (is_empty p.buf) && leb batch_max_age (now - p.oldest))
    then call_flush p
    else p

-- One round of the `while True` of `close`, up to its call of `flush` or to the end of the call.
unfoldable pub close_round : Publisher → Publisher
close_round p =
    if not p.stopped
    then p
    else if is_empty p.buf
    then record p { sink_closed = true }
    else call_flush p

-- A step of one of the threads: the worker threads, the flush thread, and those in `close`.
pub data Step : Type 0 where
  step_add : ℕ → Text → Step
  step_tick : ℕ → Step
  step_flush : Step
  step_stop : Step
  step_close : Step
  step_take : ℕ → Step
  step_send : Bool → ℕ → Step
  step_warn : Step

unfoldable pub perform : Step → Publisher → Publisher
perform (step_add now marker) p = add now marker p
perform (step_tick now) p = tick now p
perform step_flush p = call_flush p
perform step_stop p = record p { stopped = true }
perform step_close p = close_round p
perform (step_take now) p = take_batch now p
perform (step_send raises k) p = send raises k p
perform step_warn p = end_warn p

-- Any interleaving of the threads.
unfoldable pub run : List Step → Publisher → Publisher
run [] p = p
run (s ∷ steps) p = run steps (perform s p)
