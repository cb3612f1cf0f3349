-- ===== src/Drain.antt =====
-- scripts/infinite_streaming_encoder/cli_batch.py, _drain_telemetry: the markers of the workers, as
-- they come out of the telemetry queue. The sink of telemetry.py that packs them is in Drain.Sink.
-- What a receive gives is an argument; `now` is the clock, in milliseconds, after the receives.
-- A percent has six decimals at most.
pub mod Forward
pub mod Records
pub mod Replay
pub mod Sink
use infinite_streaming_encod.Prelude.{
  ℕ, zero, suc, ◌+◌, ◌-◌, ◌*◌, Bool, true, false, ◌&&◌, ◌||◌, not, Option, none, some, List, [],
  ◌∷◌, ◌++◌, ltb, leb, ◌==◌, if◌then◌else◌, length, take, drop,
}
use infinite_streaming_encod.Prelude.Text.{
  Text, codes, text_eq, starts_with, is_empty, is_digit, is_space, all_digits, value_from, before,
  strip_space_end, split,
}
use infinite_streaming_encod.Prelude.Dict.{find, assign}
use infinite_streaming_encod.Telemetry.{is_marker, is_record, is_gauge}
use infinite_streaming_encod.Stages.{Board, Line, passed, emit_stage, or_zero}
use infinite_streaming_encod.Census.{Receive, client_error, received}

-- `_TELEMETRY_GAUGE_MAX_AGE_S`.
abbrev pub gauge_max_age : ℕ
gauge_max_age = 30_000

-- A message: the empty text for a publisher that is missing, 0 for a number that is missing or
-- does not parse.
pub record Message : Type 0 where
  pub publisher : Text
  pub seq : ℕ
  pub sent : ℕ
  pub body : Text

-- The text up to the first white space, and the rest.
unfoldable pub solid_part : Text → Text
solid_part [] = []
solid_part (c ∷ s) = let rest = solid_part s in if is_space c then [] else c ∷ rest

-- `(\S+)` and then a literal.
unfoldable pub solid_then : Text → Text → Option (Text × Text)
solid_then literal text =
    let head = solid_part text in
    let rest = drop (length head) text in
    if is_empty head || not (starts_with literal rest)
    then none
    else some (head, drop (length literal) rest)

-- `([0-9.]+)`.
unfoldable pub decimal_part : Text → Text
decimal_part [] = []
decimal_part (c ∷ s) = let rest = decimal_part s in if is_digit c || c == b'.' then c ∷ rest else []

abbrev pub stage_line_key : Text
stage_line_key = codes "[[ENCODER-STAGE key="

unfoldable pub percent_then : Text → Option Text
percent_then text =
    let digits = decimal_part text in
    if is_empty digits || not (starts_with (codes "]]") (drop (length digits) text))
    then none
    else some digits

-- `_STAGE_LINE_RE`: the key, the status and the text of the percent.
unfoldable pub stage_line : Text → Option (Text × Text × Text)
stage_line line =
    if not (starts_with stage_line_key line)
    then none
    else elim (solid_then (codes " status=") (drop (length stage_line_key) line)) [
      | none ↦ none
      | some (key, rest) ↦ elim (solid_then (codes " percent=") rest) [
        | none ↦ none
        | some (status, last) ↦ elim (percent_then last) [
          | none ↦ none
          | some digits ↦ some (key, status, digits)
        ]
      ]
    ]

-- `float(…)` of digits and dots: `none` is its `ValueError`.
unfoldable pub read_percent : Text → Option ℕ
read_percent text =
    let whole = before b'.' text in
    let fraction = drop (length whole + 1) text in
    if all_digits fraction && not (is_empty whole && is_empty fraction)
    then some (value_from 0 whole * 1_000_000 + value_from 0 (take 6 (fraction ++ codes "000000")))
    else none

-- The board, `log_state["_tel_seq"]`, the two counters, and whether a `ValueError` ended the call.
pub record Drain : Type 0 where
  pub board : Board
  pub seen_seq : List (Text × ℕ)
  pub handled : ℕ
  pub suppressed : ℕ
  pub raised : Bool

unfoldable pub is_replay : List (Text × ℕ) → Message → Bool
is_replay seen m =
    not (is_empty m.publisher) && ltb 0 m.seq && leb m.seq (or_zero (find m.publisher seen))

unfoldable pub note_seq : Message → List (Text × ℕ) → List (Text × ℕ)
note_seq m seen =
    if not (is_empty m.publisher) && ltb 0 m.seq && not (is_replay seen m)
    then assign m.publisher m.seq seen
    else seen

-- The three tests that `continue`: no marker, a replay of what may be dropped, a stale gauge.
unfoldable pub is_dropped : Bool → ℕ → ℕ → Text → Bool
is_dropped replay sent now line =
    not (is_marker line)
    || (replay && not (is_record line))
    || (is_gauge line && ltb 0 sent && ltb gauge_max_age (now - sent))

abbrev pub print_marker : Text → Drain → Drain
print_marker line d = record d {
  board = record d.board { printed = d.board.printed ++ passed line ∷ [] };
  handled = d.handled + 1;
}

unfoldable pub forward_stage : Text → Text → Option ℕ → Drain → Drain
forward_stage key status none d = record d { raised = true }
forward_stage key status (some percent) d =
    let made = emit_stage key status (some percent) (codes "worker") d.board in
    record d {
      board = made.0;
      handled = if made.1 then d.handled + 1 else d.handled;
      suppressed = if made.1 then d.suppressed else d.suppressed + 1;
    }

unfoldable pub forward_marker : Text → Drain → Drain
forward_marker line d = elim (stage_line line) [
  | none ↦ print_marker line d
  | some (key, status, digits) ↦ forward_stage key status (read_percent digits) d
]

-- One line of a body.
unfoldable pub forward_line : Bool → ℕ → ℕ → Text → Drain → Drain
forward_line replay sent now line d =
    if d.raised || is_dropped replay sent now (strip_space_end line)
    then d
    else forward_marker (strip_space_end line) d

unfoldable pub forward_lines : Bool → ℕ → ℕ → List Text → Drain → Drain
forward_lines replay sent now [] d = d
forward_lines replay sent now (line ∷ lines) d =
    forward_lines replay sent now lines (forward_line replay sent now line d)

unfoldable pub forward_message : ℕ → Message → Drain → Drain
forward_message now m d =
    if d.raised
    then d
    else forward_lines (is_replay d.seen_seq m) m.sent now (split b'\n' m.body)
        (record d { seen_seq = note_seq m d.seen_seq })

unfoldable pub forward_messages : ℕ → List Message → Drain → Drain
forward_messages now [] d = d
forward_messages now (m ∷ messages) d = forward_messages now messages (forward_message now m d)

-- The receives that the time budget allows: the messages collected before an error or an empty one.
unfoldable pub collect : List (Receive Message) → List Message
collect [] = []
collect (client_error ∷ rounds) = []
collect (received [] ∷ rounds) = []
collect (received (m ∷ messages) ∷ rounds) = (m ∷ messages) ++ collect rounds

-- `_drain_telemetry`, with a queue url.
unfoldable pub drain_telemetry : ℕ → List (Receive Message) → Board → List (Text × ℕ) → Drain
drain_telemetry now rounds b seen =
    forward_messages now (collect rounds)
      (record { board = b; seen_seq = seen; handled = 0; suppressed = 0; raised = false })
