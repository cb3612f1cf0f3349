-- ===== src/Drain/Forward.antt =====
-- cli_batch.py, _drain_telemetry: what a drain does to the stages, and which markers it passes on.
use infinite_streaming_encod.Prelude.{
  ℕ, Bool, true, false, ◌||◌, Option, none, some, List, [], ◌∷◌, inl, inr, refl, ◌∙◌, if◌then◌else◌,
  Bool-cases, Option-cases,
}
use infinite_streaming_encod.Prelude.Text.{Text, codes, strip_space_end, split}
use infinite_streaming_encod.Stages.{Board, passed, shown}
use infinite_streaming_encod.Stages.Guard.{
  Shows, Shows-refl, Shows-trans, emit_stage-Shows, shown-append,
}
use infinite_streaming_encod.Census.{Receive}
use infinite_streaming_encod.Drain.{
  Message, Drain, is_replay, note_seq, is_dropped, print_marker, forward_stage, forward_marker,
  forward_line, forward_lines, forward_message, forward_messages, collect, drain_telemetry,
  stage_line, read_percent,
}

print_marker-Shows : (key line : Text) (d : Drain) → Shows key d.board (print_marker line d).board
print_marker-Shows key line d =
    ([], shown-append key d.board.printed (passed line ∷ []) ∙ (unfold shown in refl), tt, refl)

forward_stage-Shows :
    (key k status : Text) (percent : Option ℕ) (d : Drain)
    → Shows key d.board (forward_stage k status percent d).board
unfolding forward_stage
forward_stage-Shows key k status none d = Shows-refl key d.board
forward_stage-Shows key k status (some percent) d =
    emit_stage-Shows key k status (codes "worker") (some percent) d.board

forward_marker-Shows :
    (key line : Text) (d : Drain) → Shows key d.board (forward_marker line d).board
unfolding forward_marker
forward_marker-Shows key line d = elim (Option-cases (stage_line line)) [
  | inl e ↦ rw (e, forward_marker) (print_marker-Shows key line d)
  | inr ((k, status, digits), e) ↦
      rw (e, forward_marker) (forward_stage-Shows key k status (read_percent digits) d)
]

forward_line-Shows :
    (key : Text) (replay : Bool) (sent now : ℕ) (line : Text) (d : Drain)
    → Shows key d.board (forward_line replay sent now line d).board
unfolding forward_line
forward_line-Shows key replay sent now line d =
    elim (Bool-cases (d.raised || is_dropped replay sent now (strip_space_end line))) [
      | inl e ↦ rw e (Shows-refl key d.board)
      | inr e ↦ rw e (forward_marker-Shows key (strip_space_end line) d)
    ]

forward_lines-Shows :
    (key : Text) (replay : Bool) (sent now : ℕ) (lines : List Text) (d : Drain)
    → Shows key d.board (forward_lines replay sent now lines d).board
unfolding forward_lines
forward_lines-Shows key replay sent now [] d = Shows-refl key d.board
forward_lines-Shows key replay sent now (line ∷ lines) d =
    let next = forward_line replay sent now line d in
    Shows-trans key d.board next.board _ (forward_line-Shows key replay sent now line d)
      (forward_lines-Shows key replay sent now lines next)

if-Shows :
    (key : Text) (b : Board) (t : Bool) (x y : Drain)
    → Shows key b x.board
    → Shows key b y.board
    → Shows key b (if t then x else y).board
if-Shows key b true x y h k = h
if-Shows key b false x y h k = k

forward_message-Shows :
    (key : Text) (now : ℕ) (m : Message) (d : Drain)
    → Shows key d.board (forward_message now m d).board
unfolding forward_message
forward_message-Shows key now m d = if-Shows key d.board d.raised d _ (Shows-refl key d.board) (
    forward_lines-Shows key (is_replay d.seen_seq m) m.sent now (split b'\n' m.body)
      (record d { seen_seq = note_seq m d.seen_seq }))

forward_messages-Shows :
    (key : Text) (now : ℕ) (messages : List Message) (d : Drain)
    → Shows key d.board (forward_messages now messages d).board
unfolding forward_messages
forward_messages-Shows key now [] d = Shows-refl key d.board
forward_messages-Shows key now (m ∷ messages) d =
    let next = forward_message now m d in
    Shows-trans key d.board next.board _ (forward_message-Shows key now m d)
      (forward_messages-Shows key now messages next)

-- Whatever is in the telemetry queue, and however the workers' markers are delayed, repeated or
-- mixed with what Batch said, the markers that a drain prints for a stage go forward.
pub drain_telemetry-Shows :
    (key : Text) (now : ℕ) (rounds : List (Receive Message)) (b : Board) (seen : List (Text × ℕ))
    → Shows key b (drain_telemetry now rounds b seen).board
unfolding drain_telemetry
drain_telemetry-Shows key now rounds b seen = forward_messages-Shows key now (collect rounds) _
