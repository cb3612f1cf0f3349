-- ===== src/Drain/Replay.antt =====
-- cli_batch.py, _drain_telemetry: a message that comes again.
use mathlib.Core.Path.{subst}
use mathlib.Core.List.{append-nil, append_assoc}
use infinite_streaming_encod.Prelude.{
  ℕ, ◌≤◌, ◌<◌, Bool, true, false, ◌||◌, not, Option, none, some, List, [], ◌∷◌, ◌++◌, ◌≡◌, inl, inr,
  refl, sym, ap, ◌∙◌, All, All-weaken, if◌then◌else◌, if_true, if_false, Bool-cases, Option-cases,
  arith,
}
use infinite_streaming_encod.Prelude.Text.{
  Text, text_eq_iff, text_eq_refl, strip_space_end, split, is_empty,
}
use infinite_streaming_encod.Prelude.Dict.{find, find-assign}
use infinite_streaming_encod.Telemetry.{is_record}
use infinite_streaming_encod.Stages.{Board, Line, passed, or_zero}
use infinite_streaming_encod.Census.{Receive}
use infinite_streaming_encod.Drain.Records.{
  is_record_line, forward_messages-raised, stage_line-is_record, gauge-is_record,
}
use infinite_streaming_encod.Drain.{
  Message, Drain, is_replay, note_seq, is_dropped, print_marker, forward_stage, forward_marker,
  forward_line, forward_lines, forward_message, forward_messages, collect, drain_telemetry,
  stage_line, read_percent,
}

-- The greatest number that is on record for a publisher.
abbrev pub last_seq : Text → List (Text × ℕ) → ℕ
last_seq publisher seen = or_zero (find publisher seen)

note_seq-grows :
    (m : Message) (publisher : Text) (seen : List (Text × ℕ))
    → last_seq publisher seen ≤ last_seq publisher (note_seq m seen)
unfolding note_seq is_replay or_zero
note_seq-grows m publisher seen =
    ground (arith, find-assign publisher m.publisher m.seq seen, text_eq_iff m.publisher publisher)

-- A message of a sequenced publisher.
abbrev pub IsNumbered : Message → Type 0
IsNumbered m = (is_empty m.publisher ≡ false) × (0 < m.seq)

note_seq-noted :
    (m : Message) (seen : List (Text × ℕ))
    → IsNumbered m
    → m.seq ≤ last_seq m.publisher (note_seq m seen)
unfolding note_seq is_replay or_zero
note_seq-noted m seen h =
    ground
      (arith, h.0, h.1, find-assign m.publisher m.publisher m.seq seen, text_eq_refl m.publisher)

forward_stage-seen :
    (key status : Text) (percent : Option ℕ) (d : Drain)
    → (forward_stage key status percent d).seen_seq ≡ d.seen_seq
unfolding forward_stage
forward_stage-seen key status none d = refl
forward_stage-seen key status (some percent) d = refl

forward_marker-seen : (line : Text) (d : Drain) → (forward_marker line d).seen_seq ≡ d.seen_seq
unfolding forward_marker
forward_marker-seen line d = elim (Option-cases (stage_line line)) [
  | inl e ↦ rw (e, forward_marker) refl
  | inr ((key, status, digits), e) ↦
      rw (e, forward_marker) (forward_stage-seen key status (read_percent digits) d)
]

forward_line-seen :
    (replay : Bool) (sent now : ℕ) (line : Text) (d : Drain)
    → (forward_line replay sent now line d).seen_seq ≡ d.seen_seq
unfolding forward_line
forward_line-seen replay sent now line d =
    elim (Bool-cases (d.raised || is_dropped replay sent now (strip_space_end line))) [
      | inl e ↦ rw e refl
      | inr e ↦ rw e (forward_marker-seen (strip_space_end line) d)
    ]

forward_lines-seen :
    (replay : Bool) (sent now : ℕ) (lines : List Text) (d : Drain)
    → (forward_lines replay sent now lines d).seen_seq ≡ d.seen_seq
unfolding forward_lines
forward_lines-seen replay sent now [] d = refl
forward_lines-seen replay sent now (line ∷ lines) d =
    forward_lines-seen replay sent now lines _ ∙ forward_line-seen replay sent now line d

forward_message-seen :
    (now : ℕ) (m : Message) (d : Drain)
    → (forward_message now m d).seen_seq ≡ (if d.raised then d.seen_seq else note_seq m d.seen_seq)
unfolding forward_message
forward_message-seen now m d = elim (Bool-cases d.raised) [
  | inl e ↦ ap Drain.seen_seq (if_true d _ e) ∙ sym (if_true d.seen_seq _ e)
  | inr e ↦
      ap Drain.seen_seq (if_false d _ e)
      ∙ forward_lines-seen (is_replay d.seen_seq m) m.sent now (split b'\n' m.body) _
      ∙ sym (if_false d.seen_seq _ e)
]

forward_message-grows :
    (now : ℕ) (m : Message) (publisher : Text) (d : Drain)
    → last_seq publisher d.seen_seq ≤ last_seq publisher (forward_message now m d).seen_seq
forward_message-grows now m publisher d =
    rw (forward_message-seen now m d) (elim (Bool-cases d.raised) [
      | inl e ↦ rw e (omega arith)
      | inr e ↦ rw e (note_seq-grows m publisher d.seen_seq)
    ])

forward_messages-grows :
    (now : ℕ) (messages : List Message) (publisher : Text) (d : Drain)
    → last_seq publisher d.seen_seq ≤ last_seq publisher (forward_messages now messages d).seen_seq
unfolding forward_messages
forward_messages-grows now [] publisher d = omega arith
forward_messages-grows now (m ∷ messages) publisher d = omega (
  arith,
  forward_message-grows now m publisher d,
  forward_messages-grows now messages publisher (forward_message now m d),
)

forward_messages-append :
    (now : ℕ) (front back : List Message) (d : Drain)
    → forward_messages now (front ++ back) d
      ≡ forward_messages now back (forward_messages now front d)
unfolding forward_messages
forward_messages-append now [] back d = refl
forward_messages-append now (m ∷ front) back d =
    forward_messages-append now front back (forward_message now m d)

-- When no `ValueError` has ended the call, the number of each message is on record.
forward_messages-noted :
    (now : ℕ) (front back : List Message) (m : Message) (d : Drain)
    → IsNumbered m
    → (forward_messages now front d).raised ≡ false
    → m.seq ≤ last_seq m.publisher (forward_messages now (front ++ m ∷ back) d).seen_seq
unfolding forward_messages
forward_messages-noted now front back m d h r =
    let e = forward_messages now front d in
    rw (forward_messages-append now front (m ∷ back) d) (
      let next = forward_message now m e in
      let noted : m.seq ≤ last_seq m.publisher next.seen_seq =
        rw (forward_message-seen now m e, r) (note_seq-noted m e.seen_seq h) in
      omega (arith, noted, forward_messages-grows now back m.publisher next))

is_replay-noted :
    (m : Message) (seen : List (Text × ℕ))
    → IsNumbered m
    → m.seq ≤ last_seq m.publisher seen
    → is_replay seen m ≡ true
unfolding is_replay
is_replay-noted m seen h k = ground (arith, h.0, h.1, k)

-- What a replay may still print: the records of its body, as they stand.
unfoldable pub records_only : List Text → List Line
records_only [] = []
records_only (line ∷ lines) =
    let rest = records_only lines in
    if is_record_line (strip_space_end line) then passed (strip_space_end line) ∷ rest else rest

abbrev pub PrintsOnly : Drain → Drain → List Line → Type 0
PrintsOnly d e lines =
    (e.board.printed ≡ d.board.printed ++ lines)
    × (e.board.state ≡ d.board.state)
    × (e.board.percents ≡ d.board.percents)
    × (e.raised ≡ d.raised)

record-forward_marker :
    (line : Text) (d : Drain) → is_record line ≡ true → forward_marker line d ≡ print_marker line d
unfolding forward_marker
record-forward_marker line d r = elim (Option-cases (stage_line line)) [
  | inl e ↦ rw (e, forward_marker) refl
  | inr (parts, e) ↦
      let no : true ≡ false = sym r ∙ stage_line-is_record line parts e in absurd (cc)
]

replay-drops :
    (sent now : ℕ) (line : Text) → is_dropped true sent now line ≡ not (is_record_line line)
unfolding is_dropped
replay-drops sent now line = ground (arith, gauge-is_record line)

forward_line-replay :
    (sent now : ℕ) (line : Text) (d : Drain)
    → d.raised ≡ false
    → forward_line true sent now line d
      ≡ (if is_record_line (strip_space_end line) then print_marker (strip_space_end line) d else d)
unfolding forward_line
forward_line-replay sent now line d r =
    let text = strip_space_end line in
    let drop = replay-drops sent now text in
    elim (Bool-cases (is_record_line text)) [
      | inl e ↦
          let goes : d.raised || is_dropped true sent now text ≡ false = ground (arith, drop) in
          if_false d _ goes ∙ record-forward_marker text d (ground arith) ∙ sym (if_true _ d e)
      | inr e ↦
          let stays : d.raised || is_dropped true sent now text ≡ true = ground (arith, drop) in
          if_true d _ stays ∙ sym (if_false _ d e)
    ]

PrintsOnly-line :
    (sent now : ℕ) (line : Text) (d : Drain)
    → d.raised ≡ false
    → PrintsOnly d (forward_line true sent now line d) (records_only (line ∷ []))
unfolding records_only
PrintsOnly-line sent now line d r =
    rw (forward_line-replay sent now line d r)
      (elim (Bool-cases (is_record_line (strip_space_end line))) [
        | inl e ↦ rw e (refl, refl, refl, refl)
        | inr e ↦ rw e (sym (append-nil _), refl, refl, refl)
      ])

records_only-cons :
    (line : Text) (lines : List Text)
    → records_only (line ∷ lines) ≡ records_only (line ∷ []) ++ records_only lines
unfolding records_only
records_only-cons line lines = elim (Bool-cases (is_record_line (strip_space_end line))) [
  | inl e ↦ rw e refl
  | inr e ↦ rw e refl
]

PrintsOnly-trans :
    (d e f : Drain) (xs ys : List Line)
    → PrintsOnly d e xs
    → PrintsOnly e f ys
    → PrintsOnly d f (xs ++ ys)
PrintsOnly-trans d e f xs ys h k = (
  k.0 ∙ ap (λ l. l ++ ys) h.0 ∙ append_assoc d.board.printed xs ys,
  k.1 ∙ h.1,
  k.2 ∙ h.2,
  k.3 ∙ h.3,
)

PrintsOnly-lines :
    (sent now : ℕ) (lines : List Text) (d : Drain)
    → d.raised ≡ false
    → PrintsOnly d (forward_lines true sent now lines d) (records_only lines)
unfolding forward_lines
PrintsOnly-lines sent now [] d r = unfold records_only in (sym (append-nil _), refl, refl, refl)
PrintsOnly-lines sent now (line ∷ lines) d r =
    let next = forward_line true sent now line d in
    let one = PrintsOnly-line sent now line d r in
    rw (records_only-cons line lines) (
      PrintsOnly-trans d next (forward_lines true sent now lines next) _ _ one
        (PrintsOnly-lines sent now lines next (one.3 ∙ r)))

replay-PrintsOnly :
    (now : ℕ) (m : Message) (d : Drain)
    → d.raised ≡ false
    → is_replay d.seen_seq m ≡ true
    → PrintsOnly d (forward_message now m d) (records_only (split b'\n' m.body))
unfolding forward_message
replay-PrintsOnly now m d r e =
    let noted = record d { seen_seq = note_seq m d.seen_seq } in
    let lines = split b'\n' m.body in
    subst (λ x. PrintsOnly d x (records_only lines))
      (sym (if_false d _ r ∙ ap (λ replay. forward_lines replay m.sent now lines noted) e))
      (PrintsOnly-lines m.sent now lines noted r)

-- What has not ended a call has not ended its first part.
front_goes_on :
    (now : ℕ) (front back : List Message) (d : Drain)
    → (forward_messages now (front ++ back) d).raised ≡ false
    → (forward_messages now front d).raised ≡ false
front_goes_on now front back d r = elim (Bool-cases (forward_messages now front d).raised) [
  | inl e ↦
      let ended = forward_messages-raised now back (forward_messages now front d) e in
      let no : true ≡ false =
        sym ended ∙ ap Drain.raised (sym (forward_messages-append now front back d)) ∙ r in
      absurd (cc)
  | inr e ↦ e
]

-- What a call that is not ended prints of replays: the records of each, in order.
abbrev pub records_only_of : List Message → List Line
records_only_of [] = []
records_only_of (m ∷ messages) = records_only (split b'\n' m.body) ++ records_only_of messages

-- Numbered messages of which a drain has already noted the number.
abbrev IsNoted : List (Text × ℕ) → Message → Type 0
IsNoted seen m = IsNumbered m × (m.seq ≤ last_seq m.publisher seen)

forward_message-IsNoted :
    (now : ℕ) (m n : Message) (d : Drain)
    → IsNoted d.seen_seq n
    → IsNoted (forward_message now m d).seen_seq n
forward_message-IsNoted now m n d h =
    (h.0, omega (arith, h.1, forward_message-grows now m n.publisher d))

PrintsOnly-messages :
    (now : ℕ) (messages : List Message) (d : Drain)
    → d.raised ≡ false
    → All (IsNoted d.seen_seq) messages
    → PrintsOnly d (forward_messages now messages d) (records_only_of messages)
unfolding forward_messages
PrintsOnly-messages now [] d r h = (sym (append-nil _), refl, refl, refl)
PrintsOnly-messages now (m ∷ messages) d r h =
    let next = forward_message now m d in
    let one = replay-PrintsOnly now m d r (is_replay-noted m d.seen_seq h.0.0 h.0.1) in
    PrintsOnly-trans d next (forward_messages now messages next) _ _ one (
      PrintsOnly-messages now messages next (one.3 ∙ r)
        (All-weaken messages (λ n k. forward_message-IsNoted now m n d k) h.1))

-- When the first drain was not ended, it has noted each numbered message that it collected.
Mem-IsNoted :
    (now : ℕ) (messages : List Message) (m : Message) (d : Drain)
    → (forward_messages now messages d).raised ≡ false
    → IsNumbered m
    → (front : List Message) × (back : List Message) × (messages ≡ front ++ m ∷ back)
    → IsNoted (forward_messages now messages d).seen_seq m
Mem-IsNoted now messages m d r h (front, back, e) = (
  h,
  subst (λ l. m.seq ≤ last_seq m.publisher (forward_messages now l d).seen_seq) (sym e)
      (forward_messages-noted now front back m d h (
        front_goes_on now front (m ∷ back) d
          (ap (λ l. (forward_messages now l d).raised) (sym e) ∙ r))),
)

-- A drain that comes after another, with the numbers that the other has noted, and that collects only
-- messages that the other has collected, in any order and any number of times, takes them for
-- replays: it prints the records of each, in order, and no stage moves. The messages are numbered by
-- their publishers, and the first drain was not ended by a percent that does not parse; neither is
-- the second.
pub drain_telemetry-replay :
    (now later : ℕ) (rounds again : List (Receive Message)) (b : Board) (seen : List (Text × ℕ))
    → (drain_telemetry now rounds b seen).raised ≡ false
    → All
        (λ m.
          IsNumbered m
          × ((front : List Message) × (back : List Message) × (collect rounds ≡ front ++ m ∷ back)))
        (collect again)
    → let first = drain_telemetry now rounds b seen in
      PrintsOnly first
        (drain_telemetry later again first.board first.seen_seq)
        (records_only_of (collect again))
unfolding drain_telemetry
drain_telemetry-replay now later rounds again b seen r h =
    let d : Drain = record {
      board = b;
      seen_seq = seen;
      handled = 0;
      suppressed = 0;
      raised = false;
    } in
    let first = forward_messages now (collect rounds) d in
    let next : Drain = record {
      board = first.board;
      seen_seq = first.seen_seq;
      handled = 0;
      suppressed = 0;
      raised = false;
    } in
    let made =
      PrintsOnly-messages later (collect again) next refl
        (All-weaken (collect again) (λ m k. Mem-IsNoted now (collect rounds) m d r k.0 k.1) h) in
    (made.0, made.1, made.2, made.3 ∙ sym r)
