-- ===== src/Drain/Records.antt =====
-- cli_batch.py, _drain_telemetry: a record is never lost, not even one that comes again.
use mathlib.Core.List.{append-nil, append_assoc}
use infinite_streaming_encod.Prelude.{
  ℕ, Bool, true, false, ◌&&◌, ◌||◌, not, Option, none, some, List, [], ◌∷◌, ◌++◌, ◌≡◌, ◌⊎◌, inl,
  inr, refl, sym, ap, ◌∙◌, if◌then◌else◌, if_true, Bool-cases, Option-cases, arith,
}
use infinite_streaming_encod.Prelude.Text.{Text, codes, starts_with, strip_space_end, split}
use infinite_streaming_encod.Prelude.Dict.{find}
use infinite_streaming_encod.Telemetry.{is_marker, is_record, is_gauge}
use infinite_streaming_encod.Telemetry.Markers.{stage-is_record}
use infinite_streaming_encod.Stages.{
  Board, Line, fill, stage, census, passed, emit_stage, announce, is_stale, fill_lines,
  census_lines, rendered_width,
}
use infinite_streaming_encod.Census.{Receive}
use infinite_streaming_encod.Drain.{
  Message, Drain, is_replay, note_seq, is_dropped, print_marker, forward_stage, forward_marker,
  forward_line, forward_lines, forward_message, forward_messages, collect, drain_telemetry,
  stage_line, stage_line_key, read_percent,
}

-- The records among the lines that were passed on, oldest first.
unfoldable pub records_printed : List Line → List Text
records_printed [] = []
records_printed (passed marker ∷ lines) =
    let rest = records_printed lines in if is_record marker then marker ∷ rest else rest
records_printed (fill key before after ∷ lines) = records_printed lines
records_printed (stage key status percent ∷ lines) = records_printed lines
records_printed (census key known ∷ lines) = records_printed lines

abbrev pub is_record_line : Text → Bool
is_record_line line = is_marker line && is_record line

-- The records of some lines, without the white space at the end of a line.
unfoldable pub records_of_lines : List Text → List Text
records_of_lines [] = []
records_of_lines (line ∷ lines) =
    let rest = records_of_lines lines in
    if is_record_line (strip_space_end line) then strip_space_end line ∷ rest else rest

unfoldable pub records_of : List Message → List Text
records_of [] = []
records_of (m ∷ messages) = records_of_lines (split b'\n' m.body) ++ records_of messages

pub records_printed-append :
    (xs ys : List Line) → records_printed (xs ++ ys) ≡ records_printed xs ++ records_printed ys
unfolding records_printed
records_printed-append [] ys = refl
records_printed-append (passed marker ∷ xs) ys = elim (Bool-cases (is_record marker)) [
  | inl e ↦ rw e (ap (λ l. marker ∷ l) (records_printed-append xs ys))
  | inr e ↦ rw e (records_printed-append xs ys)
]
records_printed-append (fill key before after ∷ xs) ys = records_printed-append xs ys
records_printed-append (stage key status percent ∷ xs) ys = records_printed-append xs ys
records_printed-append (census key known ∷ xs) ys = records_printed-append xs ys

records-fill_lines :
    (key : Text) (before after : ℕ) (rest : List Line)
    → records_printed (fill_lines key before after ++ rest) ≡ records_printed rest
unfolding records_printed
records-fill_lines key before after rest = ground arith

records-census_lines :
    (key src : Text) (prev : Option Text) → records_printed (census_lines key prev src) ≡ []
unfolding records_printed
records-census_lines key src prev = ground arith

records-stage :
    (key status src : Text) (percent : ℕ) (prev : Option Text)
    → records_printed (stage key status percent ∷ census_lines key prev src) ≡ []
unfolding records_printed
records-stage key status src percent prev = records-census_lines key src prev

-- An announcement prints no record.
records-announce :
    (key status src : Text) (percent : ℕ) (b : Board)
    → records_printed (announce key status percent src b).printed ≡ records_printed b.printed
unfolding announce
records-announce key status src percent b =
    records_printed-append b.printed _
    ∙ ap (λ l. records_printed b.printed ++ l)
        (records-fill_lines key (rendered_width (find key b.state) (find key b.percents))
            (rendered_width (some status) (some percent)) _
          ∙ records-stage key status src percent (find key b.state))
    ∙ append-nil (records_printed b.printed)

records-emit_stage :
    (key status src : Text) (percent : Option ℕ) (b : Board)
    → records_printed (emit_stage key status percent src b).0.printed ≡ records_printed b.printed
unfolding emit_stage
records-emit_stage key status src percent b =
    elim (Bool-cases (is_stale (find key b.state) status)) [
      | inl e ↦ rw e refl
      | inr e ↦ rw e (records-announce key status src _ b)
    ]

-- From `d` to `e` these records are printed, unless a `ValueError` has ended the call.
abbrev pub Prints : Drain → Drain → List Text → Type 0
Prints d e records =
    (e.raised ≡ true)
    ⊎ (records_printed e.board.printed ≡ records_printed d.board.printed ++ records)

Prints-nothing :
    (d e : Drain)
    → records_printed e.board.printed ≡ records_printed d.board.printed
    → Prints d e []
Prints-nothing d e h = inr (h ∙ sym (append-nil _))

pub stage_line-is_record :
    (line : Text) (parts : Text × Text × Text)
    → stage_line line ≡ some parts
    → is_record line ≡ false
unfolding stage_line
stage_line-is_record line parts h = elim (Bool-cases (starts_with stage_line_key line)) [
  | inl e ↦ stage-is_record line e
  | inr e ↦ (let z : none ≡ some parts = sym (if_true none _ (ap not e)) ∙ h in cc)
]

or_left : (a b : Bool) → a ≡ true → (a || b) ≡ true
or_left a b h = rw h refl

abbrev pub recorded : Text → List Text
recorded line = if is_record_line line then line ∷ [] else []

forward_stage-Prints :
    (key status : Text) (percent : Option ℕ) (d : Drain)
    → Prints d (forward_stage key status percent d) []
unfolding forward_stage
forward_stage-Prints key status none d = inl refl
forward_stage-Prints key status (some percent) d =
    Prints-nothing d (forward_stage key status (some percent) d)
      (records-emit_stage key status (codes "worker") (some percent) d.board)

recorded-nothing : (line : Text) → is_record line ≡ false → recorded line ≡ []
recorded-nothing line h = ground arith

print-recorded :
    (line : Text) → is_marker line ≡ true → records_printed (passed line ∷ []) ≡ recorded line
unfolding records_printed
print-recorded line m = rw m refl

print_marker-Prints :
    (line : Text) (d : Drain)
    → is_marker line ≡ true
    → Prints d (print_marker line d) (recorded line)
print_marker-Prints line d m = inr (
    records_printed-append d.board.printed (passed line ∷ [])
    ∙ ap (λ l. records_printed d.board.printed ++ l) (print-recorded line m))

forward_marker-Prints :
    (line : Text) (d : Drain)
    → is_marker line ≡ true
    → Prints d (forward_marker line d) (recorded line)
unfolding forward_marker
forward_marker-Prints line d m = elim (Option-cases (stage_line line)) [
  | inl e ↦ rw (e, forward_marker) (print_marker-Prints line d m)
  | inr ((key, status, digits), e) ↦
      let no : recorded line ≡ [] =
        recorded-nothing line (stage_line-is_record line (key, status, digits) e) in
      rw (e, forward_marker, no) (forward_stage-Prints key status (read_percent digits) d)
]

pub gauge-is_record : (line : Text) → is_gauge line ≡ true → is_record line ≡ false
unfolding is_gauge is_record
gauge-is_record line h = ground arith

dropped-nothing :
    (replay : Bool) (sent now : ℕ) (line : Text)
    → is_dropped replay sent now line ≡ true
    → recorded line ≡ []
unfolding is_dropped
dropped-nothing replay sent now line h = ground (arith, gauge-is_record line)

if-Prints :
    (t : Bool) (d x y : Drain) (records : List Text)
    → (t ≡ true → Prints d x records)
    → (t ≡ false → Prints d y records)
    → Prints d (if t then x else y) records
if-Prints true d x y records h k = h refl
if-Prints false d x y records h k = k refl

kept-is_marker :
    (raised replay : Bool) (sent now : ℕ) (line : Text)
    → raised || is_dropped replay sent now line ≡ false
    → is_marker line ≡ true
unfolding is_dropped
kept-is_marker raised replay sent now line h = ground arith

-- A line whose call has been ended, or that is dropped, prints no record.
skipped-Prints :
    (replay : Bool) (sent now : ℕ) (line : Text) (d : Drain)
    → d.raised || is_dropped replay sent now line ≡ true
    → Prints d d (recorded line)
skipped-Prints replay sent now line d h = elim (Bool-cases (d.raised)) [
  | inl e ↦ inl e
  | inr e ↦
      let drop : is_dropped replay sent now line ≡ true = ground arith in
      let no = dropped-nothing replay sent now line drop in rw no (Prints-nothing d d refl)
]

forward_line-Prints :
    (replay : Bool) (sent now : ℕ) (line : Text) (d : Drain)
    → Prints d (forward_line replay sent now line d) (recorded (strip_space_end line))
unfolding forward_line
forward_line-Prints replay sent now line d =
    let text = strip_space_end line in
    if-Prints (d.raised || is_dropped replay sent now text) d d (forward_marker text d)
      (recorded text) (skipped-Prints replay sent now text d)
      (λ e. forward_marker-Prints text d (kept-is_marker d.raised replay sent now text e))

forward_line-raised :
    (replay : Bool) (sent now : ℕ) (line : Text) (d : Drain)
    → d.raised ≡ true
    → (forward_line replay sent now line d).raised ≡ true
unfolding forward_line
forward_line-raised replay sent now line d h =
    ap Drain.raised
      (if_true d _ (or_left d.raised (is_dropped replay sent now (strip_space_end line)) h))
    ∙ h

forward_lines-raised :
    (replay : Bool) (sent now : ℕ) (lines : List Text) (d : Drain)
    → d.raised ≡ true
    → (forward_lines replay sent now lines d).raised ≡ true
unfolding forward_lines
forward_lines-raised replay sent now [] d h = h
forward_lines-raised replay sent now (line ∷ lines) d h =
    forward_lines-raised replay sent now lines _ (forward_line-raised replay sent now line d h)

Prints-trans :
    (d e f : Drain) (xs ys : List Text)
    → Prints d e xs
    → Prints e f ys
    → (e.raised ≡ true → f.raised ≡ true)
    → Prints d f (xs ++ ys)
Prints-trans d e f xs ys (inl r) k p = inl (p r)
Prints-trans d e f xs ys (inr h) (inl r) p = inl r
Prints-trans d e f xs ys (inr h) (inr k) p =
    inr (k ∙ ap (λ l. l ++ ys) h ∙ append_assoc (records_printed d.board.printed) xs ys)

records_of_lines-cons :
    (line : Text) (lines : List Text)
    → records_of_lines (line ∷ lines) ≡ recorded (strip_space_end line) ++ records_of_lines lines
unfolding records_of_lines
records_of_lines-cons line lines = elim (Bool-cases (is_record_line (strip_space_end line))) [
  | inl e ↦ rw e refl
  | inr e ↦ rw e refl
]

forward_lines-Prints :
    (replay : Bool) (sent now : ℕ) (lines : List Text) (d : Drain)
    → Prints d (forward_lines replay sent now lines d) (records_of_lines lines)
unfolding forward_lines
forward_lines-Prints replay sent now [] d = unfold records_of_lines in Prints-nothing d d refl
forward_lines-Prints replay sent now (line ∷ lines) d =
    let next = forward_line replay sent now line d in
    rw (records_of_lines-cons line lines) (
      Prints-trans d next (forward_lines replay sent now lines next) _ _
        (forward_line-Prints replay sent now line d)
        (forward_lines-Prints replay sent now lines next)
        (forward_lines-raised replay sent now lines next))

forward_message-Prints :
    (now : ℕ) (m : Message) (d : Drain)
    → Prints d (forward_message now m d) (records_of_lines (split b'\n' m.body))
unfolding forward_message
forward_message-Prints now m d =
    if-Prints d.raised d d _ (records_of_lines (split b'\n' m.body)) (λ e. inl e)
      (λ e.
        forward_lines-Prints (is_replay d.seen_seq m) m.sent now (split b'\n' m.body)
          (record d { seen_seq = note_seq m d.seen_seq }))

forward_message-raised :
    (now : ℕ) (m : Message) (d : Drain) → d.raised ≡ true → (forward_message now m d).raised ≡ true
unfolding forward_message
forward_message-raised now m d h = ap Drain.raised (if_true d _ h) ∙ h

pub forward_messages-raised :
    (now : ℕ) (messages : List Message) (d : Drain)
    → d.raised ≡ true
    → (forward_messages now messages d).raised ≡ true
unfolding forward_messages
forward_messages-raised now [] d h = h
forward_messages-raised now (m ∷ messages) d h =
    forward_messages-raised now messages _ (forward_message-raised now m d h)

pub forward_messages-Prints :
    (now : ℕ) (messages : List Message) (d : Drain)
    → Prints d (forward_messages now messages d) (records_of messages)
unfolding forward_messages records_of
forward_messages-Prints now [] d = Prints-nothing d d refl
forward_messages-Prints now (m ∷ messages) d =
    let next = forward_message now m d in
    Prints-trans d next (forward_messages now messages next) _ _ (forward_message-Prints now m d)
      (forward_messages-Prints now messages next) (forward_messages-raised now messages next)

-- The records that a drain prints are all the records of the messages it collected, in order and
-- whether or not a message is a replay, unless the percent of a stage marker does not parse: the
-- exception then ends the call.
pub drain_telemetry-Prints :
    (now : ℕ) (rounds : List (Receive Message)) (b : Board) (seen : List (Text × ℕ))
    → ((drain_telemetry now rounds b seen).raised ≡ true)
      ⊎ (records_printed (drain_telemetry now rounds b seen).board.printed
          ≡ records_printed b.printed ++ records_of (collect rounds))
unfolding drain_telemetry
drain_telemetry-Prints now rounds b seen = forward_messages-Prints now (collect rounds) _
