-- ===== src/Stages/Repeat.antt =====
-- cli_batch.py, _emit_stage: an announcement that is delivered again changes nothing.
use infinite_streaming_encod.Prelude.{
  ℕ, true, false, Option, none, some, List, ◌≡◌, inl, inr, refl, sym, ap, ◌∙◌, ge→ltb, if_true,
  if_false, Bool-cases, arith,
}
use infinite_streaming_encod.Prelude.Text.{Text, text_eq, text_eq_refl}
use infinite_streaming_encod.Prelude.Dict.{find, assign, find-assign}
use infinite_streaming_encod.Stages.{Board, rank, is_stale, is_prev, carried, announce, emit_stage}
use infinite_streaming_encod.Stages.Guard.{current, current-announce}

same-is_stale : (status : Text) → is_stale (some status) status ≡ false
unfolding is_stale
same-is_stale status = rw (ge→ltb (rank status) (rank status) (omega arith)) (ground arith)

carried_again :
    (prev : Option Text) (status : Text) (known percent : Option ℕ)
    → carried (some status) status (some (carried prev status known percent)) percent
      ≡ carried prev status known percent
unfolding carried is_prev
carried_again prev status known none = refl
carried_again prev status known (some percent) = rw (text_eq_refl status) (ground arith)

find-assign_self {ℓ} :
    {V : Type ℓ} (k : Text) (v : V) (d : List (Text × V)) → find k (assign k v d) ≡ some v
find-assign_self k v d = find-assign k k v d ∙ if_true (some v) (find k d) (text_eq_refl k)

announce_again :
    (key k status src : Text) (percent : ℕ) (b : Board)
    → current key (announce k status percent src (announce k status percent src b))
      ≡ current key (announce k status percent src b)
announce_again key k status src percent b =
    let once = announce k status percent src b in
    current-announce key k status src percent once ∙ elim (Bool-cases (text_eq k key)) [
      | inl e ↦
          if_true _ (current key once) e
          ∙ sym (if_true _ (current key b) e)
          ∙ sym (current-announce key k status src percent b)
      | inr e ↦ if_false (some (status, percent)) _ e
    ]

-- What `emit_stage` does at a stage whose status and percent are known.
emit_stage-known :
    (k status src : Text) (percent : Option ℕ) (b : Board) (c : ℕ)
    → find k b.state ≡ some status
    → find k b.percents ≡ some c
    → (emit_stage k status percent src b).0
      ≡ announce k status (carried (some status) status (some c) percent) src b
unfolding emit_stage
emit_stage-known k status src percent b c e f = rw (e, f, same-is_stale status) refl

emit_stage-made :
    (k status src : Text) (percent : Option ℕ) (b : Board)
    → is_stale (find k b.state) status ≡ false
    → (emit_stage k status percent src b).0
      ≡ announce k status (carried (find k b.state) status (find k b.percents) percent) src b
unfolding emit_stage
emit_stage-made k status src percent b e = rw e refl

emit_stage-stale :
    (k status src : Text) (percent : Option ℕ) (b : Board)
    → is_stale (find k b.state) status ≡ true
    → (emit_stage k status percent src b).0 ≡ b
unfolding emit_stage
emit_stage-stale k status src percent b e = rw e refl

made_again :
    (key k status src : Text) (percent : Option ℕ) (b : Board) (c : ℕ)
    → carried (some status) status (some c) percent ≡ c
    → current key (emit_stage k status percent src (announce k status c src b)).0
      ≡ current key (announce k status c src b)
made_again key k status src percent b c e =
    let once = announce k status c src b in
    ap (current key) (
      emit_stage-known k status src percent once c
        (unfold announce in find-assign_self k status b.state)
        (unfold announce in find-assign_self k c b.percents)
      ∙ ap (λ p. announce k status p src once) e)
    ∙ announce_again key k status src c b

-- A second delivery of the same announcement leaves every stage at the status and the percent
-- that the first one left it at.
pub emit_stage-again :
    (key k status src : Text) (percent : Option ℕ) (b : Board)
    → current key (emit_stage k status percent src (emit_stage k status percent src b).0).0
      ≡ current key (emit_stage k status percent src b).0
emit_stage-again key k status src percent b = elim (Bool-cases (is_stale (find k b.state) status)) [
  | inl e ↦
      ap (λ c. current key (emit_stage k status percent src c).0)
        (emit_stage-stale k status src percent b e)
  | inr e ↦
      let first = emit_stage-made k status src percent b e in
      ap (λ c. current key (emit_stage k status percent src c).0) first
      ∙ made_again key k status src percent b _
          (carried_again (find k b.state) status (find k b.percents) percent)
      ∙ sym (ap (current key) first)
]
