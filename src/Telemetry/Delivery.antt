-- ===== src/Telemetry/Delivery.antt =====
-- The publisher under any interleaving of its threads: nothing is lost or doubled before the sink,
-- and what is not a heartbeat does not wait for the timer.
use infinite_streaming_encod.Prelude.{
  ℕ, ◌*◌, ◌≡◌, refl, ap, sym, ◌∙◌, Bool, true, false, List, [], ◌∷◌, ◌++◌, arith, drop, All,
}
use mathlib.Core.Path.{subst}
use mathlib.Core.List.{append_assoc, append-nil}
use infinite_streaming_encod.Prelude.Text.{Text}
use infinite_streaming_encod.Telemetry.{
  Item, Publisher, start, batch_max, is_heartbeat, Step, step_add, step_tick, step_flush, step_stop,
  step_close, step_take, step_send, step_warn, perform, run,
}
use infinite_streaming_encod.Telemetry.Numbering.{count_if, count_batches, numbered}
use infinite_streaming_encod.Telemetry.Queueing.{
  added, IsFaithful, start-IsFaithful, call_flush-IsFaithful, add-IsFaithful,
}
use infinite_streaming_encod.Telemetry.Sending.{
  aside-IsFaithful, take_batch-IsFaithful, send-IsFaithful, end_warn-IsFaithful, tick-IsFaithful,
  close_round-IsFaithful,
}

perform-IsFaithful :
    (ms : List Text) (s : Step) (p : Publisher)
    → IsFaithful ms p
    → IsFaithful (ms ++ added (s ∷ [])) (perform s p)
unfolding perform
perform-IsFaithful ms (step_add now m) p f = add-IsFaithful now m p f
perform-IsFaithful ms (step_tick now) p f = rw (append-nil ms) (tick-IsFaithful now p f)
perform-IsFaithful ms step_flush p f = rw (append-nil ms) (call_flush-IsFaithful p f)
perform-IsFaithful ms step_stop p f =
    rw (append-nil ms) (aside-IsFaithful p true p.sink_closed p.warning p.warned p.printed f)
perform-IsFaithful ms step_close p f = rw (append-nil ms) (close_round-IsFaithful p f)
perform-IsFaithful ms (step_take now) p f = rw (append-nil ms) (take_batch-IsFaithful now p f)
perform-IsFaithful ms (step_send raises k) p f = rw (append-nil ms) (send-IsFaithful raises k p f)
perform-IsFaithful ms step_warn p f = rw (append-nil ms) (end_warn-IsFaithful p f)

added-cons : (s : Step) (steps : List Step) → added (s ∷ steps) ≡ added (s ∷ []) ++ added steps
added-cons (step_add now m) steps = refl
added-cons (step_tick now) steps = refl
added-cons step_flush steps = refl
added-cons step_stop steps = refl
added-cons step_close steps = refl
added-cons (step_take now) steps = refl
added-cons (step_send raises k) steps = refl
added-cons step_warn steps = refl

run-IsFaithful :
    (ms : List Text) (steps : List Step) (p : Publisher)
    → IsFaithful ms p
    → IsFaithful (ms ++ added steps) (run steps p)
unfolding run
run-IsFaithful ms [] p f = rw (append-nil ms) f
run-IsFaithful ms (s ∷ steps) p f =
    subst (λ l. IsFaithful l (run steps (perform s p)))
      (append_assoc ms (added (s ∷ [])) (added steps)
        ∙ ap (λ l. ms ++ l) (sym (added-cons s steps)))
      (run-IsFaithful (ms ++ added (s ∷ [])) steps (perform s p) (perform-IsFaithful ms s p f))

-- Under any interleaving of the workers, the flush thread and `close`, with sends that raise at any
-- point, no marker is lost or doubled before the sink: for each test, as many numbered markers pass
-- among those handed to the sink, those of the batches that some thread holds and those in the buffer
-- together as among those added, numbered from 1 in the order of the adds. Each batch has one to ten
-- markers, which follow one another in that order. What the calls of `flush` that have yet to take
-- their batch leave in the buffer are heartbeats alone, and fewer than ten.
pub run_start-IsFaithful : (steps : List Step) → IsFaithful (added steps) (run steps start)
run_start-IsFaithful steps = run-IsFaithful [] steps start start-IsFaithful

heartbeats-count :
    (q : Item → Bool)
    → ((i : Item) → is_heartbeat i.1 ≡ true → q i ≡ false)
    → (items : List Item) → All (λ (i : Item). is_heartbeat i.1 ≡ true) items
    → count_if q items ≡ 0
heartbeats-count q quiet [] h = refl
heartbeats-count q quiet (i ∷ items) h =
    ground (arith, quiet i h.0, heartbeats-count q quiet items h.1)

-- Once no call of `flush` is unfinished, every marker that is not a heartbeat has been handed to the
-- sink: for a test that no heartbeat passes, as many numbered markers pass among those handed over as
-- among those added. No timer has to run for that.
pub run_start-handed :
    (steps : List Step) (q : Item → Bool)
    → (run steps start).flushing ≡ 0
    → (run steps start).held ≡ []
    → ((i : Item) → is_heartbeat i.1 ≡ true → q i ≡ false)
    → count_batches q (run steps start).handed ≡ count_if q (numbered 1 (added steps))
run_start-handed steps q none_left none_held quiet =
    let p = run steps start in
    let f = run_start-IsFaithful steps in
    let waits : All (λ (i : Item). is_heartbeat i.1 ≡ true) p.buf =
      subst (λ (n : ℕ). All (λ (i : Item). is_heartbeat i.1 ≡ true) (drop (batch_max * n) p.buf))
        none_left f.waiting in
    omega (arith, f.kept q, ap (count_batches q) none_held, heartbeats-count q quiet p.buf waits)
