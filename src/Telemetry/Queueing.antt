-- ===== src/Telemetry/Queueing.antt =====
-- telemetry.py, _Publisher.add: what is added is queued, and what is not a heartbeat gets a call of
-- `flush` of its own.
use infinite_streaming_encod.Prelude.{
  ℕ, ◌+◌, ◌*◌, ◌≤◌, ◌<◌, ◌≡◌, refl, ap, sym, ◌∙◌, Bool, true, not, ◌||◌, inl, inr, List, [], ◌∷◌,
  ◌++◌, arith, leb, length, length-append, drop, drop_all, All, Bool-cases,
}
use mathlib.Core.Path.{subst}
use infinite_streaming_encod.Prelude.Text.{Text}
use infinite_streaming_encod.Telemetry.{
  Item, Publisher, start, batch_max, is_heartbeat, call_flush, enqueue, add, Step, step_add,
  step_tick, step_flush, step_stop, step_close, step_take, step_send, step_warn,
}
use infinite_streaming_encod.Telemetry.Numbering.{
  count_if, count_if-append, count_batches, numbered, numbered-append, drop-drop, All-drop,
  All-drop_append,
}

abbrev pub added : List Step → List Text
added [] = []
added (step_add now m ∷ steps) = m ∷ added steps
added (step_tick now ∷ steps) = added steps
added (step_flush ∷ steps) = added steps
added (step_stop ∷ steps) = added steps
added (step_close ∷ steps) = added steps
added (step_take now ∷ steps) = added steps
added (step_send raises k ∷ steps) = added steps
added (step_warn ∷ steps) = added steps

-- One to ten markers in the order in which they were added, with none left out between them.
abbrev pub IsBatch : List Item → Type 0
IsBatch b =
    (0 < length b) × (length b ≤ batch_max) × (k : ℕ) × (ms : List Text) × (b ≡ numbered k ms)

-- The publisher after the markers `ms` were added, in this order.
pub record IsFaithful (ms : List Text) (p : Publisher) : Type 0 where
  pub kept :
      (q : Item → Bool)
      → count_batches q p.handed + count_batches q p.held + count_if q p.buf
        ≡ count_if q (numbered 1 ms)
  pub counted : p.seq ≡ length ms
  pub suffix :
      (k : ℕ) × (rest : List Text) × (p.buf ≡ numbered k rest) × (k + length rest ≡ p.seq + 1)
  pub waiting : All (λ (i : Item). is_heartbeat i.1 ≡ true) (drop (batch_max * p.flushing) p.buf)
  pub room : length p.buf < batch_max * (p.flushing + 1)
  pub sent : All IsBatch p.handed
  pub taken : All IsBatch p.held

pub start-IsFaithful : IsFaithful [] start
start-IsFaithful = record {
  kept = λ q. refl;
  counted = refl;
  suffix = (1, [], refl, refl);
  waiting = tt;
  room = omega arith;
  sent = tt;
  taken = tt;
}

-- A further call of `flush` does no harm.
pub call_flush-IsFaithful :
    {ms : List Text} (p : Publisher) → IsFaithful ms p → IsFaithful ms (call_flush p)
call_flush-IsFaithful p f = record {
  kept = f.kept;
  counted = f.counted;
  suffix = f.suffix;
  waiting =
      subst (All (λ (i : Item). is_heartbeat i.1 ≡ true))
        (drop-drop batch_max (batch_max * p.flushing) p.buf ∙ ap (λ k. drop k p.buf) (omega arith))
        (All-drop (λ (i : Item). is_heartbeat i.1 ≡ true) batch_max _ f.waiting);
  room = let r = f.room in omega arith;
  sent = f.sent;
  taken = f.taken;
}

-- What holds between the two halves of `add`: there is room for one marker more.
record IsQueued (ms : List Text) (p : Publisher) : Type 0 where
  kept :
      (q : Item → Bool)
      → count_batches q p.handed + count_batches q p.held + count_if q p.buf
        ≡ count_if q (numbered 1 ms)
  counted : p.seq ≡ length ms
  suffix : (k : ℕ) × (rest : List Text) × (p.buf ≡ numbered k rest) × (k + length rest ≡ p.seq + 1)
  full : length p.buf ≤ batch_max * (p.flushing + 1)
  sent : All IsBatch p.handed
  taken : All IsBatch p.held

enqueue-IsQueued :
    {ms : List Text} (now : ℕ) (m : Text) (p : Publisher)
    → IsFaithful ms p
    → IsQueued (ms ++ m ∷ []) (enqueue now m p)
unfolding enqueue
enqueue-IsQueued {ms} now m p f =
    let (k, rest, e, n) = f.suffix in
    let c = f.counted in
    let last : (1 + length ms, m) ≡ (p.seq + 1, m) = ap (λ (i : ℕ). (i, m)) (omega arith) in
    record {
      kept = λ q.
          let old = f.kept q in
          let all : count_if q (numbered 1 (ms ++ m ∷ []))
              ≡ count_if q (numbered 1 ms) + count_if q ((p.seq + 1, m) ∷ []) =
            ap (count_if q) (numbered-append 1 ms m)
            ∙ count_if-append q (numbered 1 ms) ((1 + length ms, m) ∷ [])
            ∙ ap (λ (i : Item). count_if q (numbered 1 ms) + count_if q (i ∷ [])) last in
          omega (arith, all, count_if-append q p.buf ((p.seq + 1, m) ∷ []));
      counted = omega (arith, length-append ms (m ∷ []));
      suffix = (
        k,
        rest ++ m ∷ [],
        ap (λ l. l ++ (p.seq + 1, m) ∷ []) e
            ∙ ap (λ (i : ℕ). numbered k rest ++ (i, m) ∷ []) (omega arith)
            ∙ sym (numbered-append k rest m),
        omega (arith, length-append rest (m ∷ [])),
      );
      full = let r = f.room in omega (arith, length-append p.buf ((p.seq + 1, m) ∷ []));
      sent = f.sent;
      taken = f.taken;
    }

-- With the call of `flush`, the markers wait for no timer.
flushed-IsFaithful : {ms : List Text} (p : Publisher) → IsQueued ms p → IsFaithful ms (call_flush p)
flushed-IsFaithful p f = record {
  kept = f.kept;
  counted = f.counted;
  suffix = f.suffix;
  waiting = let r = f.full in rw (drop_all (batch_max * (p.flushing + 1)) p.buf r) tt;
  room = let r = f.full in omega arith;
  sent = f.sent;
  taken = f.taken;
}

enqueue-IsFaithful :
    {ms : List Text} (now : ℕ) (m : Text) (p : Publisher)
    → IsFaithful ms p
    → is_heartbeat m ≡ true
    → length (enqueue now m p).buf < batch_max
    → IsFaithful (ms ++ m ∷ []) (enqueue now m p)
unfolding enqueue
enqueue-IsFaithful now m p f h r =
    let q = enqueue-IsQueued now m p f in
    record {
      kept = q.kept;
      counted = q.counted;
      suffix = q.suffix;
      waiting =
          All-drop_append (λ (i : Item). is_heartbeat i.1 ≡ true) (batch_max * p.flushing) p.buf
            (p.seq + 1, m) f.waiting h;
      room = omega (arith, r);
      sent = q.sent;
      taken = q.taken;
    }

pub add-IsFaithful :
    {ms : List Text} (now : ℕ) (m : Text) (p : Publisher)
    → IsFaithful ms p
    → IsFaithful (ms ++ m ∷ []) (add now m p)
unfolding add
add-IsFaithful now m p f =
    elim (Bool-cases (leb batch_max (length (enqueue now m p).buf) || not (is_heartbeat m))) [
      | inl e ↦ rw e (flushed-IsFaithful (enqueue now m p) (enqueue-IsQueued now m p f))
      | inr e ↦ rw e (enqueue-IsFaithful now m p f (ground arith) (ground arith))
    ]
