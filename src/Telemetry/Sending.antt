-- ===== src/Telemetry/Sending.antt =====
-- telemetry.py, _Publisher.flush, _warn, _loop and close: batches on their way to the sink.
use infinite_streaming_encod.Prelude.{
  ℕ, zero, suc, ◌+◌, ◌-◌, ◌*◌, ◌≡◌, refl, ap, sym, ◌∙◌, Bool, true, not, ◌&&◌, inl, inr, ◌⊎◌,
  Option, none, some, List, [], ◌∷◌, ◌++◌, arith, leb, if◌then◌else◌, length, take, drop,
  take-append-drop, length-take, length-drop, All, All-append, Bool-cases, Option-cases,
}
use mathlib.Core.Path.{subst}
use infinite_streaming_encod.Prelude.Text.{Text}
use infinite_streaming_encod.Telemetry.{
  Item, Publisher, batch_max, batch_max_age, is_heartbeat, is_empty, pick, begin_warn, end_warn,
  max_warnings, send, take_from_buf, take_batch, tick, close_round,
}
use infinite_streaming_encod.Telemetry.Numbering.{
  count_if, count_if-append, count_batches-append, take-numbered, drop-numbered, drop-drop,
}
use infinite_streaming_encod.Telemetry.Queueing.{IsBatch, IsFaithful, call_flush-IsFaithful}
use infinite_streaming_encod.Telemetry.Batches.{
  count_batches-with_batch, with_batch-IsBatch, pick-count, pick-IsBatch,
}

take_from_buf-IsFaithful :
    {ms : List Text} (now n : ℕ) (p : Publisher)
    → p.flushing ≡ suc n
    → IsFaithful ms p
    → IsFaithful ms (take_from_buf now n p)
take_from_buf-IsFaithful now n p e f =
    let (k, rest, b, l) = f.suffix in
    record {
      kept = λ q.
          let whole = ap (count_if q) (take-append-drop batch_max p.buf) in
          omega (
            arith,
            f.kept q,
            whole,
            count_if-append q (take batch_max p.buf) (drop batch_max p.buf),
            count_batches-with_batch q (take batch_max p.buf) p.held,
          );
      counted = f.counted;
      suffix = (
        k + (length rest - length (drop batch_max rest)),
        drop batch_max rest,
        ap (drop batch_max) b ∙ drop-numbered batch_max k rest,
        omega (arith, l, length-drop batch_max rest),
      );
      waiting =
          subst (All (λ (i : Item). is_heartbeat i.1 ≡ true))
            (ap (λ (j : ℕ). drop j p.buf) (omega (arith, e))
              ∙ sym (drop-drop (batch_max * n) batch_max p.buf))
            f.waiting;
      room = let r = f.room in omega (arith, r, e, length-drop batch_max p.buf);
      sent = f.sent;
      taken =
          with_batch-IsBatch (take batch_max p.buf) p.held k (take batch_max rest)
            (omega (arith, length-take batch_max p.buf))
            (ap (take batch_max) b ∙ take-numbered batch_max k rest) f.taken;
    }

pub number-cases : (n : ℕ) → (n ≡ 0) ⊎ ((m : ℕ) × (n ≡ suc m))
number-cases zero = inl refl
number-cases (suc m) = inr (m, refl)

pub take_batch-IsFaithful :
    {ms : List Text} (now : ℕ) (p : Publisher) → IsFaithful ms p → IsFaithful ms (take_batch now p)
unfolding take_batch
take_batch-IsFaithful {ms} now p f =
    let After : ℕ → Type 0 =
      λ n. IsFaithful ms (elim n [ zero ↦ p | suc m ↦ take_from_buf now m p ]) in
    elim (number-cases p.flushing) [
      | inl e ↦ subst After (sym e) f
      | inr (n, e) ↦ subst After (sym e) (take_from_buf-IsFaithful now n p e f)
    ]

-- What is asked about the closing and the warnings has no part in this.
pub aside-IsFaithful :
    {ms : List Text} (p : Publisher) (stopped closed : Bool) (warning warned printed : ℕ)
    → IsFaithful ms p
    → IsFaithful ms (record p {
      stopped = stopped;
      sink_closed = closed;
      warning = warning;
      warned = warned;
      printed = printed;
    })
aside-IsFaithful p stopped closed warning warned printed f = record {
  kept = f.kept;
  counted = f.counted;
  suffix = f.suffix;
  waiting = f.waiting;
  room = f.room;
  sent = f.sent;
  taken = f.taken;
}

hand_over-IsFaithful :
    {ms : List Text} (k : ℕ) (batch : List Item) (rest : List (List Item)) (p : Publisher)
    → pick k p.held ≡ some (batch, rest)
    → IsFaithful ms p
    → IsFaithful ms (record p { held = rest; handed = p.handed ++ batch ∷ [] })
hand_over-IsFaithful k batch rest p e f =
    let found = pick-IsBatch k p.held batch rest e f.taken in
    record {
      kept = λ q. omega (
        arith,
        f.kept q,
        pick-count q k p.held batch rest e,
        count_batches-append q p.handed (batch ∷ []),
        count_if-append q batch [],
      );
      counted = f.counted;
      suffix = f.suffix;
      waiting = f.waiting;
      room = f.room;
      sent = All-append IsBatch p.handed (batch ∷ []) f.sent (found.0, tt);
      taken = found.1;
    }

begin_warn-IsFaithful :
    {ms : List Text} (p : Publisher) → IsFaithful ms p → IsFaithful ms (begin_warn p)
unfolding begin_warn
begin_warn-IsFaithful p f = elim (Bool-cases (leb max_warnings p.warned)) [
  | inl e ↦ rw e f
  | inr e ↦ rw e (aside-IsFaithful p p.stopped p.sink_closed (p.warning + 1) p.warned p.printed f)
]

pub end_warn-IsFaithful :
    {ms : List Text} (p : Publisher) → IsFaithful ms p → IsFaithful ms (end_warn p)
unfolding end_warn
end_warn-IsFaithful {ms} p f =
    let After : ℕ → Type 0 = λ n. IsFaithful ms (elim n [
      | zero ↦ p
      | suc m ↦ record p { warning = m; warned = p.warned + 1; printed = p.printed + 1 }
    ]) in
    elim (number-cases p.warning) [
      | inl e ↦ subst After (sym e) f
      | inr (n, e) ↦
          subst After (sym e)
            (aside-IsFaithful p p.stopped p.sink_closed n (p.warned + 1) (p.printed + 1) f)
    ]

pub send-IsFaithful :
    {ms : List Text} (raises : Bool) (k : ℕ) (p : Publisher)
    → IsFaithful ms p
    → IsFaithful ms (send raises k p)
unfolding send
send-IsFaithful {ms} raises k p f =
    let After : Option (List Item × List (List Item)) → Type 0 = λ o. IsFaithful ms (elim o [
      | none ↦ p
      | some (batch, rest) ↦
          let p' = record p { held = rest; handed = p.handed ++ batch ∷ [] } in
          if raises then begin_warn p' else p'
    ]) in
    elim (Option-cases (pick k p.held)) [
      | inl e ↦ subst After (sym e) f
      | inr ((batch, rest), e) ↦
          let next = hand_over-IsFaithful k batch rest p e f in
          subst After (sym e) (elim (Bool-cases raises) [
            | inl r ↦ rw r (begin_warn-IsFaithful _ next)
            | inr r ↦ rw r next
          ])
    ]

pub tick-IsFaithful :
    {ms : List Text} (now : ℕ) (p : Publisher) → IsFaithful ms p → IsFaithful ms (tick now p)
unfolding tick
tick-IsFaithful now p f =
    elim (Bool-cases
      (not p.stopped && (not (is_empty p.buf) && leb batch_max_age (now - p.oldest)))) [
        | inl e ↦ rw e (call_flush-IsFaithful p f)
        | inr e ↦ rw e f
      ]

pub close_round-IsFaithful :
    {ms : List Text} (p : Publisher) → IsFaithful ms p → IsFaithful ms (close_round p)
unfolding close_round
close_round-IsFaithful p f = elim (Bool-cases (not p.stopped)) [
  | inl e ↦ rw e f
  | inr e ↦ elim (Bool-cases (is_empty p.buf)) [
    | inl b ↦ rw (e, b) (aside-IsFaithful p p.stopped true p.warning p.warned p.printed f)
    | inr b ↦ rw (e, b) (call_flush-IsFaithful p f)
  ]
]
