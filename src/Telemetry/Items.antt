-- ===== src/Telemetry/Items.antt =====
-- telemetry.py, _Publisher: what holds of each marker that is added holds of each that goes on.
use mathlib.Core.Path.{subst}
use infinite_streaming_encod.Prelude.{
  ℕ, zero, suc, ◌-◌, ◌+◌, ◌≡◌, sym, Bool, not, ◌||◌, ◌&&◌, inl, inr, Option, none, some, List, [],
  ◌∷◌, ◌++◌, leb, if◌then◌else◌, length, take, All, All-append, Bool-cases, Option-cases, true,
  refl, ap, ◌∙◌,
}
use infinite_streaming_encod.Prelude.Text.{Text}
use infinite_streaming_encod.Telemetry.{
  Item, Publisher, start, batch_max, batch_max_age, max_warnings, is_heartbeat, is_empty,
  call_flush, with_batch, with_first, pick, begin_warn, end_warn, send, take_from_buf, take_batch,
  enqueue, add, tick, close_round, Step, step_add, step_tick, step_flush, step_stop, step_close,
  step_take, step_send, step_warn, perform, run,
}
use infinite_streaming_encod.Telemetry.Numbering.{All-drop, All-take}
use infinite_streaming_encod.Telemetry.Queueing.{added}
use infinite_streaming_encod.Telemetry.Sending.{number-cases}

module _ (P : Text → Type 0) where
  abbrev HasItem : Item → Type 0
  HasItem i = P i.1

  pub record AllItems (p : Publisher) : Type 0 where
    pub waiting : All HasItem p.buf
    pub taken : All (All HasItem) p.held
    pub sent : All (All HasItem) p.handed

  with_batch-All :
      (batch : List Item) (held : List (List Item))
      → All HasItem batch
      → All (All HasItem) held
      → All (All HasItem) (with_batch batch held)
  with_batch-All [] held h k = k
  with_batch-All (i ∷ batch) held h k = All-append (All HasItem) held ((i ∷ batch) ∷ []) k (h, tt)

  pick-All :
      (k : ℕ) (held : List (List Item)) (batch : List Item) (rest : List (List Item))
      → pick k held ≡ some (batch, rest)
      → All (All HasItem) held
      → All HasItem batch × All (All HasItem) rest
  unfolding pick
  pick-All k [] batch rest e h = absurd (cc)
  pick-All zero (b ∷ bs) batch rest e h =
      let same : ◌≡◌ {A = List Item × List (List Item)} (b, bs) (batch, rest) = cc in
      subst (λ x. All HasItem x.0 × All (All HasItem) x.1) same h
  pick-All (suc k) (b ∷ bs) batch rest e h = elim (Option-cases (pick k bs)) [
    | inl n ↦
        let no : ◌≡◌ {A = Option (List Item × List (List Item))} none (some (batch, rest)) =
          ap (with_first b) (sym n) ∙ e in
        absurd (cc)
    | inr ((c, others), n) ↦
        let same : ◌≡◌ {A = List Item × List (List Item)} (c, b ∷ others) (batch, rest) =
          let full : ◌≡◌ {A = Option (List Item × List (List Item))} (some (c, b ∷ others))
              (some (batch, rest)) =
            ap (with_first b) (sym n) ∙ e in
          cc in
        let found = pick-All k bs c others n h.1 in
        subst (λ x. All HasItem x.0 × All (All HasItem) x.1) same (found.0, (h.0, found.1))
  ]

  aside-AllItems :
      (p q : Publisher)
      → p.buf ≡ q.buf
      → p.held ≡ q.held
      → p.handed ≡ q.handed
      → AllItems p
      → AllItems q
  aside-AllItems p q b h s a = record {
    waiting = subst (All HasItem) b a.waiting;
    taken = subst (All (All HasItem)) h a.taken;
    sent = subst (All (All HasItem)) s a.sent;
  }

  add-AllItems : (now : ℕ) (m : Text) (p : Publisher) → P m → AllItems p → AllItems (add now m p)
  unfolding add enqueue
  add-AllItems now m p h a =
      let queued : AllItems (enqueue now m p) = record {
        waiting = All-append HasItem p.buf ((p.seq + 1, m) ∷ []) a.waiting (h, tt);
        taken = a.taken;
        sent = a.sent;
      } in
      elim (Bool-cases (leb batch_max (length (enqueue now m p).buf) || not (is_heartbeat m))) [
        | inl e ↦ rw e (aside-AllItems (enqueue now m p) _ refl refl refl queued)
        | inr e ↦ rw e queued
      ]

  take_batch-AllItems : (now : ℕ) (p : Publisher) → AllItems p → AllItems (take_batch now p)
  unfolding take_batch
  take_batch-AllItems now p a =
      let After : ℕ → Type 0 =
        λ n. AllItems (elim n [ zero ↦ p | suc m ↦ take_from_buf now m p ]) in
      elim (number-cases p.flushing) [
        | inl e ↦ subst After (sym e) a
        | inr (n, e) ↦ subst After (sym e) (record {
          waiting = All-drop HasItem batch_max p.buf a.waiting;
          taken =
              with_batch-All (take batch_max p.buf) p.held
                (All-take HasItem batch_max p.buf a.waiting) a.taken;
          sent = a.sent;
        })
      ]

  begin_warn-AllItems : (p : Publisher) → AllItems p → AllItems (begin_warn p)
  unfolding begin_warn
  begin_warn-AllItems p a = elim (Bool-cases (leb max_warnings p.warned)) [
    | inl e ↦ rw e a
    | inr e ↦ rw e (aside-AllItems p _ refl refl refl a)
  ]

  end_warn-AllItems : (p : Publisher) → AllItems p → AllItems (end_warn p)
  unfolding end_warn
  end_warn-AllItems p a =
      let After : ℕ → Type 0 = λ n. AllItems (elim n [
        | zero ↦ p
        | suc m ↦ record p { warning = m; warned = p.warned + 1; printed = p.printed + 1 }
      ]) in
      elim (number-cases p.warning) [
        | inl e ↦ subst After (sym e) a
        | inr (n, e) ↦ subst After (sym e) (aside-AllItems p _ refl refl refl a)
      ]

  send-AllItems : (raises : Bool) (k : ℕ) (p : Publisher) → AllItems p → AllItems (send raises k p)
  unfolding send
  send-AllItems raises k p a =
      let After : Option (List Item × List (List Item)) → Type 0 = λ o. AllItems (elim o [
        | none ↦ p
        | some (batch, rest) ↦
            let p' = record p { held = rest; handed = p.handed ++ batch ∷ [] } in
            if raises then begin_warn p' else p'
      ]) in
      elim (Option-cases (pick k p.held)) [
        | inl e ↦ subst After (sym e) a
        | inr ((batch, rest), e) ↦
            let found = pick-All k p.held batch rest e a.taken in
            let next : AllItems (record p { held = rest; handed = p.handed ++ batch ∷ [] }) =
              record {
                waiting = a.waiting;
                taken = found.1;
                sent = All-append (All HasItem) p.handed (batch ∷ []) a.sent (found.0, tt);
              } in
            subst After (sym e) (elim (Bool-cases raises) [
              | inl r ↦ rw r (begin_warn-AllItems _ next)
              | inr r ↦ rw r next
            ])
      ]

  close_round-AllItems : (p : Publisher) → AllItems p → AllItems (close_round p)
  unfolding close_round
  close_round-AllItems p a = elim (Bool-cases (not p.stopped)) [
    | inl e ↦ rw e a
    | inr e ↦ elim (Bool-cases (is_empty p.buf)) [
      | inl b ↦ rw (e, b) (aside-AllItems p _ refl refl refl a)
      | inr b ↦ rw (e, b) (aside-AllItems p _ refl refl refl a)
    ]
  ]

  tick-AllItems : (now : ℕ) (p : Publisher) → AllItems p → AllItems (tick now p)
  unfolding tick
  tick-AllItems now p a =
      elim (Bool-cases
        (not p.stopped && (not (is_empty p.buf) && leb batch_max_age (now - p.oldest)))) [
          | inl e ↦ rw e (aside-AllItems p _ refl refl refl a)
          | inr e ↦ rw e a
        ]

  pub run-AllItems :
      (steps : List Step) (p : Publisher)
      → All P (added steps)
      → AllItems p
      → AllItems (run steps p)
  unfolding run perform
  run-AllItems [] p h a = a
  run-AllItems (step_add now m ∷ steps) p h a =
      run-AllItems steps (add now m p) h.1 (add-AllItems now m p h.0 a)
  run-AllItems (step_tick now ∷ steps) p h a =
      run-AllItems steps (tick now p) h (tick-AllItems now p a)
  run-AllItems (step_flush ∷ steps) p h a =
      run-AllItems steps (call_flush p) h (aside-AllItems p _ refl refl refl a)
  run-AllItems (step_stop ∷ steps) p h a =
      run-AllItems steps (record p { stopped = true }) h (aside-AllItems p _ refl refl refl a)
  run-AllItems (step_close ∷ steps) p h a =
      run-AllItems steps (close_round p) h (close_round-AllItems p a)
  run-AllItems (step_take now ∷ steps) p h a =
      run-AllItems steps (take_batch now p) h (take_batch-AllItems now p a)
  run-AllItems (step_send raises k ∷ steps) p h a =
      run-AllItems steps (send raises k p) h (send-AllItems raises k p a)
  run-AllItems (step_warn ∷ steps) p h a = run-AllItems steps (end_warn p) h (end_warn-AllItems p a)

  pub run_start-AllItems : (steps : List Step) → All P (added steps) → AllItems (run steps start)
  run_start-AllItems steps h =
      run-AllItems steps start h (record { waiting = tt; taken = tt; sent = tt })
