-- ===== src/Telemetry/Batches.antt =====
-- telemetry.py, _Publisher.flush: the batches that are taken and not yet sent.
use infinite_streaming_encod.Prelude.{
  ℕ, zero, suc, ◌+◌, ◌≤◌, ◌≡◌, ap, sym, ◌∙◌, Bool, inl, inr, Option, none, some, List, [], ◌∷◌,
  arith, length, All, All-append, Option-cases,
}
use mathlib.Core.Path.{subst}
use infinite_streaming_encod.Prelude.Text.{Text}
use infinite_streaming_encod.Telemetry.{Item, batch_max, with_batch, with_first, pick}
use infinite_streaming_encod.Telemetry.Numbering.{
  joined, count_if, count_if-append, count_batches, count_batches-append, numbered,
}
use infinite_streaming_encod.Telemetry.Queueing.{IsBatch}

pub count_batches-with_batch :
    (q : Item → Bool) (batch : List Item) (held : List (List Item))
    → count_batches q (with_batch batch held) ≡ count_batches q held + count_if q batch
count_batches-with_batch q [] held = omega arith
count_batches-with_batch q (i ∷ batch) held =
    omega (arith, count_batches-append q held ((i ∷ batch) ∷ []), count_if-append q (i ∷ batch) [])

pub with_batch-IsBatch :
    (batch : List Item) (held : List (List Item)) (k : ℕ) (ms : List Text)
    → length batch ≤ batch_max
    → batch ≡ numbered k ms
    → All IsBatch held
    → All IsBatch (with_batch batch held)
with_batch-IsBatch [] held k ms l e h = h
with_batch-IsBatch (i ∷ batch) held k ms l e h =
    All-append IsBatch held ((i ∷ batch) ∷ []) h ((omega arith, l, k, ms, e), tt)

pub pick-count :
    (q : Item → Bool) (k : ℕ) (held : List (List Item)) (batch : List Item)
    (rest : List (List Item))
    → pick k held ≡ some (batch, rest)
    → count_batches q held ≡ count_if q batch + count_batches q rest
unfolding pick
pick-count q k [] batch rest e = absurd (cc)
pick-count q zero (b ∷ bs) batch rest e =
    let same : ◌≡◌ {A = List Item × List (List Item)} (b, bs) (batch, rest) = cc in
    count_if-append q b (joined bs) ∙ ap (λ x. count_if q x.0 + count_batches q x.1) same
pick-count q (suc k) (b ∷ bs) batch rest e = elim (Option-cases (pick k bs)) [
  | inl n ↦
      let no : ◌≡◌ {A = Option (List Item × List (List Item))} none (some (batch, rest)) =
        ap (with_first b) (sym n) ∙ e in
      absurd (cc)
  | inr ((c, others), n) ↦
      let same : ◌≡◌ {A = List Item × List (List Item)} (c, b ∷ others) (batch, rest) =
        let full : ◌≡◌ {A = Option (List Item × List (List Item))} (some (c, b ∷ others))
            (some (batch, rest)) =
          ap (with_first b) (sym n) ∙ e in
        cc in
      omega (
        arith,
        count_if-append q b (joined bs),
        pick-count q k bs c others n,
        count_if-append q b (joined others),
        ap (λ x. count_if q x.0 + count_batches q x.1) same,
      )
]

pub pick-IsBatch :
    (k : ℕ) (held : List (List Item)) (batch : List Item) (rest : List (List Item))
    → pick k held ≡ some (batch, rest)
    → All IsBatch held
    → IsBatch batch × All IsBatch rest
unfolding pick
pick-IsBatch k [] batch rest e h = absurd (cc)
pick-IsBatch zero (b ∷ bs) batch rest e h =
    let same : ◌≡◌ {A = List Item × List (List Item)} (b, bs) (batch, rest) = cc in
    subst (λ x. IsBatch x.0 × All IsBatch x.1) same h
pick-IsBatch (suc k) (b ∷ bs) batch rest e h = elim (Option-cases (pick k bs)) [
  | inl n ↦
      let no : ◌≡◌ {A = Option (List Item × List (List Item))} none (some (batch, rest)) =
        ap (with_first b) (sym n) ∙ e in
      absurd (cc)
  | inr ((c, others), n) ↦
      let same : ◌≡◌ {A = List Item × List (List Item)} (c, b ∷ others) (batch, rest) =
        let full : ◌≡◌ {A = Option (List Item × List (List Item))} (some (c, b ∷ others))
            (some (batch, rest)) =
          ap (with_first b) (sym n) ∙ e in
        cc in
      let found = pick-IsBatch k bs c others n h.1 in
      subst (λ x. IsBatch x.0 × All IsBatch x.1) same (found.0, (h.0, found.1))
]
