-- ===== src/Drain/Sink.antt =====
-- From the publisher of telemetry.py over its sink to the drain of cli_batch.py: what comes out of
-- the queue, in whichever order. `sent` is the stamp that the queue gives.
use mathlib.Core.List.{append-nil, append_assoc, Perm, Permᴰ}
use std.Logic.{∥∥₁_elim}
use native.Mathlib.Nat.{ℕ_set}
use infinite_streaming_encod.Prelude.{
  ℕ, suc, ◌+◌, ◌≤◌, ◌<◌, Bool, true, false, ◌&&◌, not, List, [], ◌∷◌, ◌++◌, ◌≡◌, ◌⊎◌, inl, inr,
  refl, sym, ap, ◌∙◌, if◌then◌else◌, keep_if, Bool-cases, All, All-weaken, length, map, take_all,
  arith,
}
use infinite_streaming_encod.Prelude.Text.{
  Text, Free, is_empty, all_digits, value_from, strip_space_end, split, join, split-join,
  length-join,
}
use infinite_streaming_encod.Telemetry.{Item, Step, start, run, is_heartbeat}
use infinite_streaming_encod.Telemetry.Markers.{is_heartbeat-is_record}
use infinite_streaming_encod.Telemetry.Numbering.{joined, numbered, count_if, count_if-append}
use infinite_streaming_encod.Telemetry.Queueing.{added, IsBatch, IsFaithful}
use infinite_streaming_encod.Telemetry.Items.{AllItems, run_start-AllItems}
use infinite_streaming_encod.Telemetry.Delivery.{run_start-IsFaithful, run_start-handed}
use infinite_streaming_encod.Telemetry.Sink.{
  Entry, SqsSink, new_sink, max_body, texts_of, entry_for, sink_send, sink_send_all,
}
use infinite_streaming_encod.Stages.{Board}
use infinite_streaming_encod.Census.{Receive}
use infinite_streaming_encod.Drain.{Message, collect, drain_telemetry}
use infinite_streaming_encod.Drain.Records.{
  is_record_line, records_of_lines, records_of, records_printed, drain_telemetry-Prints,
}

-- `_msg_seq`, of a text of digits or a text that does not parse.
unfoldable pub msg_seq : Text → ℕ
msg_seq text = if all_digits text && not (is_empty text) then value_from 0 text else 0

-- What a receive gives for an entry.
unfoldable pub message_of : (Entry → ℕ) → Entry → Message
message_of sent e = record {
  publisher = e.publisher;
  seq = msg_seq e.seq;
  sent = sent e;
  body = e.message_body;
}

-- A marker as the emitters write it: one line without white space at its end, and not too long.
abbrev pub IsPlain : Text → Type 0
IsPlain m = Free b'\n' m × (strip_space_end m ≡ m) × (length m < 20_000)

abbrev IsPlainItem : Item → Type 0
IsPlainItem i = IsPlain i.1

texts-numbered : (k : ℕ) (ms : List Text) → texts_of (numbered k ms) ≡ ms
texts-numbered k [] = refl
texts-numbered k (m ∷ ms) = ap (λ l. m ∷ l) (texts-numbered (k + 1) ms)

texts_of-append : (xs ys : List Item) → texts_of (xs ++ ys) ≡ texts_of xs ++ texts_of ys
texts_of-append [] ys = refl
texts_of-append ((k, m) ∷ xs) ys = ap (λ l. m ∷ l) (texts_of-append xs ys)

length-texts_of : (xs : List Item) → length (texts_of xs) ≡ length xs
length-texts_of [] = refl
length-texts_of ((k, m) ∷ xs) = ap suc (length-texts_of xs)

IsPlain-texts_of : (xs : List Item) → All IsPlainItem xs → All IsPlain (texts_of xs)
IsPlain-texts_of [] h = tt
IsPlain-texts_of ((k, m) ∷ xs) h = (h.0, IsPlain-texts_of xs h.1)

keep_if-append :
    (xs ys : List Text)
    → keep_if is_record_line (xs ++ ys) ≡ keep_if is_record_line xs ++ keep_if is_record_line ys
keep_if-append [] ys = refl
keep_if-append (x ∷ xs) ys = elim (Bool-cases (is_record_line x)) [
  | inl e ↦ rw e (ap (λ l. x ∷ l) (keep_if-append xs ys))
  | inr e ↦ rw e (keep_if-append xs ys)
]

-- Plain lines lose nothing when their ends are stripped.
records_of_lines-plain :
    (ms : List Text) → All IsPlain ms → records_of_lines ms ≡ keep_if is_record_line ms
unfolding records_of_lines
records_of_lines-plain [] h = refl
records_of_lines-plain (m ∷ ms) h = rw (h.0.1, records_of_lines-plain ms h.1) refl

-- The body of a batch of at most ten plain markers is not cut.
body-whole :
    (batch : List Item)
    → All IsPlainItem batch
    → length batch ≤ 10
    → length (join b'\n' (texts_of batch)) ≤ max_body
body-whole batch h l = omega (
  arith,
  length-texts_of batch,
  length-join b'\n' 20_000 (texts_of batch)
      (All-weaken (texts_of batch) (λ m k. k.2) (IsPlain-texts_of batch h)),
)

abbrev IsSendable : List Item → Type 0
IsSendable batch = All IsPlainItem batch × (0 < length batch) × (length batch ≤ 10)

-- What a message tells the drain is what the batch told the sink.
records-entry :
    (pub_id : Text) (seq : ℕ) (marker : Text) (items : List Item)
    → IsSendable ((seq, marker) ∷ items)
    → records_of_lines (split b'\n' (entry_for pub_id seq ((seq, marker) ∷ items)).message_body)
      ≡ keep_if is_record_line (texts_of ((seq, marker) ∷ items))
unfolding entry_for
records-entry pub_id seq marker items h =
    let whole = take_all max_body _ (body-whole ((seq, marker) ∷ items) h.0 h.2) in
    let plain = IsPlain-texts_of items h.0.1 in
    ap (λ body. records_of_lines (split b'\n' body)) whole
    ∙ ap records_of_lines (
        split-join b'\n' marker (texts_of items) h.0.0.0
          (All-weaken (texts_of items) (λ m k. k.0) plain))
    ∙ records_of_lines-plain (marker ∷ texts_of items) (h.0.0, plain)

records_of-append : (xs ys : List Message) → records_of (xs ++ ys) ≡ records_of xs ++ records_of ys
unfolding records_of
records_of-append [] ys = refl
records_of-append (m ∷ xs) ys =
    ap (λ l. records_of_lines (split b'\n' m.body) ++ l) (records_of-append xs ys)
    ∙ sym (append_assoc (records_of_lines (split b'\n' m.body)) (records_of xs) (records_of ys))

map-append : (f : Entry → Message) (xs ys : List Entry) → map f (xs ++ ys) ≡ map f xs ++ map f ys
map-append f [] ys = refl
map-append f (x ∷ xs) ys = ap (λ l. f x ∷ l) (map-append f xs ys)

module _ (fails : ℕ → Bool) (pub_id : Text) (sent : Entry → ℕ)
    (works : (k : ℕ) → fails k ≡ false) where
  abbrev told : List Entry → List Text
  told entries = records_of (map (message_of sent) entries)

  told-append : (xs ys : List Entry) → told (xs ++ ys) ≡ told xs ++ told ys
  told-append xs ys =
      ap records_of (map-append (message_of sent) xs ys)
      ∙ records_of-append (map (message_of sent) xs) (map (message_of sent) ys)

  told-entry :
      (seq : ℕ) (marker : Text) (items : List Item)
      → IsSendable ((seq, marker) ∷ items)
      → told (entry_for pub_id seq ((seq, marker) ∷ items) ∷ [])
        ≡ keep_if is_record_line (texts_of ((seq, marker) ∷ items))
  unfolding records_of message_of
  told-entry seq marker items h = append-nil _ ∙ records-entry pub_id seq marker items h

  told-sink_send :
      (batch : List Item) (s : SqsSink)
      → IsSendable batch
      → told (sink_send fails pub_id batch s).accepted
        ≡ told s.accepted ++ keep_if is_record_line (texts_of batch)
  unfolding sink_send
  told-sink_send [] s h = absurd (omega (arith, h.1))
  told-sink_send ((seq, marker) ∷ items) s h = rw (works s.calls) (
      told-append s.accepted (entry_for pub_id seq ((seq, marker) ∷ items) ∷ [])
      ∙ ap (λ l. told s.accepted ++ l) (told-entry seq marker items h))

  told-sink_send_all :
      (batches : List (List Item)) (s : SqsSink)
      → All IsSendable batches
      → told (sink_send_all fails pub_id batches s).accepted
        ≡ told s.accepted ++ keep_if is_record_line (texts_of (joined batches))
  unfolding sink_send_all
  told-sink_send_all [] s h = sym (append-nil (told s.accepted))
  told-sink_send_all (batch ∷ batches) s h =
      told-sink_send_all batches (sink_send fails pub_id batch s) h.1
      ∙ ap (λ l. l ++ keep_if is_record_line (texts_of (joined batches)))
          (told-sink_send batch s h.0)
      ∙ append_assoc (told s.accepted) (keep_if is_record_line (texts_of batch)) _
      ∙ ap (λ l. told s.accepted ++ l)
          (sym (keep_if-append (texts_of batch) (texts_of (joined batches)))
            ∙ ap (keep_if is_record_line) (sym (texts_of-append batch (joined batches))))

-- The records among some items, counted by a test of their texts.
abbrev counts_record : (Text → Bool) → Item → Bool
counts_record q i = is_record_line i.1 && q i.1

count-records :
    (q : Text → Bool) (items : List Item)
    → count_if q (keep_if is_record_line (texts_of items)) ≡ count_if (counts_record q) items
count-records q [] = refl
count-records q ((k, m) ∷ items) = elim (Bool-cases (is_record_line m)) [
  | inl e ↦ rw e (ground (arith, count-records q items))
  | inr e ↦ rw e (ground (arith, count-records q items))
]

heartbeat-uncounted :
    (q : Text → Bool) (i : Item) → is_heartbeat i.1 ≡ true → counts_record q i ≡ false
heartbeat-uncounted q i h = ground (arith, is_heartbeat-is_record i.1 h)

IsSendable-batches :
    (batches : List (List Item))
    → All (All IsPlainItem) batches
    → All IsBatch batches
    → All IsSendable batches
IsSendable-batches [] h k = tt
IsSendable-batches (b ∷ batches) h k = ((h.0, k.0.0, k.0.1), IsSendable-batches batches h.1 k.1)

-- What the entries of a run of the publisher tell the drain.
queue-records :
    (fails : ℕ → Bool) (pub_id : Text) (sent : Entry → ℕ)
    → ((k : ℕ) → fails k ≡ false)
    → (steps : List Step) → All IsPlain (added steps)
    → (run steps start).flushing ≡ 0
    → (run steps start).held ≡ []
    → (q : Text → Bool)
    → count_if q (
        records_of (
          map
            (message_of sent)
            (sink_send_all fails pub_id (run steps start).handed new_sink).accepted))
      ≡ count_if q (keep_if is_record_line (added steps))
unfolding records_of
queue-records fails pub_id sent works steps plain none_left none_held q =
    let p = run steps start in
    let sendable =
      IsSendable-batches p.handed (AllItems.sent (run_start-AllItems IsPlain steps plain))
        (IsFaithful.sent (run_start-IsFaithful steps)) in
    ap (count_if q) (told-sink_send_all fails pub_id sent works p.handed new_sink sendable)
    ∙ count-records q (joined p.handed)
    ∙ run_start-handed steps (counts_record q) none_left none_held (heartbeat-uncounted q)
    ∙ sym (count-records q (numbered 1 (added steps)))
    ∙ ap (λ l. count_if q (keep_if is_record_line l)) (texts-numbered 1 (added steps))

records_of-cons :
    (q : Text → Bool) (m : Message) (xs : List Message)
    → count_if q (records_of (m ∷ xs))
      ≡ count_if q (records_of (m ∷ [])) + count_if q (records_of xs)
records_of-cons q m xs =
    ap (count_if q) (records_of-append (m ∷ []) xs)
    ∙ count_if-append q (records_of (m ∷ [])) (records_of xs)

records_of-PermD :
    (q : Text → Bool) {xs ys : List Message}
    → Permᴰ xs ys
    → count_if q (records_of xs) ≡ count_if q (records_of ys)
records_of-PermD q Permᴰ.nil = refl
records_of-PermD q (Permᴰ.cons {a = a} {b = b} {l₁ = xs} {l₂ = ys} e d) = omega (
  arith,
  records_of-cons q a xs,
  records_of-cons q b ys,
  ap (λ m. count_if q (records_of (m ∷ []))) e,
  records_of-PermD q d,
)
records_of-PermD q (Permᴰ.swap {a = a} {b = b} {a' = c} {b' = d} {l = l} e f) = omega (
  arith,
  records_of-cons q a (b ∷ l),
  records_of-cons q b l,
  records_of-cons q c (d ∷ l),
  records_of-cons q d l,
  ap (λ m. count_if q (records_of (m ∷ []))) e,
  ap (λ m. count_if q (records_of (m ∷ []))) f,
)
records_of-PermD q (Permᴰ.trans d e) = records_of-PermD q d ∙ records_of-PermD q e

records_of-Perm :
    (q : Text → Bool) {xs ys : List Message}
    → Perm xs ys
    → count_if q (records_of xs) ≡ count_if q (records_of ys)
records_of-Perm q p = ∥∥₁_elim p (ℕ_set _ _) (λ d. records_of-PermD q d)

-- From a worker to the page: after any interleaving of the threads of the publisher in which no call
-- of `flush` is left unfinished, over a sink whose sends work, a drain that receives all the entries,
-- in whichever order, prints each record as often as it was added, unless the percent of a stage
-- marker does not parse. A marker is one line of fewer than 20,000 characters without white space at
-- its end. Whatever still waits in the publisher's buffer is no record.
pub drain_telemetry-run :
    (fails : ℕ → Bool) (pub_id : Text) (sent : Entry → ℕ)
    → ((k : ℕ) → fails k ≡ false)
    → (steps : List Step) → All IsPlain (added steps)
    → (run steps start).flushing ≡ 0
    → (run steps start).held ≡ []
    → (now : ℕ) (rounds : List (Receive Message)) (b : Board) (seen : List (Text × ℕ))
    → Perm (collect rounds) (
        map
          (message_of sent)
          (sink_send_all fails pub_id (run steps start).handed new_sink).accepted)
    → (q : Text → Bool)
    → ((drain_telemetry now rounds b seen).raised ≡ true)
      ⊎ (count_if q (records_printed (drain_telemetry now rounds b seen).board.printed)
          ≡ count_if q (records_printed b.printed)
            + count_if q (keep_if is_record_line (added steps)))
drain_telemetry-run fails pub_id sent works steps plain none_left none_held now rounds b seen e q =
    elim (drain_telemetry-Prints now rounds b seen) [
      | inl r ↦ inl r
      | inr h ↦ inr (
          ap (count_if q) h
          ∙ count_if-append q (records_printed b.printed) (records_of (collect rounds))
          ∙ ap (λ (n : ℕ). count_if q (records_printed b.printed) + n)
              (records_of-Perm q e
                ∙ queue-records fails pub_id sent works steps plain none_left none_held q))
    ]
