-- ===== src/Telemetry/Names.antt =====
-- The queue of an execution: its name fits SQS, and executions with other endings get other queues.
use infinite_streaming_encod.Prelude.{
  ℕ, ◌-◌, ◌≤◌, ◌≡◌, ◌≢◌, refl, ap, sym, ◌∙◌, inl, inr, ◌++◌, arith, leb, leb→le, leb→gt, length,
  length-append, take, last_of, last_of-append, length-take, length-drop, Bool-cases,
}
use mathlib.Core.List.{append_cancel_left, append_cancel_right}
use infinite_streaming_encod.Prelude.Text.{Text}
use infinite_streaming_encod.Telemetry.{
  trim_execution_name, queue_name, queue_prefix, queue_suffix, name_max,
}

length-last_of : (n : ℕ) (s : Text) → n ≤ length s → length (last_of n s) ≡ n
length-last_of n s h = omega (arith, length-drop (length s - n) s)

last_of-append_exact : (s t : Text) (n : ℕ) → length t ≡ n → last_of n (s ++ t) ≡ t
last_of-append_exact s t n e = rw (← e) (last_of-append s t)

-- A trimmed name fits the room, and keeps the last seven characters, the `-` and the six
-- digits that tell executions of one job apart.
pub trim_execution_name_lem :
    (name : Text) (room : ℕ)
    → 7 ≤ room
    → (length (trim_execution_name name room) ≤ room)
      × (7 ≤ length name → last_of 7 (trim_execution_name name room) ≡ last_of 7 name)
unfolding trim_execution_name
trim_execution_name_lem name room h = elim (Bool-cases (leb (length name) room)) [
  | inl e ↦ rw e (leb→le _ _ e, λ l. refl)
  | inr e ↦ rw e (
    (let long = leb→gt (length name) room e in
        omega (
          arith,
          length-append (take (room - 7) name) (last_of 7 name),
          length-take (room - 7) name,
          length-last_of 7 name (omega arith),
        )),
    λ l. last_of-append_exact (take (room - 7) name) _ 7 (length-last_of 7 name l),
  )
]

-- A queue name is within the 80 characters of SQS.
length-queue_name : (name : Text) → length (queue_name name) ≤ name_max
unfolding queue_name
length-queue_name name = omega (
  arith,
  length-append queue_prefix (trim_execution_name name 57 ++ queue_suffix),
  length-append (trim_execution_name name 57) queue_suffix,
  (trim_execution_name_lem name 57 (omega arith)).0,
)

queue_name-trim :
    (a b : Text) → queue_name a ≡ queue_name b → trim_execution_name a 57 ≡ trim_execution_name b 57
unfolding queue_name
queue_name-trim a b e = append_cancel_right _ _ queue_suffix (append_cancel_left queue_prefix _ _ e)

-- A queue name has at most the 80 characters that SQS allows, and two executions whose names differ
-- in their last seven characters never share a queue.
pub queue_name_distinct :
    (a b : Text)
    → 7 ≤ length a
    → 7 ≤ length b
    → last_of 7 a ≢ last_of 7 b
    → (length (queue_name a) ≤ name_max) × (queue_name a ≢ queue_name b)
queue_name_distinct a b la lb ne = (
  length-queue_name a,
  λ e. ne (
      sym ((trim_execution_name_lem a 57 (omega arith)).1 la)
      ∙ ap (last_of 7) (queue_name-trim a b e)
      ∙ (trim_execution_name_lem b 57 (omega arith)).1 lb),
)
