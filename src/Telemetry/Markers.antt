-- ===== src/Telemetry/Markers.antt =====
-- The taxonomy of markers: what may wait is never a record.
use infinite_streaming_encod.Prelude.{
  ◌≡◌, ◌≢◌, refl, ◌∙◌, ap, true, false, inl, inr, [], ◌∷◌, ◌++◌, arith, Bool-cases, All,
}
use infinite_streaming_encod.Prelude.Text.{
  Text, codes, text_eq, text_eq_iff, starts_with, starts_with→append, before, strip_end,
}
use infinite_streaming_encod.Telemetry.{
  live, record_class, marker_prefix, class_of_name, marker_class, is_record, is_gauge, is_heartbeat,
  stage_key,
}

class_of_stage : (s : Text) → marker_class (stage_key ++ s) ≡ live
unfolding marker_class class_of_name before strip_end text_eq
class_of_stage s = refl

-- A stage marker is no record.
pub stage-is_record : (line : Text) → starts_with stage_key line ≡ true → is_record line ≡ false
unfolding is_record
stage-is_record line e =
    let c : marker_class line ≡ live =
      ap marker_class (starts_with→append stage_key line e) ∙ class_of_stage _ in
    ground arith

-- A marker that may wait in the publisher's buffer can be lost: it is no record.
pub is_heartbeat-is_record : (line : Text) → is_heartbeat line ≡ true → is_record line ≡ false
unfolding is_heartbeat is_gauge is_record
is_heartbeat-is_record line h = elim (Bool-cases (starts_with stage_key line)) [
  | inl e ↦
      let c : marker_class line ≡ live =
        ap marker_class (starts_with→append stage_key line e) ∙ class_of_stage _ in
      ground arith
  | inr e ↦ ground arith
]

-- A name as the emitters write it: no blank and no bracket in it.
abbrev pub IsName : Text → Type 0
IsName name = All (λ c. (c ≢ b' ') × (c ≢ b']')) name

before-append : (name rest : Text) → IsName name → before b' ' (name ++ b' ' ∷ rest) ≡ name
unfolding before
before-append [] rest h = refl
before-append (c ∷ name) rest h = ground (arith, h.0.0, before-append name rest h.1)

strip_end-IsName : (name : Text) → IsName name → strip_end b']' name ≡ name
unfolding strip_end
strip_end-IsName [] h = refl
strip_end-IsName (c ∷ []) h = ground (arith, h.0.1)
strip_end-IsName (c ∷ d ∷ name) h = rw (strip_end-IsName (d ∷ name) h.1, strip_end)

marker_class-name :
    (name rest : Text)
    → IsName name
    → marker_class (marker_prefix ++ name ++ b' ' ∷ rest) ≡ class_of_name name
unfolding marker_class
marker_class-name name rest h =
    ap (λ (t : Text). class_of_name (strip_end b']' t)) (before-append name rest h)
    ∙ ap class_of_name (strip_end-IsName name h)

-- A marker of any name but STAGE and FLEET is a record, whatever follows the name: an emitter that
-- adds a marker need not teach a consumer to keep it.
pub is_record-name :
    (name rest : Text)
    → IsName name
    → name ≢ codes "STAGE"
    → name ≢ codes "FLEET"
    → is_record (marker_prefix ++ name ++ b' ' ∷ rest) ≡ true
unfolding is_record
is_record-name name rest h s f = ground (arith, marker_class-name name rest h, unknown)
  where
    unknown : class_of_name name ≡ record_class
    unknown =
        unfold class_of_name in
        ground (arith, text_eq_iff name (codes "STAGE"), text_eq_iff name (codes "FLEET"), s, f)
