-- ===== src/Staging/Prefixes.antt =====
-- dist_staging.py, scan: a key under the prefix of a group belongs to the group.
use mathlib.Core.List.{append_assoc}
use infinite_streaming_encod.Prelude.{
  ◌≡◌, inl, inr, refl, sym, ap, ◌∙◌, true, false, none, some, List, [], ◌∷◌, ◌++◌, if◌then◌else◌,
  if_true, if_false, length, drop, All, Bool-cases, Option-cases,
}
use infinite_streaming_encod.Prelude.Text.{
  Text, Free, starts_with, starts_with→append, is_empty, partition, partition-append,
  partition-Free, text_eq,
}
use infinite_streaming_encod.Prelude.Dict.{find, assign}
use infinite_streaming_encod.Staging.{slash, Object}
use infinite_streaming_encod.Staging.Sweep.{
  Group, two_parts, group_of, count_object, or_new, add_object, group_objects,
}

two_parts-of :
    (key a rest b last : Text)
    → partition slash key ≡ some (a, rest)
    → partition slash rest ≡ some (b, last)
    → two_parts key ≡ some (a ++ slash ∷ (b ++ slash ∷ []), b)
unfolding two_parts
two_parts-of key a rest b last e f = rw (e, two_parts) (rw (f, two_parts) refl)

-- The two parts of a prefix that is `a/b/`.
two_parts-join :
    (a b tail : Text)
    → Free slash a
    → Free slash b
    → two_parts ((a ++ slash ∷ (b ++ slash ∷ [])) ++ tail)
      ≡ some (a ++ slash ∷ (b ++ slash ∷ []), b)
two_parts-join a b tail f g =
    two_parts-of _ a (b ++ slash ∷ tail) b tail
      (ap (partition slash) (
          append_assoc a (slash ∷ (b ++ slash ∷ [])) tail
          ∙ ap (λ l. a ++ slash ∷ l) (append_assoc b (slash ∷ []) tail))
        ∙ partition-append slash a (b ++ slash ∷ tail) f)
      (partition-append slash b tail g)

-- A prefix of two parts without a slash.
abbrev IsGroupPrefix : Text → Type 0
IsGroupPrefix prefix =
    (a : Text) × (b : Text) × Free slash a
    × Free slash b
    × (is_empty b ≡ false)
    × (prefix ≡ a ++ slash ∷ (b ++ slash ∷ []))

group_of-some :
    (key p b : Text)
    → two_parts key ≡ some (p, b)
    → group_of key ≡ (if is_empty b then none else some p)
unfolding group_of
group_of-some key p b e = rw (e, group_of) refl

group_of-none : (key : Text) → two_parts key ≡ none → group_of key ≡ none
unfolding group_of
group_of-none key e = rw (e, group_of) refl

two_parts-none : (key : Text) → partition slash key ≡ none → two_parts key ≡ none
unfolding two_parts
two_parts-none key e = rw (e, two_parts) refl

two_parts-one :
    (key a rest : Text)
    → partition slash key ≡ some (a, rest)
    → partition slash rest ≡ none
    → two_parts key ≡ none
unfolding two_parts
two_parts-one key a rest e f = rw (e, two_parts) (rw (f, two_parts) refl)

group_of-IsGroupPrefix : (key prefix : Text) → group_of key ≡ some prefix → IsGroupPrefix prefix
group_of-IsGroupPrefix key prefix e = elim (Option-cases (partition slash key)) [
  | inl n ↦
      let no : none ≡ some prefix = sym (group_of-none key (two_parts-none key n)) ∙ e in
      absurd (cc)
  | inr ((a, rest), n) ↦ elim (Option-cases (partition slash rest)) [
    | inl m ↦
        let no : none ≡ some prefix = sym (group_of-none key (two_parts-one key a rest n m)) ∙ e in
        absurd (cc)
    | inr ((b, last), m) ↦
        let p = a ++ slash ∷ (b ++ slash ∷ []) in
        let found = group_of-some key p b (two_parts-of key a rest b last n m) in
        elim (Bool-cases (is_empty b)) [
          | inl t ↦
              let no : none ≡ some prefix = sym (found ∙ if_true none (some p) t) ∙ e in absurd (cc)
          | inr t ↦
              let same : some p ≡ some prefix = sym (found ∙ if_false none (some p) t) ∙ e in
              (
                a,
                b,
                partition-Free slash key a rest n,
                partition-Free slash rest b last m,
                t,
                let is : p ≡ prefix = cc in sym is,
              )
        ]
  ]
]

-- A key that starts with the prefix of a group belongs to that group.
pub group_of-under :
    (key other prefix : Text)
    → group_of other ≡ some prefix
    → starts_with prefix key ≡ true
    → group_of key ≡ some prefix
group_of-under key other prefix e u =
    let (a, b, f, g, t, same) = group_of-IsGroupPrefix other prefix e in
    let p = a ++ slash ∷ (b ++ slash ∷ []) in
    let tail = drop (length prefix) key in
    let whole : key ≡ p ++ tail = starts_with→append prefix key u ∙ ap (λ l. l ++ tail) same in
    ap group_of whole
    ∙ group_of-some (p ++ tail) p b (two_parts-join a b tail f g)
    ∙ if_false none (some p) t
    ∙ ap some (sym same)

-- Some of the objects belongs to the group of the prefix.
pub data Lists (prefix : Text) : List Object → Type 0 where
  here :
      {o : Object} {objects : List Object}
      → group_of o.key ≡ some prefix
      → Lists prefix (o ∷ objects)
  there : {o : Object} {objects : List Object} → Lists prefix objects → Lists prefix (o ∷ objects)

assign-All :
    (P : Text → Type 0) (prefix : Text) (g : Group) (groups : List (Text × Group))
    → P prefix
    → All (λ item. P item.0) groups
    → All (λ item. P item.0) (assign prefix g groups)
unfolding assign
assign-All P prefix g [] p h = (p, tt)
assign-All P prefix g ((k, w) ∷ groups) p h = elim (Bool-cases (text_eq k prefix)) [
  | inl e ↦ rw e (p, h.1)
  | inr e ↦ rw e (h.0, assign-All P prefix g groups p h.1)
]

add_object-All :
    (P : Text → Type 0) (o : Object) (groups : List (Text × Group))
    → ((prefix : Text) → group_of o.key ≡ some prefix → P prefix)
    → All (λ item. P item.0) groups
    → All (λ item. P item.0) (add_object o groups)
unfolding add_object
add_object-All P o groups p h = elim (Option-cases (group_of o.key)) [
  | inl e ↦ rw (e, add_object) h
  | inr (prefix, e) ↦
      rw (e, add_object)
        (assign-All P prefix (count_object o (or_new (find prefix groups))) groups (p prefix e) h)
]

group_objects-All :
    (P : Text → Type 0) (objects : List Object) (groups : List (Text × Group))
    → ((prefix : Text) → Lists prefix objects → P prefix)
    → All (λ item. P item.0) groups
    → All (λ item. P item.0) (group_objects objects groups)
unfolding group_objects
group_objects-All P [] groups p h = h
group_objects-All P (o ∷ objects) groups p h =
    group_objects-All P objects (add_object o groups) (λ prefix l. p prefix (there l))
      (add_object-All P o groups (λ prefix e. p prefix (here e)) h)

-- Each prefix that a scan reports is that of an object that it listed.
pub group_objects-Lists :
    (objects : List Object) → All (λ item. Lists item.0 objects) (group_objects objects [])
group_objects-Lists objects =
    group_objects-All (λ prefix. Lists prefix objects) objects [] (λ prefix l. l) tt

pub Lists-under :
    (prefix key : Text) {objects : List Object}
    → Lists prefix objects
    → starts_with prefix key ≡ true
    → group_of key ≡ some prefix
Lists-under prefix key (here {o} {objects} e) u = group_of-under key o.key prefix e u
Lists-under prefix key (there {o} {objects} l) u = Lists-under prefix key l u
