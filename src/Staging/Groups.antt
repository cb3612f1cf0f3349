-- ===== src/Staging/Groups.antt =====
-- dist_staging.py, scan: the idle time of a prefix is that of its youngest object.
use infinite_streaming_encod.Prelude.{
  ℕ, ◌*◌, ◌≤◌, ◌≡◌, inl, inr, refl, sym, ap, ◌∙◌, none, some, Option, List, [], ◌∷◌, if_true,
  if_false, All, All-weaken, Bool-cases, Option-cases, arith,
}
use infinite_streaming_encod.Prelude.Text.{Text, text_eq, text_eq_iff, text_eq_refl}
use infinite_streaming_encod.Prelude.Dict.{
  find, assign, find-assign, IsDict, assign-IsDict, items_found,
}
use infinite_streaming_encod.Staging.{Object}
use infinite_streaming_encod.Staging.Sweep.{
  Group, or_new, younger, count_object, group_of, add_object, group_objects, idle_seconds,
}

-- The group of a prefix is known, and idle for at most this age.
abbrev AtMost : Text → ℕ → List (Text × Group) → Type 0
AtMost prefix age groups =
    (g : Group) × (idle : ℕ) × (find prefix groups ≡ some g) × (g.idle ≡ some idle) × (idle ≤ age)

younger_le : (idle : Option ℕ) (age : ℕ) → younger idle age ≤ age
unfolding younger
younger_le none age = omega arith
younger_le (some i) age = ground arith

younger_keeps : (i age : ℕ) → younger (some i) age ≤ i
unfolding younger
younger_keeps i age = ground arith

-- A group that is idle for at most some age stays so when further objects are added.
assign-AtMost :
    (prefix other : Text) (age : ℕ) (o : Object) (groups : List (Text × Group))
    → AtMost prefix age groups
    → AtMost prefix age (assign other (count_object o (or_new (find other groups))) groups)
unfolding count_object
assign-AtMost prefix other age o groups (g, idle, f, e, l) =
    let made = count_object o (or_new (find other groups)) in
    elim (Bool-cases (text_eq other prefix)) [
      | inl t ↦
          let same = (text_eq_iff other prefix).0 t in
          let known : or_new (find other groups) ≡ g =
            ap (λ p. or_new (find p groups)) same ∙ ap or_new f in
          let old : (or_new (find other groups)).idle ≡ some idle = ap Group.idle known ∙ e in
          let le = younger_keeps idle o.age in
          (
            made,
            younger (some idle) o.age,
            find-assign prefix other made groups ∙ if_true _ _ t,
            ap (λ i. some (younger i o.age)) old,
            omega (arith, le, l),
          )
      | inr t ↦ (g, idle, find-assign prefix other made groups ∙ if_false _ _ t ∙ f, e, l)
    ]

add_object-AtMost :
    (prefix : Text) (age : ℕ) (o : Object) (groups : List (Text × Group))
    → AtMost prefix age groups
    → AtMost prefix age (add_object o groups)
unfolding add_object
add_object-AtMost prefix age o groups h = elim (Option-cases (group_of o.key)) [
  | inl e ↦ rw (e, add_object) h
  | inr (other, e) ↦ rw (e, add_object) (assign-AtMost prefix other age o groups h)
]

added-AtMost :
    (prefix : Text) (o : Object) (groups : List (Text × Group))
    → group_of o.key ≡ some prefix
    → AtMost prefix o.age (add_object o groups)
unfolding add_object count_object
added-AtMost prefix o groups e =
    let made = count_object o (or_new (find prefix groups)) in
    rw (e, add_object)
      (
        made,
        younger (or_new (find prefix groups)).idle o.age,
        find-assign prefix prefix made groups ∙ if_true _ _ (text_eq_refl prefix),
        refl,
        younger_le (or_new (find prefix groups)).idle o.age,
      )

group_objects-AtMost :
    (prefix : Text) (age : ℕ) (objects : List Object) (groups : List (Text × Group))
    → AtMost prefix age groups
    → AtMost prefix age (group_objects objects groups)
unfolding group_objects
group_objects-AtMost prefix age [] groups h = h
group_objects-AtMost prefix age (o ∷ objects) groups h =
    group_objects-AtMost prefix age objects (add_object o groups)
      (add_object-AtMost prefix age o groups h)

group_objects-youngest :
    (prefix : Text) (objects : List Object) (groups : List (Text × Group))
    → All
        (λ o.
          group_of (Object.key o) ≡ some prefix
          → AtMost prefix o.age (group_objects objects groups))
        objects
unfolding group_objects
group_objects-youngest prefix [] groups = tt
group_objects-youngest prefix (o ∷ objects) groups = (
  λ e. group_objects-AtMost prefix o.age objects _ (added-AtMost prefix o groups e),
  group_objects-youngest prefix objects (add_object o groups),
)

add_object-IsDict :
    (o : Object) (groups : List (Text × Group)) → IsDict groups → IsDict (add_object o groups)
unfolding add_object
add_object-IsDict o groups h = elim (Option-cases (group_of o.key)) [
  | inl e ↦ rw (e, add_object) h
  | inr (other, e) ↦ rw (e, add_object) (assign-IsDict other _ groups h)
]

group_objects-IsDict :
    (objects : List Object) (groups : List (Text × Group))
    → IsDict groups
    → IsDict (group_objects objects groups)
unfolding group_objects
group_objects-IsDict [] groups h = h
group_objects-IsDict (o ∷ objects) groups h =
    group_objects-IsDict objects (add_object o groups) (add_object-IsDict o groups h)

idle-bound :
    (g : Group) (prefix : Text) (age : ℕ) (groups : List (Text × Group))
    → find prefix groups ≡ some g
    → AtMost prefix age groups
    → idle_seconds g * 1000 ≤ age
unfolding idle_seconds
idle-bound g prefix age groups f (h, idle, k, e, l) =
    let same : some g ≡ some h = sym f ∙ k in
    let is : g ≡ h = cc in rw (ap Group.idle is ∙ e) (omega (arith, l))

-- A prefix that a scan reports is idle for no longer than any of its objects: the age of each object
-- of the group, in milliseconds, is at least the idle seconds of the group.
pub group_objects-idle :
    (objects : List Object)
    → All
        (λ item.
          All
            (λ o. group_of (Object.key o) ≡ some item.0 → idle_seconds item.1 * 1000 ≤ o.age)
            objects)
        (group_objects objects [])
group_objects-idle objects =
    All-weaken (group_objects objects [])
      (λ item f.
        All-weaken objects
          (λ o at_most e. idle-bound item.1 item.0 o.age (group_objects objects []) f (at_most e))
          (group_objects-youngest item.0 objects []))
      (items_found (group_objects objects []) (group_objects-IsDict objects [] tt))
