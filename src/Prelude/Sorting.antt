-- ===== src/Prelude/Sorting.antt =====
-- Python's `sorted` with a key: a stable sort, the elements in the order of `le`.
use mathlib.Core.Path.{◌≡◌}
use mathlib.Core.Logic.{inl, inr}
use mathlib.Core.Bool.{Bool, true, false}
use mathlib.Core.List.{List, [], ◌∷◌, Perm}
use mathlib.Core.List.Perm
use infinite_streaming_encod.Prelude.Bools.{if◌then◌else◌, Bool-cases}
use infinite_streaming_encod.Prelude.Lists.{All}

module _ {A : Type 0} where
  unfoldable pub insert : (A → A → Bool) → A → List A → List A
  insert le x [] = x ∷ []
  insert le x (y ∷ ys) = let rest = insert le x ys in if le x y then x ∷ y ∷ ys else y ∷ rest

  unfoldable pub sort_by : (A → A → Bool) → List A → List A
  sort_by le [] = []
  sort_by le (x ∷ xs) = insert le x (sort_by le xs)

  insert-Perm : (le : A → A → Bool) (x : A) (ys : List A) → Perm (insert le x ys) (x ∷ ys)
  unfolding insert
  insert-Perm le x [] = Perm.refl _
  insert-Perm le x (y ∷ ys) = elim (Bool-cases (le x y)) [
    | inl e ↦ rw e (Perm.refl _)
    | inr e ↦ rw e (Perm.trans (Perm.cons y (insert-Perm le x ys)) (Perm.swap x y ys))
  ]

  pub sort_by-Perm : (le : A → A → Bool) (xs : List A) → Perm (sort_by le xs) xs
  unfolding sort_by
  sort_by-Perm le [] = Perm.refl _
  sort_by-Perm le (x ∷ xs) =
      Perm.trans (insert-Perm le x (sort_by le xs)) (Perm.cons x (sort_by-Perm le xs))

  -- Every element is in order with all the later ones.
  abbrev pub Sorted : (A → A → Bool) → List A → Type 0
  Sorted le [] = Unit
  Sorted le (x ∷ xs) = All (λ y. le x y ≡ true) xs × Sorted le xs

  insert-All :
      (P : A → Type 0) (le : A → A → Bool) (x : A) (ys : List A)
      → P x
      → All P ys
      → All P (insert le x ys)
  unfolding insert
  insert-All P le x [] p h = (p, tt)
  insert-All P le x (y ∷ ys) p (q, h) = elim (Bool-cases (le x y)) [
    | inl e ↦ rw e (p, (q, h))
    | inr e ↦ rw e (q, insert-All P le x ys p h)
  ]

  pub sort_by-All :
      (P : A → Type 0) (le : A → A → Bool) (xs : List A) → All P xs → All P (sort_by le xs)
  unfolding sort_by
  sort_by-All P le [] h = tt
  sort_by-All P le (x ∷ xs) (p, h) = insert-All P le x _ p (sort_by-All P le xs h)

  module _ (le : A → A → Bool) (total : (x y : A) → le x y ≡ false → le y x ≡ true)
      (transitive : (x y z : A) → le x y ≡ true → le y z ≡ true → le x z ≡ true) where
    above-All :
        (x y : A) (ys : List A)
        → le x y ≡ true
        → All (λ z. le y z ≡ true) ys
        → All (λ z. le x z ≡ true) ys
    above-All x y [] e h = tt
    above-All x y (z ∷ zs) e (k, h) = (transitive x y z e k, above-All x y zs e h)

    insert-Sorted : (x : A) (ys : List A) → Sorted le ys → Sorted le (insert le x ys)
    unfolding insert
    insert-Sorted x [] h = (tt, tt)
    insert-Sorted x (y ∷ ys) (a, h) = elim (Bool-cases (le x y)) [
      | inl e ↦ rw e ((e, above-All x y ys e a), (a, h))
      | inr e ↦ rw e (insert-All (λ z. le y z ≡ true) le x ys (total x y e) a, insert-Sorted x ys h)
    ]

    pub sort_by-Sorted : (xs : List A) → Sorted le (sort_by le xs)
    unfolding sort_by
    sort_by-Sorted [] = tt
    sort_by-Sorted (x ∷ xs) = insert-Sorted x _ (sort_by-Sorted xs)
