-- ===== src/Prelude/Raises.antt =====
-- A Python call that returns a value or raises an exception of the type `E`.
use mathlib.Core.Path.{◌≡◌, refl, ap}

pub data Raises {ℓ} (E : Type ℓ) (A : Type ℓ) : Type ℓ where
  raised : E → Raises E A
  returned : A → Raises E A

infixl 8 ◌>>=◌
abbrev pub ◌>>=◌ {ℓ} : {E A B : Type ℓ} → Raises E A → (A → Raises E B) → Raises E B
◌>>=◌ m next = elim m [ raised e ↦ raised e | returned a ↦ next a ]

-- What a call that returned has gone through.
pub returned_through {ℓ} :
    {E A B : Type ℓ} (m : Raises E A) (next : A → Raises E B) {b : B}
    → (m >>= next) ≡ returned b
    → (a : A) × (m ≡ returned a) × (next a ≡ returned b)
returned_through (raised e) next h = cc
returned_through (returned a) next h = (a, refl, h)

abbrev value_or {ℓ} : {E A : Type ℓ} → A → Raises E A → A
value_or a (raised e) = a
value_or a (returned b) = b

pub returned-injective {ℓ} :
    {E A : Type ℓ} {a b : A} → ◌≡◌ {A = Raises E A} (returned a) (returned b) → a ≡ b
returned-injective {a = a} e = ap (value_or a) e
