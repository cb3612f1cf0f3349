-- ===== src/Prelude/Environ.antt =====
-- Python's `os.environ`, a function from names.
use mathlib.Core.Option.{Option, none, some}
use mathlib.Core.List.{List, [], ◌∷◌}
use infinite_streaming_encod.Prelude.Bools.{if◌then◌else◌}
use infinite_streaming_encod.Prelude.Text.{Text, is_empty}

-- `os.environ.get(name)`, where it is not the empty text.
unfoldable pub set_variable : (Text → Option Text) → Text → Option Text
set_variable env name = elim (env name) [
  | none ↦ none
  | some value ↦ if is_empty value then none else some value
]

-- `os.environ.get(a) or os.environ.get(b) or …`.
unfoldable pub first_set : (Text → Option Text) → List Text → Option Text
first_set env [] = none
first_set env (name ∷ names) = elim (set_variable env name) [
  | none ↦ first_set env names
  | some base ↦ some base
]
