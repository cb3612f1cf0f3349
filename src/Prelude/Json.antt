-- ===== src/Prelude/Json.antt =====
-- The values that `json.load` returns, Python's truth of such a value, and the entries of a dict.
use Prim.Native.Nat.{ℕ}
use mathlib.Core.Bool.{Bool, true, false, not}
use mathlib.Core.List.{List, [], ◌∷◌}
use infinite_streaming_encod.Prelude.Bools.{ltb}
use infinite_streaming_encod.Prelude.Text.{Text, is_empty}

mutual
  pub data Json : Type 0 where
    null : Json
    boolean : Bool → Json
    number : ℕ → Json
    string : Text → Json
    array : Items → Json
    object : Fields → Json

  pub data Items : Type 0 where
    end : Items
    item : Json → Items → Items

  pub data Fields : Type 0 where
    close : Fields
    field : Text → Json → Fields → Fields

-- `bool(value)`.
unfoldable pub truth : Json → Bool
truth null = false
truth (boolean b) = b
truth (number n) = ltb 0 n
truth (string s) = not (is_empty s)
truth (array end) = false
truth (array (item value items)) = true
truth (object close) = false
truth (object (field key value fields)) = true

-- `d.items()`.
unfoldable pub entries : Fields → List (Text × Json)
entries close = []
entries (field key value fields) = (key, value) ∷ entries fields
