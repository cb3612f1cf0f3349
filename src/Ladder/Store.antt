-- ===== src/Ladder/Store.antt =====
-- ladder.py: where the ladder store is, the ladders it adds to the built-in ones, and the lookup of
-- one.
use infinite_streaming_encod.Prelude.{
  Bool, false, ◌&&◌, Option, none, some, List, [], ◌∷◌, ◌≡◌, inl, inr, refl, ap, ◌∙◌, if◌then◌else◌,
  Bool-cases, Option-cases,
}
use infinite_streaming_encod.Prelude.Text.{Text, codes, text_eq}
use infinite_streaming_encod.Prelude.Dict.{find, assign, find-assign}
use infinite_streaming_encod.Prelude.Environ.{set_variable, first_set}
use infinite_streaming_encod.Prelude.Json.{
  Json, null, boolean, number, string, array, object, Fields, truth, entries,
}
use infinite_streaming_encod.Prelude.Raises.{Raises, raised, returned, ◌>>=◌}

-- `AttributeError` of a value that has no such method, `LadderError` of an unknown name.
pub data StoreError : Type 0 where
  attribute_error : StoreError
  ladder_error : StoreError

-- What the file at the path gives: no file, an `OSError` or a `ValueError` in opening and
-- parsing it, or the parsed value.
pub data StoreFile : Type 0 where
  absent : StoreFile
  unreadable : StoreFile
  parsed : Json → StoreFile

abbrev pub Ladders : Type 0
Ladders = List (Text × Json)

unfoldable pub store_path : (Text → Text → Text) → (Text → Option Text) → Option Text
store_path join env = elim (set_variable env (codes "LADDER_STORE")) [
  | some p ↦ some p
  | none ↦
      elim (first_set env
        (codes "STATE_DIR" ∷ codes "TMPDIR" ∷ codes "ENCODER_TMP_ROOT" ∷ codes "TMP_DIR" ∷ [])) [
          | none ↦ none
          | some base ↦ some (join base (codes "ladders.json"))
        ]
]

-- `d.get(key)` of a dict.
abbrev pub get : Text → Fields → Option Json
get key fields = find key (entries fields)

-- `isinstance(definition, dict) and definition.get("codecs")`.
unfoldable pub is_definition : Json → Bool
is_definition (object fields) = elim (get (codes "codecs") fields) [
  | none ↦ false
  | some codecs ↦ truth codecs
]
is_definition null = false
is_definition (boolean b) = false
is_definition (number n) = false
is_definition (string s) = false
is_definition (array items) = false

unfoldable pub overlay : Ladders → List (Text × Json) → Ladders
overlay ladders [] = ladders
overlay ladders ((name, definition) ∷ rest) =
    overlay (if is_definition definition then assign name definition ladders else ladders) rest

-- `data.get("ladders") or {}`, and the `items()` of it.
unfoldable pub stored_items : Json → Raises StoreError (List (Text × Json))
stored_items (object fields) = elim (get (codes "ladders") fields) [
  | none ↦ returned []
  | some (object stored) ↦ returned (entries stored)
  | some other ↦ if truth other then raised attribute_error else returned []
]
stored_items null = raised attribute_error
stored_items (boolean b) = raised attribute_error
stored_items (number n) = raised attribute_error
stored_items (string s) = raised attribute_error
stored_items (array items) = raised attribute_error

unfoldable pub read_store : Ladders → StoreFile → Raises StoreError Ladders
read_store seeds absent = returned seeds
read_store seeds unreadable = returned seeds
read_store seeds (parsed value) = do items ← stored_items value; returned (overlay seeds items)

unfoldable pub load_ladders : Ladders → (Text → StoreFile) → Option Text → Raises StoreError Ladders
load_ladders seeds file none = returned seeds
load_ladders seeds file (some path) = read_store seeds (file path)

unfoldable pub get_ladder :
    Ladders → (Text → StoreFile) → Option Text → Text → Raises StoreError Json
get_ladder seeds file path name = do
  ladders ← load_ladders seeds file path
  elim (find name ladders) [ none ↦ raised ladder_error | some definition ↦ returned definition ]

-- The last definition of a name in the store that is a dict with codecs.
unfoldable pub latest : Text → List (Text × Json) → Option Json
latest name [] = none
latest name ((key, definition) ∷ rest) = elim (latest name rest) [
  | some later ↦ some later
  | none ↦ if is_definition definition && text_eq key name then some definition else none
]

abbrev pub or_else : Option Json → Option Json → Option Json
or_else (some a) o = some a
or_else none o = o

find-added :
    (name key : Text) (definition : Json) (ladders : Ladders)
    → find name (if is_definition definition then assign key definition ladders else ladders)
      ≡ or_else
          (if is_definition definition && text_eq key name then some definition else none)
          (find name ladders)
find-added name key definition ladders = elim (Bool-cases (is_definition definition)) [
  | inl e ↦ rw e (
      find-assign name key definition ladders
      ∙ elim (Bool-cases (text_eq key name)) [ inl t ↦ rw t refl | inr t ↦ rw t refl ])
  | inr e ↦ rw e refl
]

or_else-latest :
    (name key : Text) (definition : Json) (rest : List (Text × Json)) (o : Option Json)
    → or_else
        (latest name rest)
        (or_else (if is_definition definition && text_eq key name then some definition else none) o)
      ≡ or_else (latest name ((key, definition) ∷ rest)) o
unfolding latest
or_else-latest name key definition rest o = elim (Option-cases (latest name rest)) [
  | inl e ↦ rw e refl
  | inr (later, e) ↦ rw e refl
]

find-overlay :
    (name : Text) (items : List (Text × Json)) (ladders : Ladders)
    → find name (overlay ladders items) ≡ or_else (latest name items) (find name ladders)
unfolding overlay
find-overlay name [] ladders = unfold latest in refl
find-overlay name ((key, definition) ∷ rest) ladders =
    find-overlay name rest _
    ∙ ap (or_else (latest name rest)) (find-added name key definition ladders)
    ∙ or_else-latest name key definition rest (find name ladders)

-- A name's ladder is the store's last definition of it that is a dict with codecs, or else the
-- built-in one, and a name that neither has is a `LadderError`: for a store that parses, whose
-- ladders are the items given.
pub get_ladder-found :
    (seeds : Ladders) (file : Text → StoreFile) (path name : Text) (value : Json)
    (items : List (Text × Json))
    → file path ≡ parsed value
    → stored_items value ≡ returned items
    → get_ladder seeds file (some path) name
      ≡ elim (or_else (latest name items) (find name seeds)) [
        | none ↦ raised ladder_error
        | some definition ↦ returned definition
      ]
unfolding get_ladder load_ladders read_store
get_ladder-found seeds file path name value items e f =
    rw (e, f)
      (ap (λ o. elim o [ none ↦ raised ladder_error | some definition ↦ returned definition ])
        (find-overlay name items seeds))
