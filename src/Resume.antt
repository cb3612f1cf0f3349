-- ===== src/Resume.antt =====
-- scripts/infinite_streaming_encoder/resume.py: which encoded variants of a directory are reused,
-- and which codec mode is driven.
-- A directory is the list of its files in the order of `sorted`; a file carries what the file
-- system says of it and of its `.done` sidecar. Names are ASCII and have no line break.
pub mod Discovery
pub mod Selection
use infinite_streaming_encod.Prelude.{
  ℕ, suc, ◌+◌, ◌-◌, Bool, true, false, ◌&&◌, not, Option, none, some, List, [], ◌∷◌, ◌++◌, ltb,
  ◌==◌, if◌then◌else◌, is_nil, map, length, take, drop,
}
use infinite_streaming_encod.Prelude.Text.{Text, codes, text_eq, starts_with, is_digit, is_empty}
use infinite_streaming_encod.Prelude.Dict.{find}
use infinite_streaming_encod.Prelude.Raises.{Raises, raised, returned}

-- The sidecar: no file, an `OSError` or a `ValueError` (and a number below 0), or the recorded size.
pub data Marker : Type 0 where
  missing : Marker
  unreadable : Marker
  recorded : ℕ → Marker

pub record File : Type 0 where
  pub name : Text
  pub is_file : Bool
  pub size : ℕ
  pub marker : Marker

pub data ResumeError : Type 0 where
  no_directory : ResumeError
  no_variants : ResumeError
  unknown_selection : ResumeError
  missing_codecs : ResumeError
  unreachable : ResumeError

abbrev pub supported_codecs : List Text
supported_codecs = codes "hevc" ∷ codes "h264" ∷ codes "av1" ∷ []

abbrev pub marker_says : Marker → ℕ → Bool
marker_says missing size = false
marker_says unreadable size = false
marker_says (recorded n) size = n == size

unfoldable pub is_complete : File → Bool
is_complete f =
    if not (f.is_file) then false else if f.size == 0 then false else marker_says f.marker f.size

unfoldable pub ends_with : Text → Text → Bool
ends_with suffix text = text_eq (drop (length text - length suffix) text) suffix

-- The text without the digits at its end.
unfoldable pub without_digits : Text → Text
without_digits [] = []
without_digits (c ∷ s) = elim (without_digits s) [
  | [] ↦ if is_digit c then [] else c ∷ []
  | d ∷ rest ↦ c ∷ d ∷ rest
]

-- `_CHUNK_RE.search(label)`.
unfoldable pub is_chunk : Text → Bool
is_chunk label =
    ltb (length (without_digits label)) (length label)
    && ends_with (codes "_chunk") (without_digits label)

-- `glob(f"{codec}_*.mp4")`, and `candidate.stem[len(codec) + 1:]`.
unfoldable pub is_variant : Text → Text → Bool
is_variant codec name = starts_with (codec ++ codes "_") name && ends_with (codes ".mp4") name

unfoldable pub label_of : Text → Text → Text
label_of codec name = drop (length codec + 1) (take (length name - 4) name)

-- The tests of the loop that `continue`, turned round.
unfoldable pub is_candidate : Text → File → Bool
is_candidate codec f =
    is_variant codec f.name
    && not (is_empty (label_of codec f.name))
    && not (is_chunk (label_of codec f.name))
    && not (f.size == 0)

pub record Found : Type 0 where
  pub labels : List Text
  pub partial : List Text

-- The loop over the candidates of one codec.
unfoldable pub scan_codec : Text → List File → Found
scan_codec codec [] = record { labels = []; partial = [] }
scan_codec codec (f ∷ files) =
    let rest = scan_codec codec files in
    if is_candidate codec f
    then (if is_complete f
        then record rest { labels = label_of codec f.name ∷ rest.labels }
        else record rest { partial = f.name ∷ rest.partial })
    else rest

pub record ResumeInventory : Type 0 where
  pub available : List (Text × List Text)
  pub has_audio : Bool
  pub partial : List Text

-- A codec without labels is not in the dict.
unfoldable pub available_of : List File → List Text → List (Text × List Text)
available_of files [] = []
available_of files (codec ∷ codecs) =
    let rest = available_of files codecs in
    let labels = (scan_codec codec files).labels in
    if is_nil labels then rest else (codec, labels) ∷ rest

unfoldable pub partial_of : List File → List Text → List Text
partial_of files [] = []
partial_of files (codec ∷ codecs) = (scan_codec codec files).partial ++ partial_of files codecs

unfoldable pub file_named : Text → List File → Option File
file_named name [] = none
file_named name (f ∷ files) = if text_eq f.name name then some f else file_named name files

-- The audio file where it is a file that is not empty.
unfoldable pub audio_file : List File → Option File
audio_file files = elim (file_named (codes "audio.mp4") files) [
  | none ↦ none
  | some f ↦ if f.is_file && ltb 0 f.size then some f else none
]

unfoldable pub audio_of : List File → Bool
audio_of files = elim (audio_file files) [ none ↦ false | some f ↦ is_complete f ]

unfoldable pub partial_audio : List File → List Text
partial_audio files = elim (audio_file files) [
  | none ↦ []
  | some f ↦ if is_complete f then [] else codes "audio.mp4" ∷ []
]

unfoldable pub discover : Option (List File) → Raises ResumeError ResumeInventory
discover none = raised no_directory
discover (some files) = returned (record {
  available = available_of files supported_codecs;
  has_audio = audio_of files;
  partial = partial_of files supported_codecs ++ partial_audio files;
})

-- `codec in present`, and `required <= present`.
unfoldable pub has : List Text → Text → Bool
has [] codec = false
has (c ∷ present) codec = if text_eq c codec then true else has present codec

unfoldable pub has_all : List Text → List Text → Bool
has_all present [] = true
has_all present (codec ∷ codecs) = has present codec && has_all present codecs

abbrev pub required_codecs : List (Text × List Text)
required_codecs =
    (codes "hevc", codes "hevc" ∷ [])
    ∷ (codes "h264", codes "h264" ∷ [])
    ∷ (codes "av1", codes "av1" ∷ [])
    ∷ (codes "both", codes "hevc" ∷ codes "h264" ∷ [])
    ∷ (codes "all", codes "hevc" ∷ codes "h264" ∷ codes "av1" ∷ [])
    ∷ []

-- The mode that the caller asked for.
unfoldable pub check_requested : List Text → Text → Raises ResumeError Text
check_requested present requested = elim (find requested required_codecs) [
  | none ↦ raised unknown_selection
  | some required ↦ if has_all present required then returned requested else raised missing_codecs
]

-- The mode that is selected from what is there.
unfoldable pub auto_select : List Text → Raises ResumeError Text
auto_select present =
    if has_all present (codes "hevc" ∷ codes "h264" ∷ codes "av1" ∷ [])
    then returned (codes "all")
    else if has_all present (codes "hevc" ∷ codes "h264" ∷ [])
    then returned (codes "both")
    else if has present (codes "hevc")
    then returned (codes "hevc")
    else if has present (codes "h264")
    then returned (codes "h264")
    else if has present (codes "av1")
    then returned (codes "av1")
    else raised unreachable

abbrev pub codecs_of : ResumeInventory → List Text
codecs_of inventory = map (λ (entry : Text × List Text). entry.0) inventory.available

-- An empty request is no request.
unfoldable pub resolve_codec_selection : ResumeInventory → Option Text → Raises ResumeError Text
resolve_codec_selection inventory requested =
    if is_nil (codecs_of inventory) then raised no_variants else elim requested [
      | none ↦ auto_select (codecs_of inventory)
      | some mode ↦
          if is_empty mode
          then auto_select (codecs_of inventory)
          else check_requested (codecs_of inventory) mode
    ]
