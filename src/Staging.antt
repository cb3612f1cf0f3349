-- ===== src/Staging.antt =====
-- scripts/infinite_streaming_encoder/dist_staging.py: the names of what is staged in MinIO, and the
-- deletion of one prefix. Texts are ASCII, and an age is in milliseconds, 0 for what is not past.
-- What the storage answers to the k-th call is an argument.
pub mod Names
pub mod Guard
pub mod Containment
pub mod Requests
pub mod Deletion
pub mod Sweep
pub mod Groups
pub mod Prefixes
pub mod Keep
pub mod Lifecycle
use infinite_streaming_encod.Prelude.{
  ℕ, ◌+◌, ◌*◌, Bool, true, false, ◌&&◌, ◌||◌, not, Option, none, some, List, [], ◌∷◌, ◌++◌, ltb,
  leb, ◌==◌, if◌then◌else◌, length, is_nil,
}
use infinite_streaming_encod.Prelude.Text.{
  Text, codes, text_eq, starts_with, is_empty, decimal, strip, strip_end, strip_both, partition,
  split,
}
use infinite_streaming_encod.Prelude.Environ.{first_set}
use infinite_streaming_encod.Prelude.Raises.{Raises, raised, returned, ◌>>=◌}

abbrev pub slash : ℕ
slash = b'/'

-- `DEFAULT_BUCKET`, `JOBS_PREFIX`, `_DELETE_BATCH`.
abbrev pub default_bucket : Text
default_bucket = codes "encoder-local"

abbrev pub jobs_prefix : Text
jobs_prefix = codes "jobs/"

abbrev pub delete_batch : ℕ
delete_batch = 1000

-- `StagingError`, and an error of the storage that is not caught.
pub data StagingError : Type 0 where
  no_endpoint : StagingError
  storage_error : StagingError

unfoldable pub endpoint_url : (Text → Option Text) → Raises StagingError Text
endpoint_url env = elim (first_set env (codes "S3_ENDPOINT_URL" ∷ codes "MINIO_ENDPOINT" ∷ [])) [
  | none ↦ raised no_endpoint
  | some url ↦ returned url
]

unfoldable pub bucket_name : (Text → Option Text) → Text → Text
bucket_name env explicit =
    if is_empty explicit
    then elim (first_set env (codes "DIST_S3_BUCKET" ∷ [])) [ none ↦ default_bucket | some b ↦ b ]
    else explicit

-- `p.split("/", 3)[3] if p.count("/") >= 3 else ""`.
unfoldable pub after_slashes : Text → Text
after_slashes p = elim (partition slash p) [
  | none ↦ []
  | some (a, rest) ↦ elim (partition slash rest) [
    | none ↦ []
    | some (b, rest) ↦ elim (partition slash rest) [ none ↦ [] | some (c, rest) ↦ rest ]
  ]
]

abbrev pub with_slash : Text → Text
with_slash p = if is_empty p then [] else p ++ slash ∷ []

unfoldable pub normalize_prefix : Text → Text
normalize_prefix prefix =
    let p = strip prefix in
    with_slash (strip_both slash (if starts_with (codes "s3://") p then after_slashes p else p))

-- `text.split("/")[-1]`, and the text or None where it is empty.
unfoldable pub last_part : List Text → Text
last_part [] = []
last_part (part ∷ []) = part
last_part (part ∷ next ∷ parts) = last_part (next ∷ parts)

unfoldable pub job_id_of : Text → Text
job_id_of prefix = last_part (split slash (strip_end slash prefix))

abbrev pub or_none : Text → Option Text
or_none text = if is_empty text then none else some text

pub data Kind : Type 0 where
  s3_prefix multipart lifecycle : Kind

pub data Action : Type 0 where
  deleted would_delete skipped configured failed : Action

-- The facts that `detail` is printed from.
pub data Detail : Type 0 where
  reclaimed : ℕ → ℕ → Option ℕ → Detail
  refused : Detail
  still_active : Detail
  initiated : ℕ → Detail
  expire_after : ℕ → Detail
  error_text : Detail

pub record ResourceAction : Type 0 where
  pub kind : Kind
  pub id : Text
  pub job_id : Option Text
  pub action : Action
  pub detail : Detail

abbrev pub s3_url : Text → Text → Text
s3_url bucket key = codes "s3://" ++ (bucket ++ slash ∷ key)

-- An object, or an upload that was not completed.
pub record Object : Type 0 where
  pub key : Text
  pub size : ℕ
  pub age : ℕ

pub record Upload : Type 0 where
  pub key : Text
  pub upload_id : Text
  pub age : ℕ

-- What the pages of a listing hold, and whether a page raised after these.
pub record Listing : Type 0 where
  pub objects : List Object
  pub broken : Bool

-- `CleanupReport`, with the calls made: how many, the keys of each `delete_objects`, and the
-- uploads of each `abort_multipart_upload`.
pub record Report : Type 0 where
  pub scope : Text
  pub actions : List ResourceAction
  pub calls : ℕ
  pub requests : List (List Text)
  pub aborts : List Upload

abbrev pub new_report : Text → Report
new_report scope = record { scope = scope; actions = []; calls = 0; requests = []; aborts = [] }

abbrev pub add_action : ResourceAction → Report → Report
add_action action r = record r { actions = r.actions ++ action ∷ [] }

-- The variables of the loop of `_delete_one_prefix`.
pub record Deleting : Type 0 where
  pub report : Report
  pub batch : List Text
  pub total : ℕ
  pub total_bytes : ℕ
  pub stopped : Bool

-- The guard of `delete_prefix`.
unfoldable pub is_job_prefix : Text → Bool
is_job_prefix p = elim (split slash (strip_both slash p)) [
  | jobs ∷ id ∷ [] ↦
      text_eq jobs (codes "jobs")
      && not (is_empty id || text_eq id (codes ".") || text_eq id (codes ".."))
  | _ ↦ false
]

module _ (fails : ℕ → Bool) (listing : ℕ → Text → Listing) where
  -- `delete_objects` of the batch.
  unfoldable pub send_batch : Deleting → Deleting
  send_batch d = record d {
    report = record d.report {
      calls = d.report.calls + 1;
      requests = d.report.requests ++ d.batch ∷ [];
    };
    batch = [];
    stopped = fails d.report.calls;
  }

  unfoldable pub visit_key : Text → Deleting → Deleting
  visit_key key d =
      let next = record d { batch = d.batch ++ key ∷ [] } in
      if leb delete_batch (length next.batch) then send_batch next else next

  unfoldable pub visit_object : Bool → Object → Deleting → Deleting
  visit_object dry_run o d =
      let counted = record d { total = d.total + 1; total_bytes = d.total_bytes + o.size } in
      if d.stopped then d else if dry_run then counted else visit_key o.key counted

  unfoldable pub visit_objects : Bool → List Object → Deleting → Deleting
  visit_objects dry_run [] d = d
  visit_objects dry_run (o ∷ objects) d = visit_objects dry_run objects (visit_object dry_run o d)

  -- The calls of `_delete_one_prefix`.
  unfoldable pub delete_objects : Bool → Text → Report → Deleting
  delete_objects dry_run prefix r =
      let pages = listing r.calls prefix in
      let d = visit_objects dry_run pages.objects (record {
        report = record r { calls = r.calls + 1 };
        batch = [];
        total = 0;
        total_bytes = 0;
        stopped = false;
      }) in
      if d.stopped || pages.broken
      then record d { stopped = true }
      else if is_nil d.batch
      then d
      else send_batch d

  unfoldable pub report_deletion : Text → Bool → Option ℕ → Text → Deleting → Report
  report_deletion bucket dry_run idle prefix d =
      let action : Action → Detail → ResourceAction = λ made detail. record {
        kind = s3_prefix;
        id = s3_url bucket prefix;
        job_id = some (job_id_of prefix);
        action = made;
        detail = detail;
      } in
      if d.stopped
      then add_action (action failed error_text) d.report
      else if d.total == 0
      then d.report
      else add_action
          (action (if dry_run then would_delete else deleted)
            (reclaimed d.total d.total_bytes idle))
          d.report

  -- `_delete_one_prefix`, with the idle time of the suffix.
  unfoldable pub delete_one_prefix : Text → Bool → Option ℕ → Text → Report → Report
  delete_one_prefix bucket dry_run idle prefix r =
      report_deletion bucket dry_run idle prefix (delete_objects dry_run prefix r)

  unfoldable pub delete_prefix :
      (Text → Option Text) → Text → Text → Bool → Raises StagingError Report
  delete_prefix env prefix bucket dry_run =
      let p = normalize_prefix prefix in
      let report = new_report (codes "dist:prefix:" ++ p) in
      if is_job_prefix p
      then (endpoint_url env
          >>= (λ url. returned (delete_one_prefix (bucket_name env bucket) dry_run none p report)))
      else returned (
          add_action
            (record {
              kind = s3_prefix;
              id = prefix;
              job_id = none;
              action = skipped;
              detail = refused;
            })
            report)
