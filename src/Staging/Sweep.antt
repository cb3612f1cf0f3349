-- ===== src/Staging/Sweep.antt =====
-- dist_staging.py: the scan of the staged prefixes, and the sweep of what is idle.
use infinite_streaming_encod.Prelude.{
  ℕ, ◌+◌, ◌*◌, ◌/◌, Bool, false, ◌&&◌, ◌||◌, not, Option, none, some, List, [], ◌∷◌, ◌++◌, ltb, leb,
  if◌then◌else◌, map,
}
use infinite_streaming_encod.Prelude.Text.{
  Text, codes, text_eq, starts_with, is_empty, decimal, partition, text_leb,
}
use infinite_streaming_encod.Prelude.Dict.{find, assign}
use infinite_streaming_encod.Prelude.Sorting.{sort_by}
use infinite_streaming_encod.Prelude.Raises.{Raises, raised, returned, ◌>>=◌}
use infinite_streaming_encod.Staging.{
  slash, jobs_prefix, StagingError, storage_error, endpoint_url, bucket_name, normalize_prefix,
  job_id_of, or_none, ResourceAction, multipart, s3_prefix, deleted, would_delete, skipped, failed,
  still_active, initiated, error_text, s3_url, Object, Upload, Listing, Report, new_report,
  add_action, delete_one_prefix,
}

-- `MEZZ_CACHE_PREFIX` and `MEZZ_CACHE_MAX_AGE_S`.
abbrev pub mezz_cache_prefix : Text
mezz_cache_prefix = codes "mezz-cache/"

abbrev pub mezz_cache_max_age : ℕ
mezz_cache_max_age = 24 * 3600

-- `f"{parts[0]}/{parts[1]}/"` of `key.split("/", 2)`, where there are three parts, and part 1.
unfoldable pub two_parts : Text → Option (Text × Text)
two_parts key = elim (partition slash key) [
  | none ↦ none
  | some (a, rest) ↦ elim (partition slash rest) [
    | none ↦ none
    | some (b, last) ↦ some (a ++ slash ∷ (b ++ slash ∷ []), b)
  ]
]

unfoldable pub group_of : Text → Option Text
group_of key = elim (two_parts key) [
  | none ↦ none
  | some (prefix, part) ↦ if is_empty part then none else some prefix
]

-- `idle` is in milliseconds here, `none` for None.
pub record Group : Type 0 where
  pub objects : ℕ
  pub bytes : ℕ
  pub idle : Option ℕ

abbrev pub new_group : Group
new_group = record { objects = 0; bytes = 0; idle = none }

unfoldable pub younger : Option ℕ → ℕ → ℕ
younger none age = age
younger (some idle) age = if ltb age idle then age else idle

abbrev pub or_new : Option Group → Group
or_new none = new_group
or_new (some g) = g

unfoldable pub count_object : Object → Group → Group
count_object o g = record {
  objects = g.objects + 1;
  bytes = g.bytes + o.size;
  idle = some (younger g.idle o.age);
}

unfoldable pub add_object : Object → List (Text × Group) → List (Text × Group)
add_object o groups = elim (group_of o.key) [
  | none ↦ groups
  | some prefix ↦ assign prefix (count_object o (or_new (find prefix groups))) groups
]

unfoldable pub group_objects : List Object → List (Text × Group) → List (Text × Group)
group_objects [] groups = groups
group_objects (o ∷ objects) groups = group_objects objects (add_object o groups)

-- `int(g["idle_s"] or 0)`.
unfoldable pub idle_seconds : Group → ℕ
idle_seconds g = elim g.idle [ none ↦ 0 | some idle ↦ idle / 1000 ]

-- The groups of a listing, and the error of a page that raised.
unfoldable pub scan : Listing → Raises StagingError (List (Text × Group))
scan pages =
    if pages.broken then raised storage_error else returned (group_objects pages.objects [])

abbrev pub by_prefix : Text × Group → Text × Group → Bool
by_prefix x y = text_leb x.0 y.0

abbrev pub by_bytes : Text × Group → Text × Group → Bool
by_bytes x y = leb y.1.bytes x.1.bytes

unfoldable pub total_objects : List (Text × Group) → ℕ
total_objects [] = 0
total_objects ((prefix, g) ∷ groups) = g.objects + total_objects groups

unfoldable pub total_bytes_of : List (Text × Group) → ℕ
total_bytes_of [] = 0
total_bytes_of ((prefix, g) ∷ groups) = g.bytes + total_bytes_of groups

-- `usage`: the prefixes, the objects and the bytes.
unfoldable pub usage : Listing → Raises StagingError (List (Text × Group) × ℕ × ℕ)
usage pages = scan pages >>= (λ groups.
    let prefixes = sort_by by_bytes groups in
    returned (prefixes, total_objects prefixes, total_bytes_of prefixes))

unfoldable pub is_kept : Text → List Text → Bool
is_kept prefix [] = false
is_kept prefix (k ∷ keep) = text_eq k prefix || is_kept prefix keep

-- The prefix of an upload: the empty text where its key has fewer than three parts.
unfoldable pub upload_prefix : Text → Text
upload_prefix key = elim (two_parts key) [ none ↦ [] | some (prefix, part) ↦ prefix ]

-- `scan` of one of the two trees, as a call of its own.
unfoldable pub scan_call :
    (ℕ → Text → Listing) → Text → Report → Raises StagingError (List (Text × Group) × Report)
scan_call listing top r =
    scan (listing r.calls top)
    >>= (λ groups. returned (sort_by by_prefix groups, record r { calls = r.calls + 1 }))

module _ (fails : ℕ → Bool) (bucket : Text) (dry_run : Bool) where
  abbrev pub call_abort : Upload → Report → Report
  call_abort u r = record r { calls = r.calls + 1; aborts = r.aborts ++ u ∷ [] }

  unfoldable pub abort_upload : Upload → Report → Report
  abort_upload u r =
      let made : ResourceAction = record {
        kind = multipart;
        id = s3_url bucket u.key;
        job_id = or_none (job_id_of (upload_prefix u.key));
        action = if dry_run then would_delete else deleted;
        detail = initiated u.age;
      } in
      if dry_run
      then add_action made r
      else if fails r.calls
      then add_action (record made { action = failed; detail = error_text }) (call_abort u r)
      else add_action made (call_abort u r)

  unfoldable pub is_stale_upload : ℕ → List Text → Upload → Bool
  is_stale_upload max_age keep u =
      starts_with jobs_prefix u.key
      && not (is_kept (upload_prefix u.key) keep)
      && leb (max_age * 1000) u.age

  unfoldable pub abort_uploads : ℕ → List Text → List Upload → Report → Report
  abort_uploads max_age keep [] r = r
  abort_uploads max_age keep (u ∷ uploads) r =
      abort_uploads max_age keep uploads
        (if is_stale_upload max_age keep u then abort_upload u r else r)

  -- `abort_stale_uploads`, with what the listing gives: `none` where it raises.
  unfoldable pub abort_stale_uploads : ℕ → List Text → Option (List Upload) → Report → Report
  abort_stale_uploads max_age keep none r =
      add_action
        (record {
          kind = multipart;
          id = s3_url bucket jobs_prefix;
          job_id = none;
          action = failed;
          detail = error_text;
        })
        r
  abort_stale_uploads max_age keep (some uploads) r = abort_uploads max_age keep uploads r

  module _ (listing : ℕ → Text → Listing) where
    abbrev pub keep_prefix : Text → Report → Report
    keep_prefix prefix r =
        add_action
          (record {
            kind = s3_prefix;
            id = s3_url bucket prefix;
            job_id = some (job_id_of prefix);
            action = skipped;
            detail = still_active;
          })
          r

    unfoldable pub sweep_job : ℕ → List Text → Text × Group → Report → Report
    sweep_job max_age keep (prefix, g) r =
        if is_kept prefix keep
        then keep_prefix prefix r
        else if ltb (idle_seconds g) max_age
        then r
        else delete_one_prefix fails listing bucket dry_run (some (idle_seconds g)) prefix r

    unfoldable pub sweep_jobs : ℕ → List Text → List (Text × Group) → Report → Report
    sweep_jobs max_age keep [] r = r
    sweep_jobs max_age keep (item ∷ items) r =
        sweep_jobs max_age keep items (sweep_job max_age keep item r)

-- `gc`; the sweep of the mezzanine cache keeps nothing but what was used within a day.
unfoldable pub gc :
    (ℕ → Bool)
    → (ℕ → Text → Listing)
    → (ℕ → Option (List Upload))
    → (Text → Option Text)
    → Text
    → Bool
    → ℕ
    → List Text
    → Raises StagingError Report
gc fails listing uploads env bucket dry_run max_age keep =
    let b = bucket_name env bucket in
    let keep_set = map normalize_prefix keep in
    let report = new_report (codes "dist:gc:" ++ (decimal max_age ++ codes "s")) in
    endpoint_url env >>= (λ url. scan_call listing jobs_prefix report >>= (λ jobs.
      let swept = sweep_jobs fails b dry_run listing max_age keep_set jobs.0 jobs.1 in
      scan_call listing mezz_cache_prefix swept >>= (λ mezz.
        let r = sweep_jobs fails b dry_run listing mezz_cache_max_age [] mezz.0 mezz.1 in
        returned (
          abort_stale_uploads fails b dry_run max_age keep_set (uploads r.calls)
            (record r { calls = r.calls + 1 })))))
