-- ===== src/Tests/Staging.antt =====
-- dist_staging.py over a storage with one staged object.
use infinite_streaming_encod.Prelude.{
  ℕ, ◌≡◌, ◌≢◌, ◌⊎◌, inl, inr, refl, Bool, true, false, Option, none, some, List, [], ◌∷◌, ◌++◌, map,
  keep_if, All, Bool-cases, if◌then◌else◌,
}
use infinite_streaming_encod.Prelude.Text.{
  Text, codes, decimal, is_empty, is_space, split, starts_with, strip, strip_both, strip_end,
  strip_front, text_eq,
}
use infinite_streaming_encod.Prelude.Raises.{returned}
use infinite_streaming_encod.Staging.{
  Listing, Object, Report, ResourceAction, Upload, bucket_name, delete_objects, delete_one_prefix,
  delete_prefix, deleted, endpoint_url, is_job_prefix, jobs_prefix, new_report, normalize_prefix,
  report_deletion, send_batch, slash, visit_key, visit_object, visit_objects,
}
use infinite_streaming_encod.Staging.Names.{IsName}
use infinite_streaming_encod.Staging.Requests.{keys_of, joined, IsRequest}
use infinite_streaming_encod.Staging.Deletion.{delete_one_prefix-Deletes}
use infinite_streaming_encod.Staging.Guard.{IsId}
use infinite_streaming_encod.Staging.Containment.{IsUnder, delete_prefix-IsUnder}
use infinite_streaming_encod.Staging.Sweep.{
  gc, mezz_cache_max_age, mezz_cache_prefix, scan, scan_call,
}
use infinite_streaming_encod.Staging.Keep.{IsSweptKey, gc-Sweeps}
use infinite_streaming_encod.Staging.Lifecycle.{
  Rule, ensure_lifecycle, ensure_lifecycle-again, is_correct, not_ours, existing_rules, rules_found,
  no_configuration, get_failed, new_rule, rules_put,
}
use infinite_streaming_encod.Prelude.Environ.{first_set, set_variable}

abbrev staged : Object
staged = record { key = codes "jobs/a/v.mp4"; size = 5; age = 900_000 }

abbrev never : ℕ → Bool
never k = false

abbrev listing : ℕ → Text → Listing
listing k prefix = record {
  objects = if starts_with prefix staged.key then staged ∷ [] else [];
  broken = false;
}

listing-lists :
    (k : ℕ) (prefix : Text)
    → All (λ o. starts_with prefix (Object.key o) ≡ true) (listing k prefix).objects
listing-lists k prefix = elim (Bool-cases (starts_with prefix staged.key)) [
  | inl e ↦ rw e (e, tt)
  | inr e ↦ rw e tt
]

abbrev env : Text → Option Text
env name = some (codes "http://minio:9000")

abbrev no_uploads : ℕ → Option (List Upload)
no_uploads k = none

abbrev empty : Report
empty = new_report []

a-IsName : IsName (codes "a")
unfolding is_space is_empty
a-IsName = ((refl, tt), (refl, tt), refl)

delete_one_prefix-Deletes_example :
    let made = delete_one_prefix never listing (codes "b") false none (codes "jobs/a/") empty in
    (sent : List (List Text)) × (rest : List Text) × (told : List ResourceAction) × (made.requests
      ≡ empty.requests ++ sent)
    × All IsRequest sent
    × (keys_of (listing 0 (codes "jobs/a/")).objects ≡ joined sent ++ rest)
    × ((false ≡ false) ⊎ (sent ≡ []))
    × (made.actions ≡ empty.actions ++ told)
    × All (λ a. (a.action ≢ deleted) ⊎ (rest ≡ [])) told
delete_one_prefix-Deletes_example =
    delete_one_prefix-Deletes never listing (codes "b") false none (codes "jobs/a/") empty

abbrev after_delete : Report
after_delete =
    delete_one_prefix never listing (codes "b") false none (codes "jobs/a/")
      (new_report (codes "dist:prefix:jobs/a/"))

-- One request, for the staged key.
one_request : after_delete.requests ≡ (staged.key ∷ []) ∷ []
unfolding delete_one_prefix report_deletion delete_objects visit_objects starts_with visit_object
    visit_key send_batch
one_request = refl

delete_ran :
    delete_prefix never listing env (codes "/jobs/a") (codes "b") false ≡ returned after_delete
unfolding delete_prefix is_job_prefix split strip_both strip_end strip_front normalize_prefix
    is_empty starts_with strip is_space text_eq endpoint_url first_set set_variable bucket_name
delete_ran = refl

delete_prefix-IsUnder_example :
    (after_delete.requests ≡ [])
    ⊎ ((id : Text) × IsId id
        × (normalize_prefix (codes "/jobs/a") ≡ jobs_prefix ++ (id ++ slash ∷ []))
        × IsUnder never listing listing-lists
            (jobs_prefix ++ (id ++ slash ∷ []))
            after_delete.requests)
delete_prefix-IsUnder_example =
    delete_prefix-IsUnder never listing listing-lists env (codes "/jobs/a") (codes "b") false
      after_delete delete_ran

swept :
    (r : Report) × (gc never listing no_uploads env (codes "b") false 600 (codes "jobs/c" ∷ [])
      ≡ returned r)
unfolding gc endpoint_url first_set set_variable is_empty scan_call scan
swept = (_, refl)

gc-Sweeps_example :
    (k : ℕ) × All
      (All (λ key.
        IsSweptKey 600
          (map normalize_prefix (codes "jobs/c" ∷ []))
          (listing 0 jobs_prefix).objects
          key
        ⊎ IsSweptKey mezz_cache_max_age [] (listing k mezz_cache_prefix).objects key))
      swept.0.requests
gc-Sweeps_example =
    gc-Sweeps never listing listing-lists no_uploads env (codes "b") false 600 (codes "jobs/c" ∷ [])
      swept.0 swept.1

abbrev other : Rule
other = record { id = codes "mine"; days = some 9; status = codes "Enabled"; filter = [] }

configured_once :
    (report : Report) × (ensure_lifecycle env 3 [] (rules_found (other ∷ [])) false
      ≡ returned (report, some (rules_put 3 (other ∷ []))))
unfolding ensure_lifecycle endpoint_url first_set set_variable is_empty is_correct text_eq
    existing_rules
configured_once = (_, refl)

endpoint : endpoint_url env ≡ returned (codes "http://minio:9000")
unfolding endpoint_url first_set set_variable is_empty
endpoint = refl

ensure_lifecycle-again_example :
    ((raises : Bool)
      → ensure_lifecycle env 3 [] (rules_found (rules_put 3 (other ∷ []))) raises
        ≡ returned (new_report (codes "dist:lifecycle:" ++ (decimal 3 ++ codes "d")), none))
    × (((found : List Rule) × (rules_found (other ∷ []) ≡ rules_found found)
          × (keep_if not_ours (rules_put 3 (other ∷ [])) ≡ keep_if not_ours found))
        ⊎ (((rules_found (other ∷ []) ≡ no_configuration) ⊎ (rules_found (other ∷ []) ≡ get_failed))
            × (rules_put 3 (other ∷ []) ≡ new_rule 3 ∷ [])))
ensure_lifecycle-again_example =
    ensure_lifecycle-again env 3 [] (codes "http://minio:9000") (rules_found (other ∷ []))
      configured_once.0 (rules_put 3 (other ∷ [])) endpoint configured_once.1
