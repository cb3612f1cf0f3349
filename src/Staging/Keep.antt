-- ===== src/Staging/Keep.antt =====
-- dist_staging.py, gc: what a sweep deletes.
use mathlib.Core.Path.{subst}
use mathlib.Core.List.{append_assoc, append-nil}
use infinite_streaming_encod.Prelude.{
  ℕ, ◌+◌, ◌*◌, ◌≤◌, ◌≡◌, ◌⊎◌, inl, inr, refl, sym, ap, ◌∙◌, Bool, true, false, none, some, Option,
  List, [], ◌∷◌, ◌++◌, ltb, if◌then◌else◌, map, All, All-append, All-weaken, Bool-cases, arith,
}
use infinite_streaming_encod.Prelude.Text.{Text, codes, decimal, starts_with}
use infinite_streaming_encod.Prelude.Sorting.{sort_by, sort_by-All}
use infinite_streaming_encod.Prelude.Raises.{
  Raises, raised, returned, returned_through, returned-injective, ◌>>=◌,
}
use infinite_streaming_encod.Staging.{
  jobs_prefix, StagingError, storage_error, endpoint_url, bucket_name, normalize_prefix, Object,
  Upload, Listing, Report, new_report,
}
use infinite_streaming_encod.Staging.Containment.{delete_one_prefix-IsUnder}
use infinite_streaming_encod.Staging.Groups.{group_objects-idle}
use infinite_streaming_encod.Staging.Prefixes.{Lists, Lists-under, group_objects-Lists}
use infinite_streaming_encod.Staging.Sweep.{
  mezz_cache_prefix, mezz_cache_max_age, Group, group_of, group_objects, idle_seconds, scan,
  by_prefix, is_kept, abort_upload, abort_uploads, abort_stale_uploads, sweep_job, sweep_jobs,
  scan_call, gc,
}

-- A group that may be swept: some object of it is listed, it is not kept, and all its listed objects
-- are old enough.
abbrev pub IsSwept : ℕ → List Text → List Object → Text → Type 0
IsSwept max_age keep objects prefix =
    Lists prefix objects
    × (is_kept prefix keep ≡ false)
    × All (λ o. group_of (Object.key o) ≡ some prefix → max_age * 1000 ≤ o.age) objects

-- A key of a group that may be swept.
abbrev pub IsSweptKey : ℕ → List Text → List Object → Text → Type 0
IsSweptKey max_age keep objects key =
    (prefix : Text) × (group_of key ≡ some prefix) × IsSwept max_age keep objects prefix

abbrev IsOld : List Object → Text × Group → Type 0
IsOld objects item =
    Lists item.0 objects
    × All (λ o. group_of (Object.key o) ≡ some item.0 → idle_seconds item.1 * 1000 ≤ o.age) objects

module _ (fails : ℕ → Bool) (listing : ℕ → Text → Listing)
    (lists : (k : ℕ) (prefix : Text)
      → All (λ o. starts_with prefix (Object.key o) ≡ true) (listing k prefix).objects)
    (bucket : Text) (dry_run : Bool) where
  -- From `r` to `s`, only such keys are asked to be deleted.
  abbrev Sweeps : (Text → Type 0) → Report → Report → Type 0
  Sweeps P r s = (sent : List (List Text)) × (s.requests ≡ r.requests ++ sent) × All (All P) sent

  Sweeps-refl : (P : Text → Type 0) (r : Report) → Sweeps P r r
  Sweeps-refl P r = ([], sym (append-nil r.requests), tt)

  Sweeps-trans : (P : Text → Type 0) (r s t : Report) → Sweeps P r s → Sweeps P s t → Sweeps P r t
  Sweeps-trans P r s t h k = (
    h.0 ++ k.0,
    k.1 ∙ ap (λ l. l ++ k.0) h.1 ∙ append_assoc r.requests h.0 k.0,
    All-append (All P) h.0 k.0 h.2 k.2,
  )

  sweep_job-Sweeps :
      (max_age : ℕ) (keep : List Text) (objects : List Object) (item : Text × Group) (r : Report)
      → IsOld objects item
      → Sweeps
          (IsSweptKey max_age keep objects)
          r
          (sweep_job fails bucket dry_run listing max_age keep item r)
  unfolding sweep_job
  sweep_job-Sweeps max_age keep objects (prefix, g) r old =
      elim (Bool-cases (is_kept prefix keep)) [
        | inl e ↦ rw e (Sweeps-refl _ r)
        | inr e ↦ elim (Bool-cases (ltb (idle_seconds g) max_age)) [
          | inl t ↦ rw (e, t) (Sweeps-refl _ r)
          | inr t ↦
              rw (e, t)
                (let made =
                    delete_one_prefix-IsUnder fails listing lists bucket dry_run
                      (some (idle_seconds g)) prefix r in
                  let swept : IsSwept max_age keep objects prefix =
                    (old.0, e, All-weaken objects (λ o h u. let l = h u in ground arith) old.1) in
                  (
                    made.0,
                    made.1,
                    All-weaken made.0
                        (λ keys h.
                          All-weaken keys (λ key u. (prefix, Lists-under prefix key old.0 u, swept))
                            h)
                        made.2,
                  ))
        ]
      ]

  sweep_jobs-Sweeps :
      (max_age : ℕ) (keep : List Text) (objects : List Object) (items : List (Text × Group))
      (r : Report)
      → All (IsOld objects) items
      → Sweeps
          (IsSweptKey max_age keep objects)
          r
          (sweep_jobs fails bucket dry_run listing max_age keep items r)
  unfolding sweep_jobs
  sweep_jobs-Sweeps max_age keep objects [] r h = Sweeps-refl _ r
  sweep_jobs-Sweeps max_age keep objects (item ∷ items) r h =
      let next = sweep_job fails bucket dry_run listing max_age keep item r in
      let last = sweep_jobs fails bucket dry_run listing max_age keep items next in
      Sweeps-trans _ r next last (sweep_job-Sweeps max_age keep objects item r h.0)
        (sweep_jobs-Sweeps max_age keep objects items next h.1)

All-pair :
    {A : Type 0} (P Q : A → Type 0) (xs : List A) → All P xs → All Q xs → All (λ x. P x × Q x) xs
All-pair P Q [] h k = tt
All-pair P Q (x ∷ xs) h k = ((h.0, k.0), All-pair P Q xs h.1 k.1)

scanned :
    (broken : Bool) (groups : List (Text × Group))
    (next : List (Text × Group) → Raises StagingError (List (Text × Group) × Report))
    {made : List (Text × Group) × Report}
    → ((if broken then raised storage_error else returned groups) >>= next) ≡ returned made
    → next groups ≡ returned made
scanned true groups next h = absurd (cc)
scanned false groups next h = h

-- A scan that returns lists what is old by its own count, and asks for no deletion.
scan_call-IsOld :
    (listing : ℕ → Text → Listing) (top : Text) (r : Report) (made : List (Text × Group) × Report)
    → scan_call listing top r ≡ returned made
    → All (IsOld (listing r.calls top).objects) made.0 × (made.1.requests ≡ r.requests)
unfolding scan_call scan
scan_call-IsOld listing top r made h =
    let pages = listing r.calls top in
    let groups = group_objects pages.objects [] in
    let e : (sort_by by_prefix groups, record r { calls = r.calls + 1 }) ≡ made =
      returned-injective (scanned pages.broken groups _ h) in
    (
      subst (λ m. All (IsOld pages.objects) m.0) e
          (sort_by-All (IsOld pages.objects) by_prefix groups (
            All-pair _ _ groups (group_objects-Lists pages.objects)
              (group_objects-idle pages.objects))),
      sym (ap (λ m. m.1.requests) e),
    )

module _ (fails : ℕ → Bool) (bucket : Text) (dry_run : Bool) where
  abort_uploads-requests :
      (max_age : ℕ) (keep : List Text) (uploads : List Upload) (r : Report)
      → (abort_uploads fails bucket dry_run max_age keep uploads r).requests ≡ r.requests
  unfolding abort_uploads abort_upload
  abort_uploads-requests max_age keep [] r = refl
  abort_uploads-requests max_age keep (u ∷ uploads) r =
      abort_uploads-requests max_age keep uploads _ ∙ ground arith

  abort_stale_uploads-requests :
      (max_age : ℕ) (keep : List Text) (uploads : Option (List Upload)) (r : Report)
      → (abort_stale_uploads fails bucket dry_run max_age keep uploads r).requests ≡ r.requests
  unfolding abort_stale_uploads
  abort_stale_uploads-requests max_age keep none r = refl
  abort_stale_uploads-requests max_age keep (some uploads) r =
      abort_uploads-requests max_age keep uploads r

-- A sweep deletes only keys of a group (`a/b/` of the key `a/b/c`) of which the scan listed an object,
-- that is not kept, and whose objects, as the scan listed them, all have the age of the threshold; or,
-- in the mezzanine cache, the age of one day. The storage lists what is under the prefix it is asked
-- for.
pub gc-Sweeps :
    (fails : ℕ → Bool) (listing : ℕ → Text → Listing)
    → ((k : ℕ) (prefix : Text)
        → All (λ o. starts_with prefix (Object.key o) ≡ true) (listing k prefix).objects)
    → (uploads : ℕ → Option (List Upload)) (env : Text → Option Text) (bucket : Text)
      (dry_run : Bool) (max_age : ℕ) (keep : List Text) (r : Report)
    → gc fails listing uploads env bucket dry_run max_age keep ≡ returned r
    → (k : ℕ) × All
        (All (λ key.
          IsSweptKey max_age (map normalize_prefix keep) (listing 0 jobs_prefix).objects key
          ⊎ IsSweptKey mezz_cache_max_age [] (listing k mezz_cache_prefix).objects key))
        r.requests
unfolding gc
gc-Sweeps fails listing lists uploads env bucket dry_run max_age keep r h =
    let b = bucket_name env bucket in
    let keep_set = map normalize_prefix keep in
    let report = new_report (codes "dist:gc:" ++ (decimal max_age ++ codes "s")) in
    let url = returned_through (endpoint_url env) _ h in
    let jobs = returned_through (scan_call listing jobs_prefix report) _ url.2 in
    let swept = sweep_jobs fails b dry_run listing max_age keep_set jobs.0.0 jobs.0.1 in
    let mezz = returned_through (scan_call listing mezz_cache_prefix swept) _ jobs.2 in
    let first = scan_call-IsOld listing jobs_prefix report jobs.0 jobs.1 in
    let second = scan_call-IsOld listing mezz_cache_prefix swept mezz.0 mezz.1 in
    let one =
      sweep_jobs-Sweeps fails listing lists b dry_run max_age keep_set
        (listing 0 jobs_prefix).objects jobs.0.0 jobs.0.1 first.0 in
    let two =
      sweep_jobs-Sweeps fails listing lists b dry_run mezz_cache_max_age []
        (listing swept.calls mezz_cache_prefix).objects mezz.0.0 mezz.0.1 second.0 in
    let IsReclaimed : Text → Type 0 = λ key.
      IsSweptKey max_age keep_set (listing 0 jobs_prefix).objects key
      ⊎ IsSweptKey mezz_cache_max_age [] (listing swept.calls mezz_cache_prefix).objects key in
    let asked : r.requests ≡ one.0 ++ two.0 =
      ap Report.requests (sym (returned-injective mezz.2))
      ∙ abort_stale_uploads-requests fails b dry_run max_age keep_set _ _
      ∙ two.1
      ∙ ap (λ l. l ++ two.0) (second.1 ∙ one.1 ∙ ap (λ l. l ++ one.0) first.1) in
    let left = All-weaken one.0 (λ keys u. All-weaken keys (λ key s. inl s) u) one.2 in
    let right = All-weaken two.0 (λ keys u. All-weaken keys (λ key s. inr s) u) two.2 in
    (
      swept.calls,
      subst (All (All IsReclaimed)) (sym asked)
          (All-append (All IsReclaimed) one.0 two.0 left right),
    )
