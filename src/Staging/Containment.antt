-- ===== src/Staging/Containment.antt =====
-- dist_staging.py, delete_prefix: what it can delete.
use mathlib.Core.Path.{subst}
use infinite_streaming_encod.Prelude.{
  ℕ, ◌≡◌, ◌⊎◌, inl, inr, sym, ap, ◌∙◌, Bool, true, none, Option, List, [], ◌∷◌, ◌++◌, if_true,
  if_false, All, Bool-cases,
}
use infinite_streaming_encod.Prelude.Text.{Text, codes, starts_with}
use infinite_streaming_encod.Prelude.Raises.{returned, returned_through, returned-injective}
use infinite_streaming_encod.Staging.{
  slash, jobs_prefix, endpoint_url, bucket_name, normalize_prefix, is_job_prefix, Object, Listing,
  Report, new_report, delete_one_prefix, delete_prefix,
}
use infinite_streaming_encod.Staging.Requests.{keys_of, joined}
use infinite_streaming_encod.Staging.Deletion.{delete_one_prefix-Deletes}
use infinite_streaming_encod.Staging.Guard.{IsId, is_job_prefix-IsId}

module _ (fails : ℕ → Bool) (listing : ℕ → Text → Listing)
    (lists : (k : ℕ) (prefix : Text)
      → All (λ o. starts_with prefix (Object.key o) ≡ true) (listing k prefix).objects) where
  abbrev pub IsUnder : Text → List (List Text) → Type 0
  IsUnder prefix requests = All (All (λ key. starts_with prefix key ≡ true)) requests

  keys-IsUnder :
      (prefix : Text) (objects : List Object)
      → All (λ o. starts_with prefix (Object.key o) ≡ true) objects
      → All (λ key. starts_with prefix key ≡ true) (keys_of objects)
  keys-IsUnder prefix [] h = tt
  keys-IsUnder prefix (o ∷ objects) h = (h.0, keys-IsUnder prefix objects h.1)

  All-left : (P : Text → Type 0) (xs ys : List Text) → All P (xs ++ ys) → All P xs
  All-left P [] ys h = tt
  All-left P (x ∷ xs) ys h = (h.0, All-left P xs ys h.1)

  All-right : (P : Text → Type 0) (xs ys : List Text) → All P (xs ++ ys) → All P ys
  All-right P [] ys h = h
  All-right P (x ∷ xs) ys h = All-right P xs ys h.1

  joined-IsUnder :
      (prefix : Text) (requests : List (List Text))
      → All (λ key. starts_with prefix key ≡ true) (joined requests)
      → IsUnder prefix requests
  joined-IsUnder prefix [] h = tt
  joined-IsUnder prefix (keys ∷ requests) h = (
    All-left _ keys (joined requests) h,
    joined-IsUnder prefix requests (All-right _ keys (joined requests) h),
  )

  -- The deletion of a prefix asks for keys under this prefix only.
  pub delete_one_prefix-IsUnder :
      (bucket : Text) (dry_run : Bool) (idle : Option ℕ) (prefix : Text) (r : Report)
      → (sent : List (List Text)) × ((delete_one_prefix fails listing bucket dry_run idle prefix
            r).requests
          ≡ r.requests ++ sent)
        × IsUnder prefix sent
  delete_one_prefix-IsUnder bucket dry_run idle prefix r =
      let made = delete_one_prefix-Deletes fails listing bucket dry_run idle prefix r in
      (
        made.0,
        made.3,
        joined-IsUnder prefix made.0 (
            All-left _ (joined made.0) made.1 (
              subst (All (λ key. starts_with prefix key ≡ true)) made.5
                (keys-IsUnder prefix _ (lists r.calls prefix)))),
      )

  -- Whatever text `delete_prefix` is given: either it asks for no deletion, or the text is normalised
  -- to `jobs/<id>/`, for one id that has no slash, is not empty and is neither `.` nor `..`, and every
  -- key it asks to delete is under that prefix. The storage lists what is under the prefix it is asked for.
  pub delete_prefix-IsUnder :
      (env : Text → Option Text) (prefix bucket : Text) (dry_run : Bool) (r : Report)
      → delete_prefix fails listing env prefix bucket dry_run ≡ returned r
      → (r.requests ≡ [])
        ⊎ ((id : Text) × IsId id
            × (normalize_prefix prefix ≡ jobs_prefix ++ (id ++ slash ∷ []))
            × IsUnder (jobs_prefix ++ (id ++ slash ∷ [])) r.requests)
  unfolding delete_prefix
  delete_prefix-IsUnder env prefix bucket dry_run r h =
      elim (Bool-cases (is_job_prefix (normalize_prefix prefix))) [
        | inl e ↦
            let id = is_job_prefix-IsId prefix e in
            let p = normalize_prefix prefix in
            let report = new_report (codes "dist:prefix:" ++ p) in
            let call = returned_through (endpoint_url env) _ (sym (if_true _ _ e) ∙ h) in
            let made : delete_one_prefix fails listing (bucket_name env bucket) dry_run none p
                  report
                ≡ r =
              returned-injective call.2 in
            let sent = delete_one_prefix-IsUnder (bucket_name env bucket) dry_run none p report in
            inr (
              id.0,
              id.1,
              id.2,
              subst (λ q. IsUnder q r.requests) id.2
                  (subst (IsUnder p) (sym sent.1 ∙ ap Report.requests made) sent.2),
            )
        | inr e ↦
            let made = returned-injective (sym (if_false _ _ e) ∙ h) in
            inl (ap Report.requests (sym made))
      ]
