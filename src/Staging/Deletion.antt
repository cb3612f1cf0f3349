-- ===== src/Staging/Deletion.antt =====
-- dist_staging.py, _delete_one_prefix: which keys are deleted, and what is reported.
use mathlib.Core.List.{append-nil}
use infinite_streaming_encod.Prelude.{
  ℕ, ◌≡◌, ◌≢◌, ◌⊎◌, inl, inr, refl, sym, ap, ◌∙◌, Bool, true, false, ◌||◌, Option, List, [], ◌∷◌,
  ◌++◌, ◌==◌, if◌then◌else◌, is_nil, All, All-weaken, Bool-cases, arith,
}
use infinite_streaming_encod.Prelude.Text.{Text}
use infinite_streaming_encod.Staging.{
  Object, Listing, Report, Deleting, ResourceAction, deleted, send_batch, visit_key, visit_object,
  visit_objects, delete_objects, report_deletion, delete_one_prefix,
}
use infinite_streaming_encod.Staging.Requests.{keys_of, joined, IsRequest, delete_objects-Deletes}

module _ (fails : ℕ → Bool) (listing : ℕ → Text → Listing) where
  report_deletion-requests :
      (bucket : Text) (dry_run : Bool) (idle : Option ℕ) (prefix : Text) (d : Deleting)
      → (report_deletion fails listing bucket dry_run idle prefix d).requests ≡ d.report.requests
  unfolding report_deletion
  report_deletion-requests bucket dry_run idle prefix d = ground arith

  visit_object-actions :
      (dry_run : Bool) (o : Object) (d : Deleting)
      → (visit_object fails listing dry_run o d).report.actions ≡ d.report.actions
  unfolding visit_object visit_key send_batch
  visit_object-actions dry_run o d = ground arith

  visit_objects-actions :
      (dry_run : Bool) (objects : List Object) (d : Deleting)
      → (visit_objects fails listing dry_run objects d).report.actions ≡ d.report.actions
  unfolding visit_objects
  visit_objects-actions dry_run [] d = refl
  visit_objects-actions dry_run (o ∷ objects) d =
      visit_objects-actions dry_run objects (visit_object fails listing dry_run o d)
      ∙ visit_object-actions dry_run o d

  end-actions :
      (d : Deleting) (broken : Bool)
      → (if d.stopped || broken
          then record d { stopped = true }
          else if is_nil d.batch
          then d
          else send_batch fails listing d).report.actions
        ≡ d.report.actions
  unfolding send_batch
  end-actions d broken = ground arith

  delete_objects-actions :
      (dry_run : Bool) (prefix : Text) (r : Report)
      → (delete_objects fails listing dry_run prefix r).report.actions ≡ r.actions
  unfolding delete_objects
  delete_objects-actions dry_run prefix r =
      end-actions _ (listing r.calls prefix).broken
      ∙ visit_objects-actions dry_run (listing r.calls prefix).objects _

  -- A report of a deletion says that the prefix is deleted only of a run that was not stopped.
  abbrev Told : Bool → Deleting → List ResourceAction → Type 0
  Told dry_run d told =
      All (λ a. (a.action ≢ deleted) ⊎ ((dry_run ≡ false) × (d.stopped ≡ false))) told

  report_deletion-Told :
      (bucket : Text) (dry_run : Bool) (idle : Option ℕ) (prefix : Text) (d : Deleting)
      → (told : List ResourceAction) × ((report_deletion fails listing bucket dry_run idle prefix
            d).actions
          ≡ d.report.actions ++ told)
        × Told dry_run d told
  unfolding report_deletion
  report_deletion-Told bucket dry_run idle prefix d = elim (Bool-cases d.stopped) [
    | inl e ↦ rw e (_, refl, (inl (λ c. cc), tt))
    | inr e ↦ elim (Bool-cases (d.total == 0)) [
      | inl z ↦ rw (e, z) ([], sym (append-nil d.report.actions), tt)
      | inr z ↦ elim (Bool-cases dry_run) [
        | inl t ↦ rw (e, z, t) (_, refl, (inl (λ c. cc), tt))
        | inr t ↦ rw (e, z, t) (_, refl, (inr (refl, refl), tt))
      ]
    ]
  ]

  -- The deletion of one prefix sends keys of the listing, from the first one on, in requests of one
  -- to a thousand; none in a dry run. What it adds to the report says `deleted` only when all the keys
  -- of the listing were sent.
  pub delete_one_prefix-Deletes :
      (bucket : Text) (dry_run : Bool) (idle : Option ℕ) (prefix : Text) (r : Report)
      → (sent : List (List Text)) × (rest : List Text) × (told : List ResourceAction)
        × ((delete_one_prefix fails listing bucket dry_run idle prefix r).requests
            ≡ r.requests ++ sent)
        × All IsRequest sent
        × (keys_of (listing r.calls prefix).objects ≡ joined sent ++ rest)
        × ((dry_run ≡ false) ⊎ (sent ≡ []))
        × ((delete_one_prefix fails listing bucket dry_run idle prefix r).actions
            ≡ r.actions ++ told)
        × All (λ a. (a.action ≢ deleted) ⊎ (rest ≡ [])) told
  unfolding delete_one_prefix
  delete_one_prefix-Deletes bucket dry_run idle prefix r =
      let d = delete_objects fails listing dry_run prefix r in
      let made = delete_objects-Deletes fails listing dry_run prefix r in
      let said = report_deletion-Told bucket dry_run idle prefix d in
      (
        made.0,
        made.1,
        said.0,
        report_deletion-requests bucket dry_run idle prefix d ∙ made.2,
        made.3,
        made.4,
        (elim (Bool-cases dry_run) [ inl e ↦ inr (made.5 e) | inr e ↦ inl e ]),
        said.1 ∙ ap (λ l. l ++ said.0) (delete_objects-actions dry_run prefix r),
        All-weaken said.0 (λ a h. elim h [ inl n ↦ inl n | inr u ↦ inr (made.6 u.0 u.1) ]) said.2,
      )
