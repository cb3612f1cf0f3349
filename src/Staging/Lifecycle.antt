-- ===== src/Staging/Lifecycle.antt =====
-- dist_staging.py, ensure_lifecycle: the expiry rule of the bucket.
-- A rule of the bucket is its id, the days of its expiration, its status, and all its other fields.
use mathlib.Core.Path.{subst}
use mathlib.Core.List.{append-nil}
use infinite_streaming_encod.Prelude.{
  ℕ, ◌≡◌, inl, inr, refl, sym, ap, ◌∙◌, ◌⊎◌, Bool, true, false, ◌&&◌, not, none, some, Option, List,
  [], ◌∷◌, ◌++◌, ◌==◌, if◌then◌else◌, if_false, keep_if, Bool-cases, arith,
}
use infinite_streaming_encod.Prelude.Text.{Text, codes, text_eq, text_eq_refl, decimal}
use infinite_streaming_encod.Prelude.Raises.{
  Raises, returned, returned_through, returned-injective, ◌>>=◌,
}
use infinite_streaming_encod.Staging.{
  jobs_prefix, StagingError, endpoint_url, bucket_name, s3_url, Report, ResourceAction, new_report,
  add_action, lifecycle, configured, failed, expire_after, error_text,
}

-- `LIFECYCLE_RULE_ID`.
abbrev pub lifecycle_rule_id : Text
lifecycle_rule_id = codes "encoder-local-dist-jobs-expiry"

pub record Rule : Type 0 where
  pub id : Text
  pub days : Option ℕ
  pub status : Text
  pub filter : Text

abbrev pub new_rule : ℕ → Rule
new_rule days = record {
  id = lifecycle_rule_id;
  days = some days;
  status = codes "Enabled";
  filter = jobs_prefix;
}

abbrev pub is_ours : Rule → Bool
is_ours r = text_eq r.id lifecycle_rule_id

abbrev pub has_days : Option ℕ → ℕ → Bool
has_days none days = false
has_days (some n) days = n == days

-- The loop over the rules: whether the first of this id is right.
unfoldable pub is_correct : ℕ → List Rule → Bool
is_correct days [] = false
is_correct days (r ∷ rules) =
    let rest = is_correct days rules in
    if is_ours r then has_days r.days days && text_eq r.status (codes "Enabled") else rest

abbrev pub rules_put : ℕ → List Rule → List Rule
rules_put days existing = keep_if (λ r. not (is_ours r)) existing ++ new_rule days ∷ []

-- What `get_bucket_lifecycle_configuration` gives, or why it raises.
pub data Answer : Type 0 where
  rules_found : List Rule → Answer
  no_configuration get_failed : Answer

-- `existing`: the `except` takes every error for a bucket without a configuration.
unfoldable pub existing_rules : Answer → List Rule
existing_rules (rules_found found) = found
existing_rules no_configuration = []
existing_rules get_failed = []

-- `ensure_lifecycle`: the report, and the rules that were put, if any. `answer` is that
-- of the get, and `put_raises` says whether the put raises.
unfoldable pub ensure_lifecycle :
    (Text → Option Text)
    → ℕ
    → Text
    → Answer
    → Bool
    → Raises StagingError (Report × Option (List Rule))
ensure_lifecycle env days bucket answer put_raises =
    let existing = existing_rules answer in
    let report = new_report (codes "dist:lifecycle:" ++ (decimal days ++ codes "d")) in
    let made : ResourceAction = record {
      kind = lifecycle;
      id = s3_url (bucket_name env bucket) jobs_prefix;
      job_id = none;
      action = if put_raises then failed else configured;
      detail = if put_raises then error_text else expire_after days;
    } in
    endpoint_url env >>= (λ url. returned (
      if is_correct days existing
      then (report, none)
      else (add_action made report, if put_raises then none else some (rules_put days existing))))

is_correct-put : (days : ℕ) (rules : List Rule) → is_correct days (rules_put days rules) ≡ true
unfolding is_correct text_eq
is_correct-put days [] = ground arith
is_correct-put days (r ∷ rules) = elim (Bool-cases (is_ours r)) [
  | inl e ↦ rw e (is_correct-put days rules)
  | inr e ↦ rw e (if_false _ _ e ∙ is_correct-put days rules)
]

keep_if-append :
    (p : Rule → Bool) (xs ys : List Rule) → keep_if p (xs ++ ys) ≡ keep_if p xs ++ keep_if p ys
keep_if-append p [] ys = refl
keep_if-append p (x ∷ xs) ys = elim (Bool-cases (p x)) [
  | inl e ↦ rw e (ap (λ l. x ∷ l) (keep_if-append p xs ys))
  | inr e ↦ rw e (keep_if-append p xs ys)
]

keep_if_again : (p : Rule → Bool) (xs : List Rule) → keep_if p (keep_if p xs) ≡ keep_if p xs
keep_if_again p [] = refl
keep_if_again p (x ∷ xs) = elim (Bool-cases (p x)) [
  | inl e ↦ rw e (rw e (ap (λ l. x ∷ l) (keep_if_again p xs)))
  | inr e ↦ rw e (keep_if_again p xs)
]

abbrev pub not_ours : Rule → Bool
not_ours r = not (is_ours r)

put-others :
    (days : ℕ) (rules : List Rule)
    → keep_if not_ours (rules_put days rules) ≡ keep_if not_ours rules
put-others days rules =
    keep_if-append not_ours (keep_if not_ours rules) (new_rule days ∷ [])
    ∙ ap (λ l. keep_if not_ours (keep_if not_ours rules) ++ l)
        (if_false _ _ (ap not (text_eq_refl lifecycle_rule_id)))
    ∙ append-nil _
    ∙ keep_if_again not_ours rules

put_some :
    (correct : Bool) (quiet made : Report) (rules put : List Rule) (m : Report × Option (List Rule))
    → ◌≡◌ {A = Report × Option (List Rule)}
        (if correct then (quiet, none) else (made, some rules))
        m
    → m.1 ≡ some put
    → rules ≡ put
put_some true quiet made rules put m h e =
    let no : none ≡ some put = ap (λ x. x.1) h ∙ e in absurd (cc)
put_some false quiet made rules put m h e =
    let same : some rules ≡ some put = ap (λ x. x.1) h ∙ e in cc

put-by_answer :
    (days : ℕ) (put : List Rule) (answer : Answer)
    → rules_put days (existing_rules answer) ≡ put
    → ((found : List Rule) × (answer ≡ rules_found found)
        × (keep_if not_ours put ≡ keep_if not_ours found))
      ⊎ (((answer ≡ no_configuration) ⊎ (answer ≡ get_failed)) × (put ≡ new_rule days ∷ []))
unfolding existing_rules
put-by_answer days put (rules_found found) e =
    inl (found, refl, ap (keep_if not_ours) (sym e) ∙ put-others days found)
put-by_answer days put no_configuration e = inr (inl refl, sym e)
put-by_answer days put get_failed e = inr (inr refl, sym e)

-- Where the rules were put, a further call with the same days, whose get works, finds its rule in
-- place and puts nothing. The rules of other ids are as the get gave them, in order; where the get
-- raised, for whichever reason, the new rule is the only one that is put, and it replaces all others
-- that the bucket has.
pub ensure_lifecycle-again :
    (env : Text → Option Text) (days : ℕ) (bucket url : Text) (answer : Answer) (report : Report)
    (put : List Rule)
    → endpoint_url env ≡ returned url
    → ensure_lifecycle env days bucket answer false ≡ returned (report, some put)
    → ((raises : Bool)
        → ensure_lifecycle env days bucket (rules_found put) raises
          ≡ returned (new_report (codes "dist:lifecycle:" ++ (decimal days ++ codes "d")), none))
      × (((found : List Rule) × (answer ≡ rules_found found)
            × (keep_if not_ours put ≡ keep_if not_ours found))
          ⊎ (((answer ≡ no_configuration) ⊎ (answer ≡ get_failed)) × (put ≡ new_rule days ∷ [])))
unfolding ensure_lifecycle existing_rules
ensure_lifecycle-again env days bucket url answer report put u h =
    let found = existing_rules answer in
    let call = returned_through (endpoint_url env) _ h in
    let same : rules_put days found ≡ put =
      put_some (is_correct days found) _ _ (rules_put days found) put _ (returned-injective call.2)
        refl in
    let right : is_correct days put ≡ true =
      subst (λ l. is_correct days l ≡ true) same (is_correct-put days found) in
    (λ raises. rw (u, right) refl, put-by_answer days put answer same)
