-- ===== src/Staging/Names.antt =====
-- dist_staging.py, _normalize_prefix and delete_prefix: one whole job is deleted, nothing else.
use mathlib.Core.Path.{subst}
use mathlib.Core.List.{append_assoc, append-nil}
use infinite_streaming_encod.Prelude.{
  ℕ, ◌≡◌, refl, sym, ap, ◌∙◌, false, [], ◌∷◌, ◌++◌, if◌then◌else◌, All-append,
}
use infinite_streaming_encod.Prelude.Text.{
  Text, is_space, Free, Solid, codes, starts_with, is_empty, strip-Solid, strip_end, strip_front,
  strip_both, strip_end-append, strip_end-Free, partition, partition-append,
}
use infinite_streaming_encod.Staging.{
  slash, jobs_prefix, after_slashes, with_slash, normalize_prefix,
}

-- A name of one segment.
abbrev pub IsName : Text → Type 0
IsName s = Free slash s × Solid s × (is_empty s ≡ false)

strip_front-name :
    (s t : Text) → Free slash s → is_empty s ≡ false → strip_front slash (s ++ t) ≡ s ++ t
unfolding strip_front is_empty
strip_front-name [] t f n = absurd (cc)
strip_front-name (c ∷ s) t f n = rw (f.0) refl

strip_end-ends :
    (c : ℕ) (s t : Text) {d : ℕ} {r : Text}
    → strip_end c t ≡ d ∷ r
    → strip_end c (s ++ t) ≡ s ++ d ∷ r
unfolding strip_end
strip_end-ends c [] t e = e
strip_end-ends c (x ∷ []) t e = rw e refl
strip_end-ends c (x ∷ y ∷ s) t e = rw (strip_end-ends c (y ∷ s) t e) refl

strip_end-name :
    (s t : Text)
    → Free slash t
    → is_empty t ≡ false
    → strip_end slash (s ++ slash ∷ t) ≡ s ++ slash ∷ t
unfolding is_empty
strip_end-name s [] f n = absurd (cc)
strip_end-name s (d ∷ r) f n =
    ap (strip_end slash) (sym (append_assoc s (slash ∷ []) (d ∷ r)))
    ∙ strip_end-ends slash (s ++ slash ∷ []) (d ∷ r) (strip_end-Free slash (d ∷ r) f)
    ∙ append_assoc s (slash ∷ []) (d ∷ r)

strip_both-job : (id : Text) → IsName id → strip_both slash (jobs_prefix ++ id) ≡ jobs_prefix ++ id
unfolding strip_both strip_front
strip_both-job id (f, s, n) = strip_end-name (codes "jobs") id f n

strip_both-job_slash :
    (id : Text)
    → IsName id
    → strip_both slash (jobs_prefix ++ (id ++ slash ∷ [])) ≡ jobs_prefix ++ id
unfolding strip_both strip_front
strip_both-job_slash id (f, s, n) =
    ap (strip_end slash) (sym (append_assoc jobs_prefix id (slash ∷ [])))
    ∙ strip_end-append slash (jobs_prefix ++ id)
    ∙ strip_end-name (codes "jobs") id f n

job-Solid : (id tail : Text) → Solid id → Solid tail → Solid (jobs_prefix ++ (id ++ tail))
unfolding is_space
job-Solid id tail s t =
    All-append _ jobs_prefix (id ++ tail) ((refl, (refl, (refl, (refl, (refl, tt))))))
      (All-append _ id tail s t)

slash-Solid : Solid (slash ∷ [])
unfolding is_space
slash-Solid = (refl, tt)

normalize-core :
    (p q id : Text)
    → Solid p
    → (if starts_with (codes "s3://") p then after_slashes p else p) ≡ q
    → strip_both slash q ≡ jobs_prefix ++ id
    → normalize_prefix p ≡ jobs_prefix ++ (id ++ slash ∷ [])
unfolding normalize_prefix is_empty
normalize-core p q id s e h =
    ap
      (λ r.
        with_slash
          (strip_both slash (if starts_with (codes "s3://") r then after_slashes r else r)))
      (strip-Solid p s)
    ∙ ap (λ r. with_slash (strip_both slash r)) e
    ∙ ap with_slash h

after_slashes-url :
    (bucket rest : Text)
    → Free slash bucket
    → after_slashes (codes "s3://" ++ (bucket ++ slash ∷ rest)) ≡ rest
unfolding after_slashes partition
after_slashes-url bucket rest f = rw (partition-append slash bucket rest f, after_slashes) refl

url-Solid :
    (bucket rest : Text)
    → Solid bucket
    → Solid rest
    → Solid (codes "s3://" ++ (bucket ++ slash ∷ rest))
unfolding is_space
url-Solid bucket rest b r =
    (refl, (refl, (refl, (refl, (refl, All-append _ bucket (slash ∷ rest) b (refl, r))))))

-- The name of a job's prefix, the same name behind a slash, and its address in a bucket are all
-- normalised to the same prefix. The names of the bucket and the job are not empty and have no
-- slash and no white space.
pub normalize_prefix-spellings :
    (bucket id : Text)
    → IsName bucket
    → IsName id
    → let prefix = jobs_prefix ++ (id ++ slash ∷ []) in
      (normalize_prefix (jobs_prefix ++ id) ≡ prefix)
      × (normalize_prefix (slash ∷ prefix) ≡ prefix)
      × (normalize_prefix (codes "s3://" ++ (bucket ++ slash ∷ prefix)) ≡ prefix)
unfolding starts_with
normalize_prefix-spellings bucket id b n =
    let prefix = jobs_prefix ++ (id ++ slash ∷ []) in
    let solid : Solid prefix = job-Solid id (slash ∷ []) n.1 slash-Solid in
    let bare : Solid (jobs_prefix ++ id) =
      subst (λ l. Solid (jobs_prefix ++ l)) (append-nil id) (job-Solid id [] n.1 tt) in
    (
      normalize-core _ (jobs_prefix ++ id) id bare refl (strip_both-job id n),
      normalize-core _ (slash ∷ prefix) id (slash-Solid.0, solid) refl
          ((unfold strip_both strip_front in strip_both-job_slash id n)),
      normalize-core _ prefix id (url-Solid bucket prefix b.1 solid)
          (after_slashes-url bucket prefix b.0) (strip_both-job_slash id n),
    )
