-- ===== src/Staging/Requests.antt =====
-- dist_staging.py, _delete_one_prefix: the requests of its loop.
use mathlib.Core.Path.{subst}
use mathlib.Core.List.{append_assoc, append-nil}
use infinite_streaming_encod.Prelude.{
  ℕ, ◌+◌, ◌≤◌, ◌<◌, ◌≡◌, inl, inr, refl, sym, ap, ◌∙◌, Bool, true, false, ◌||◌, List, [], ◌∷◌, ◌++◌,
  leb, if◌then◌else◌, if_true, if_false, length, length-append, is_nil, All, All-append, Bool-cases,
  arith,
}
use infinite_streaming_encod.Prelude.Text.{Text}
use infinite_streaming_encod.Staging.{
  delete_batch, Object, Listing, Report, Deleting, send_batch, visit_key, visit_object,
  visit_objects, delete_objects,
}

abbrev pub keys_of : List Object → List Text
keys_of [] = []
keys_of (o ∷ objects) = o.key ∷ keys_of objects

abbrev pub joined : List (List Text) → List Text
joined [] = []
joined (keys ∷ requests) = keys ++ joined requests

joined-append : (xs ys : List (List Text)) → joined (xs ++ ys) ≡ joined xs ++ joined ys
joined-append [] ys = refl
joined-append (x ∷ xs) ys = rw (joined-append xs ys) (sym (append_assoc x (joined xs) (joined ys)))

abbrev pub IsRequest : List Text → Type 0
IsRequest keys = (0 < length keys) × (length keys ≤ delete_batch)

-- From the requests `old` on, the keys `done` were sent or wait in the batch.
abbrev Loop : List (List Text) → List Text → Deleting → Type 0
Loop old done d =
    (sent : List (List Text)) × (d.report.requests ≡ old ++ sent)
    × All IsRequest sent
    × (joined sent ++ d.batch ≡ done)
    × (length d.batch < delete_batch)

nil_of_is_nil : (keys : List Text) → is_nil keys ≡ true → keys ≡ []
nil_of_is_nil [] h = refl
nil_of_is_nil (k ∷ keys) h = absurd (cc)

some_of_is_nil : (keys : List Text) → is_nil keys ≡ false → 0 < length keys
some_of_is_nil [] h = absurd (cc)
some_of_is_nil (k ∷ keys) h = omega arith

module _ (fails : ℕ → Bool) (listing : ℕ → Text → Listing) where
  -- What the requests are when a batch is sent.
  send_batch-Loop :
      (old : List (List Text)) (d : Deleting) (sent : List (List Text))
      → d.report.requests ≡ old ++ sent
      → All IsRequest sent
      → IsRequest d.batch
      → {done : List Text} → joined sent ++ d.batch ≡ done
      → Loop old done (send_batch fails listing d)
  unfolding send_batch
  send_batch-Loop old d sent e h k j = (
    sent ++ d.batch ∷ [],
    ap (λ l. l ++ d.batch ∷ []) e ∙ append_assoc old sent (d.batch ∷ []),
    All-append IsRequest sent (d.batch ∷ []) h (k, tt),
    append-nil _
        ∙ joined-append sent (d.batch ∷ [])
        ∙ ap (λ l. joined sent ++ l) (append-nil d.batch)
        ∙ j,
    omega arith,
  )

  visit_key-Loop :
      (old : List (List Text)) (done : List Text) (key : Text) (d : Deleting)
      → Loop old done d
      → Loop old (done ++ key ∷ []) (visit_key fails listing key d)
  unfolding visit_key
  visit_key-Loop old done key d (sent, e, h, j, n) =
      let next : Deleting = record d { batch = d.batch ++ key ∷ [] } in
      let more : joined sent ++ next.batch ≡ done ++ key ∷ [] =
        sym (append_assoc (joined sent) d.batch (key ∷ [])) ∙ ap (λ l. l ++ key ∷ []) j in
      let size = length-append d.batch (key ∷ []) in
      elim (Bool-cases (leb delete_batch (length next.batch))) [
        | inl t ↦ rw t (send_batch-Loop old next sent e h (ground (arith, size)) more)
        | inr t ↦ rw t (sent, e, h, more, ground (arith, size))
      ]

  -- What a loop over some objects has done: it has visited all of them, unless it was stopped.
  abbrev Visited : List (List Text) → List Text → List Text → Deleting → Type 0
  Visited old done keys d =
      (more : List Text) × (rest : List Text) × (keys ≡ more ++ rest)
      × Loop old (done ++ more) d
      × (d.stopped ≡ false → rest ≡ [])

  visit_object-stopped :
      (o : Object) (d : Deleting) → d.stopped ≡ true → visit_object fails listing false o d ≡ d
  unfolding visit_object
  visit_object-stopped o d h = if_true d _ h

  visit_objects-stopped :
      (objects : List Object) (d : Deleting)
      → d.stopped ≡ true
      → visit_objects fails listing false objects d ≡ d
  unfolding visit_objects
  visit_objects-stopped [] d h = refl
  visit_objects-stopped (o ∷ objects) d h =
      ap (visit_objects fails listing false objects) (visit_object-stopped o d h)
      ∙ visit_objects-stopped objects d h

  visit_object-Loop :
      (old : List (List Text)) (done : List Text) (o : Object) (d : Deleting)
      → d.stopped ≡ false
      → Loop old done d
      → Loop old (done ++ o.key ∷ []) (visit_object fails listing false o d)
  unfolding visit_object
  visit_object-Loop old done o d r h =
      subst (Loop old (done ++ o.key ∷ [])) (sym (if_false d _ r)) (
        visit_key-Loop old done o.key
          (record d { total = d.total + 1; total_bytes = d.total_bytes + o.size }) h)

  stopped-Visited :
      (old : List (List Text)) (done keys : List Text) (d : Deleting)
      → d.stopped ≡ true
      → Loop old done d
      → Visited old done keys d
  stopped-Visited old done keys d e h = (
    [],
    keys,
    refl,
    subst (λ l. Loop old l d) (sym (append-nil done)) h,
    λ r. let no : true ≡ false = sym e ∙ r in absurd (cc),
  )

  visit_objects-Visited :
      (old : List (List Text)) (objects : List Object) (done : List Text) (d : Deleting)
      → Loop old done d
      → Visited old done (keys_of objects) (visit_objects fails listing false objects d)
  unfolding visit_objects
  visit_objects-Visited old [] done d h =
      ([], [], refl, subst (λ l. Loop old l d) (sym (append-nil done)) h, λ r. refl)
  visit_objects-Visited old (o ∷ objects) done d h = elim (Bool-cases d.stopped) [
    | inl e ↦
        subst (Visited old done (keys_of (o ∷ objects)))
          (sym (visit_objects-stopped (o ∷ objects) d e))
          (stopped-Visited old done (keys_of (o ∷ objects)) d e h)
    | inr e ↦
        let next = visit_object fails listing false o d in
        let later =
          visit_objects-Visited old objects (done ++ o.key ∷ []) next
            (visit_object-Loop old done o d e h) in
        (
          o.key ∷ later.0,
          later.1,
          ap (λ l. o.key ∷ l) later.2,
          subst (λ l. Loop old l (visit_objects fails listing false objects next))
              (append_assoc done (o.key ∷ []) later.0) later.3,
          later.4,
        )
  ]

  -- The requests of one deletion: full but for the last, of the first keys of the listing; of all
  -- of them when no call and no page has failed.
  abbrev pub Deletes : Bool → List (List Text) → List Text → Deleting → Type 0
  Deletes dry_run old keys d =
      (sent : List (List Text)) × (rest : List Text) × (d.report.requests ≡ old ++ sent)
      × All IsRequest sent
      × (keys ≡ joined sent ++ rest)
      × (dry_run ≡ true → sent ≡ [])
      × (dry_run ≡ false → d.stopped ≡ false → rest ≡ [])

  -- The end of the loop: the keys that wait are sent, unless it was stopped.
  last_batch-Deletes :
      (old : List (List Text)) (keys : List Text) (d : Deleting) (broken : Bool)
      → Visited old [] keys d
      → Deletes false old keys (
          if d.stopped || broken
          then record d { stopped = true }
          else if is_nil d.batch
          then d
          else send_batch fails listing d)
  last_batch-Deletes old keys d broken (more, rest, e, (sent, q, h, j, n), f) =
      elim (Bool-cases (d.stopped || broken)) [
        | inl t ↦ rw t (
          sent,
          d.batch ++ rest,
          q,
          h,
          e ∙ ap (λ l. l ++ rest) (sym j) ∙ append_assoc (joined sent) d.batch rest,
          λ c. absurd (cc),
          λ c r. absurd (cc),
        )
        | inr t ↦
            let goes_on : d.stopped ≡ false = ground arith in
            elim (Bool-cases (is_nil d.batch)) [
              | inl u ↦
                  rw (t, u)
                    (
                      sent,
                      rest,
                      q,
                      h,
                      e
                          ∙ ap (λ l. l ++ rest)
                              (sym j
                                ∙ ap (λ l. joined sent ++ l) (nil_of_is_nil d.batch u)
                                ∙ append-nil (joined sent)),
                      λ c. absurd (cc),
                      λ c r. f goes_on,
                    )
              | inr u ↦
                  rw (t, u)
                    (let last =
                        send_batch-Loop old d sent q h (some_of_is_nil d.batch u, omega (arith, n))
                          j in
                      (
                        last.0,
                        rest,
                        last.1,
                        last.2,
                        e
                            ∙ ap (λ l. l ++ rest)
                                (sym last.3 ∙ (unfold send_batch in append-nil (joined last.0))),
                        λ c. absurd (cc),
                        λ c r. f goes_on,
                      ))
            ]
      ]

  -- A dry run sends nothing.
  abbrev Idle : Deleting → Deleting → Type 0
  Idle d e = (e.report ≡ d.report) × (e.batch ≡ d.batch)

  visit_object-Idle : (o : Object) (d : Deleting) → Idle d (visit_object fails listing true o d)
  unfolding visit_object
  visit_object-Idle o d = elim (Bool-cases d.stopped) [
    | inl e ↦ let same = if_true d _ e in (ap Deleting.report same, ap Deleting.batch same)
    | inr e ↦
        let counted : Deleting = record d {
          total = d.total + 1;
          total_bytes = d.total_bytes + o.size;
        } in
        let same = if_false d counted e in (ap Deleting.report same, ap Deleting.batch same)
  ]

  visit_objects-Idle :
      (objects : List Object) (d : Deleting) → Idle d (visit_objects fails listing true objects d)
  unfolding visit_objects
  visit_objects-Idle [] d = (refl, refl)
  visit_objects-Idle (o ∷ objects) d =
      let later = visit_objects-Idle objects (visit_object fails listing true o d) in
      let first = visit_object-Idle o d in (later.0 ∙ first.0, later.1 ∙ first.1)

  dry_end :
      (r : Report) (d : Deleting) (broken : Bool)
      → d.report ≡ r
      → d.batch ≡ []
      → (if d.stopped || broken
          then record d { stopped = true }
          else if is_nil d.batch
          then d
          else send_batch fails listing d).report.requests
        ≡ r.requests
  dry_end r d broken e b = elim (Bool-cases (d.stopped || broken)) [
    | inl t ↦ rw t (ap Report.requests e)
    | inr t ↦ rw (t, b) (ap Report.requests e)
  ]

  pub delete_objects-Deletes :
      (dry_run : Bool) (prefix : Text) (r : Report)
      → Deletes dry_run r.requests
          (keys_of (listing r.calls prefix).objects)
          (delete_objects fails listing dry_run prefix r)
  unfolding delete_objects
  delete_objects-Deletes false prefix r =
      last_batch-Deletes r.requests _ _ (listing r.calls prefix).broken (
        visit_objects-Visited r.requests (listing r.calls prefix).objects [] _
          ([], sym (append-nil r.requests), tt, refl, omega arith))
  delete_objects-Deletes true prefix r =
      let start : Deleting = record {
        report = record r { calls = r.calls + 1 };
        batch = [];
        total = 0;
        total_bytes = 0;
        stopped = false;
      } in
      let idle = visit_objects-Idle (listing r.calls prefix).objects start in
      (
        [],
        keys_of (listing r.calls prefix).objects,
        dry_end (record r { calls = r.calls + 1 }) _ (listing r.calls prefix).broken idle.0 idle.1
            ∙ sym (append-nil r.requests),
        tt,
        refl,
        λ c. refl,
        λ c. absurd (cc),
      )
