-- ===== src/Telemetry/Numbering.antt =====
-- Lists of numbered markers: parts of them, and counts over them.
use infinite_streaming_encod.Prelude.{
  ℕ, zero, suc, ◌+◌, ◌-◌, ◌≡◌, refl, ap, sym, ◌∙◌, Bool, List, [], ◌∷◌, ◌++◌, arith, if◌then◌else◌,
  length, take, drop, drop_all, length-drop, All, All-append,
}
use infinite_streaming_encod.Prelude.Text.{Text}
use infinite_streaming_encod.Telemetry.{Item}

-- The items of the batches, in order.
abbrev pub joined : List (List Item) → List Item
joined [] = []
joined (b ∷ bs) = b ++ joined bs

-- How many of some elements pass a test.
abbrev pub count_if {ℓ} : {A : Type ℓ} → (A → Bool) → List A → ℕ
count_if q [] = 0
count_if q (x ∷ xs) = let rest = count_if q xs in if q x then rest + 1 else rest

pub count_if-append {ℓ} :
    {A : Type ℓ} (q : A → Bool) (xs ys : List A)
    → count_if q (xs ++ ys) ≡ count_if q xs + count_if q ys
count_if-append q [] ys = omega arith
count_if-append q (x ∷ xs) ys = ground (arith, count_if-append q xs ys)

abbrev pub count_batches : (Item → Bool) → List (List Item) → ℕ
count_batches q bs = count_if q (joined bs)

pub count_batches-append :
    (q : Item → Bool) (bs cs : List (List Item))
    → count_batches q (bs ++ cs) ≡ count_batches q bs + count_batches q cs
count_batches-append q [] cs = omega arith
count_batches-append q (b ∷ bs) cs = omega (
  arith,
  count_if-append q b (joined (bs ++ cs)),
  count_if-append q b (joined bs),
  count_batches-append q bs cs,
)

-- Markers numbered from `k` on.
abbrev pub numbered : ℕ → List Text → List Item
numbered k [] = []
numbered k (m ∷ ms) = (k, m) ∷ numbered (k + 1) ms

pub numbered-append :
    (k : ℕ) (ms : List Text) (m : Text)
    → numbered k (ms ++ m ∷ []) ≡ numbered k ms ++ ((k + length ms, m) ∷ [])
numbered-append k [] m = ap (λ (n : ℕ). (n, m) ∷ []) (omega arith)
numbered-append k (x ∷ ms) m =
    ap (λ (l : List Item). (k, x) ∷ l)
      (numbered-append (k + 1) ms m
        ∙ ap (λ (n : ℕ). numbered (k + 1) ms ++ ((n, m) ∷ [])) (omega arith))

pub length-numbered : (k : ℕ) (ms : List Text) → length (numbered k ms) ≡ length ms
length-numbered k [] = refl
length-numbered k (m ∷ ms) = ap suc (length-numbered (k + 1) ms)

pub take-numbered : (n k : ℕ) (ms : List Text) → take n (numbered k ms) ≡ numbered k (take n ms)
take-numbered zero k ms = refl
take-numbered (suc n) k [] = refl
take-numbered (suc n) k (m ∷ ms) = ap (λ l. (k, m) ∷ l) (take-numbered n (k + 1) ms)

pub drop-numbered :
    (n k : ℕ) (ms : List Text)
    → drop n (numbered k ms) ≡ numbered (k + (length ms - length (drop n ms))) (drop n ms)
drop-numbered zero k ms = ap (λ i. numbered i ms) (omega arith)
drop-numbered (suc n) k [] = refl
drop-numbered (suc n) k (m ∷ ms) =
    drop-numbered n (k + 1) ms ∙ ap (λ i. numbered i (drop n ms)) (omega (arith, length-drop n ms))

pub drop-drop : (m n : ℕ) (xs : List Item) → drop m (drop n xs) ≡ drop (n + m) xs
drop-drop m zero xs = ap (λ k. drop k xs) (omega arith)
drop-drop m (suc n) [] = drop_all m [] (omega arith) ∙ sym (drop_all (suc n + m) [] (omega arith))
drop-drop m (suc n) (x ∷ xs) =
    drop-drop m n xs
    ∙ ap (λ k. drop k (x ∷ xs)) (let e : suc (n + m) ≡ suc n + m = omega arith in e)

pub All-drop : (P : Item → Type 0) (n : ℕ) (xs : List Item) → All P xs → All P (drop n xs)
All-drop P zero xs h = h
All-drop P (suc n) [] h = h
All-drop P (suc n) (x ∷ xs) h = All-drop P n xs h.1

pub All-take : (P : Item → Type 0) (n : ℕ) (xs : List Item) → All P xs → All P (take n xs)
All-take P zero xs h = tt
All-take P (suc n) [] h = h
All-take P (suc n) (x ∷ xs) h = (h.0, All-take P n xs h.1)

pub All-drop_append :
    (P : Item → Type 0) (n : ℕ) (xs : List Item) (x : Item)
    → All P (drop n xs)
    → P x
    → All P (drop n (xs ++ x ∷ []))
All-drop_append P zero xs x h p = All-append P xs (x ∷ []) h (p, tt)
All-drop_append P (suc n) [] x h p = All-drop P n [] tt
All-drop_append P (suc n) (y ∷ xs) x h p = All-drop_append P n xs x h p
