-- ===== src/Ethgas/Percentile/Samples.antt =====
-- The percentile is the sample at its place.
use ethkit.Prelude.{
  ℕ, zero, suc, ◌+◌, ◌-◌, ◌<◌, ◌≡◌, ◌≢◌, refl, sym, ap, ◌∙◌, true, false, Option, some, List, [],
  ◌∷◌, ◌++◌, get_last?, get_last?-eq-none, get_elem?, length, length-append, arith, ltb, Bool-cases,
  Option-cases, inl, inr,
}
use ethkit.Ethgas.{Bucket}
use ethkit.Ethgas.Percentile.{num_samples, value_of, find_sample, percentile_value}

-- so many times the value
abbrev repeat : ℕ → ℕ → List ℕ
repeat zero v = []
repeat (suc n) v = v ∷ repeat n v

-- The samples one by one.
abbrev pub samples : List Bucket → List ℕ
samples [] = []
samples (b ∷ bs) = repeat b.count b.value ++ samples bs

length-repeat : (n v : ℕ) → length (repeat n v) ≡ n
length-repeat zero v = refl
length-repeat (suc n) v = ap suc (length-repeat n v)

length-samples : (h : List Bucket) → length (samples h) ≡ num_samples h
unfolding num_samples
length-samples [] = refl
length-samples (b ∷ bs) = omega (
  arith,
  length-append (repeat b.count b.value) (samples bs),
  length-repeat b.count b.value,
  length-samples bs,
)

get_elem?-repeat : (n v i : ℕ) (rest : List ℕ) → i < n → get_elem? (repeat n v ++ rest) i ≡ some v
get_elem?-repeat zero v i rest h = absurd (omega arith)
get_elem?-repeat (suc n) v zero rest h = refl
get_elem?-repeat (suc n) v (suc i) rest h = get_elem?-repeat n v i rest (omega arith)

get_elem?-beyond :
    (n v i : ℕ) (rest : List ℕ) → get_elem? (repeat n v ++ rest) (n + i) ≡ get_elem? rest i
get_elem?-beyond zero v i rest = ap (get_elem? rest) (omega arith)
get_elem?-beyond (suc n) v i rest =
    ap (get_elem? (v ∷ repeat n v ++ rest)) {x = suc n + i} {y = suc (n + i)} (omega arith)
    ∙ get_elem?-beyond n v i rest

find_sample-samples :
    (last : Option Bucket) (considered i : ℕ) (h : List Bucket)
    → i < num_samples h
    → find_sample last considered (considered + i) h ≡ get_elem? (samples h) i
unfolding find_sample num_samples
find_sample-samples last considered i [] l = absurd (omega arith)
find_sample-samples last considered i (b ∷ bs) l = elim (Bool-cases (ltb i b.count)) [
  | inl t ↦
      let now : ltb (considered + i) (considered + b.count) ≡ true = ground arith in
      rw now (sym (get_elem?-repeat b.count b.value i (samples bs) (ground arith)))
  | inr t ↦
      let now : ltb (considered + i) (considered + b.count) ≡ false = ground arith in
      let later : i ≡ b.count + (i - b.count) = ground arith in
      let there = find_sample-samples last (considered + b.count) (i - b.count) bs (omega arith) in
      rw now (
        ap (λ x. find_sample last (considered + b.count) x bs) (omega (arith, later))
        ∙ there
        ∙ sym (get_elem?-beyond b.count b.value (i - b.count) (samples bs))
        ∙ ap (get_elem? (samples (b ∷ bs))) (sym later))
]

-- The percentile is the sample at its place, where the samples stand one by one in the order of the
-- buckets, and the place is one of theirs.
pub percentile_value-samples :
    (place : ℕ → ℕ) (h : List Bucket)
    → place (length (samples h)) < length (samples h)
    → percentile_value place h ≡ get_elem? (samples h) (place (length (samples h)))
unfolding percentile_value
percentile_value-samples place h l =
    let n = length-samples h in
    ap (λ x. find_sample (get_last? h) 0 x h) (ap place (sym n) ∙ omega arith)
    ∙ find_sample-samples (get_last? h) 0 (place (length (samples h))) h (omega (arith, n, l))

find_sample_there :
    (last : Bucket) (considered index : ℕ) (h : List Bucket)
    → (v : ℕ) × (find_sample (some last) considered index h ≡ some v)
unfolding find_sample value_of
find_sample_there last considered index [] = (last.value, refl)
find_sample_there last considered index (b ∷ bs) =
    elim (Bool-cases (ltb index (considered + b.count))) [
      | inl t ↦ rw t (b.value, refl)
      | inr t ↦ rw t (find_sample_there last (considered + b.count) index bs)
    ]

-- Of a histogram that has buckets a percentile is there, wherever its place is.
pub percentile_value_there :
    (place : ℕ → ℕ) (h : List Bucket) → h ≢ [] → (v : ℕ) × (percentile_value place h ≡ some v)
unfolding percentile_value
percentile_value_there place h full = elim (Option-cases (get_last? h)) [
  | inl e ↦ absurd (full (get_last?-eq-none h e))
  | inr (last, e) ↦ rw e (find_sample_there last 0 (place (num_samples h)) h)
]
