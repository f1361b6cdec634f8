-- ===== src/Ethcoder/Text/Trimming.antt =====
-- What trimming keeps.
use ethkit.Prelude.{
  ℕ, zero, suc, ◌≤◌, ◌<◌, ◌≡◌, refl, sym, ap, subst, ◌∙◌, Bool, true, false, ◌||◌, Option, some, [],
  ◌∷◌, ◌++◌, take, drop, length, arith, ◌==◌, ==_iff, Bool-cases, Option-cases, inl, inr,
  if◌then◌else◌,
}
use ethkit.Ethcoder.Text.{
  Text, is_space, trim_left, keep_or_trim, trim_right, trim_space, index, map_suc, contains,
}

length-trim_left : (test : ℕ → Bool) (s : Text) → length (trim_left test s) ≤ length s
unfolding trim_left
length-trim_left test [] = omega arith
length-trim_left test (c ∷ cs) = ground (arith, length-trim_left test cs)

length-keep_or_trim :
    (t : Bool) (c : ℕ) (rest : Text) → length (keep_or_trim t c rest) ≤ suc (length rest)
unfolding keep_or_trim
length-keep_or_trim true c [] = omega arith
length-keep_or_trim false c [] = omega arith
length-keep_or_trim true c (d ∷ ds) = omega arith
length-keep_or_trim false c (d ∷ ds) = omega arith

pub length-trim_right : (test : ℕ → Bool) (s : Text) → length (trim_right test s) ≤ length s
unfolding trim_right
length-trim_right test [] = omega arith
length-trim_right test (c ∷ cs) =
    omega (arith, length-keep_or_trim (test c) c (trim_right test cs), length-trim_right test cs)

pub length-trim_space : (s : Text) → length (trim_space s) ≤ length s
unfolding trim_space
length-trim_space s =
    omega (arith, length-trim_right is_space (trim_left is_space s), length-trim_left is_space s)

kept : (c : ℕ) (rest : Text) → keep_or_trim false c rest ≡ c ∷ rest
unfolding keep_or_trim
kept c [] = refl
kept c (d ∷ ds) = refl

-- A byte that is not trimmed keeps its place.
pub trim_right-cons :
    (test : ℕ → Bool) (c : ℕ) (s : Text)
    → test c ≡ false
    → trim_right test (c ∷ s) ≡ c ∷ trim_right test s
unfolding trim_right
trim_right-cons test c s h =
    ap (λ t. keep_or_trim t c (trim_right test s)) h ∙ kept c (trim_right test s)

pub trim_space-cons :
    (c : ℕ) (s : Text) → is_space c ≡ false → trim_space (c ∷ s) ≡ c ∷ trim_right is_space s
unfolding trim_space trim_left
trim_space-cons c s h =
    ap (λ t. trim_right is_space (if t then trim_left is_space s else c ∷ s)) h
    ∙ trim_right-cons is_space c s h

contains-keep_or_trim :
    (d : ℕ) (t : Bool) (c : ℕ) (rest : Text)
    → (c == d || contains d rest) ≡ true
    → ((c == d) ≡ true → t ≡ false)
    → contains d (keep_or_trim t c rest) ≡ true
unfolding keep_or_trim contains
contains-keep_or_trim d true c [] h k = elim (Bool-cases (c == d)) [
  | inl e ↦ cc (k e)
  | inr e ↦ cc (rw e at h)
]
contains-keep_or_trim d false c [] h k = h
contains-keep_or_trim d true c (x ∷ xs) h k = h
contains-keep_or_trim d false c (x ∷ xs) h k = h

contains_step :
    (d c : ℕ) (xs ys : Text)
    → (contains d xs ≡ true → contains d ys ≡ true)
    → (c == d || contains d xs) ≡ true
    → (c == d || contains d ys) ≡ true
contains_step d c xs ys f h = elim (Bool-cases (c == d)) [
  | inl e ↦ rw e refl
  | inr e ↦ rw e (f (rw e at h))
]

-- A byte that is not trimmed stays.
pub contains-trim_right :
    (test : ℕ → Bool) (d : ℕ) (s : Text)
    → test d ≡ false
    → contains d s ≡ true
    → contains d (trim_right test s) ≡ true
unfolding trim_right contains
contains-trim_right test d [] k h = h
contains-trim_right test d (c ∷ cs) k h =
    contains-keep_or_trim d (test c) c (trim_right test cs)
      (contains_step d c cs (trim_right test cs) (contains-trim_right test d cs k) h)
      (λ e. ap test ((==_iff c d).0 e) ∙ k)

pub contains-middle :
    (d : ℕ) (front rest : Text) (k : ℕ)
    → length front < k
    → contains d (take k (front ++ d ∷ rest)) ≡ true
unfolding contains
contains-middle d [] rest zero h = absurd (omega arith)
contains-middle d [] rest (suc k) h = ground arith
contains-middle d (x ∷ front) rest zero h = absurd (omega arith)
contains-middle d (x ∷ front) rest (suc k) h = ground (arith, contains-middle d front rest k)

-- `c` stands at the index `a`.
abbrev pub Stands : ℕ → ℕ → Text → Type 0
Stands c a s = (r : Text) × (drop a s ≡ c ∷ r) × (a < length s)

Stands-first : (c x a : ℕ) (xs : Text) → (x == c) ≡ true → a ≡ 0 → Stands c a (x ∷ xs)
Stands-first c x a xs e z =
    subst (λ n. Stands c n (x ∷ xs)) (sym z) (xs, ap (λ y. y ∷ xs) ((==_iff x c).0 e), omega arith)

Stands-later : (c x a i : ℕ) (xs : Text) → a ≡ suc i → Stands c i xs → Stands c a (x ∷ xs)
Stands-later c x a i xs z (r, e, l) = subst (λ n. Stands c n (x ∷ xs)) (sym z) (r, e, omega arith)

index_step :
    (c x a : ℕ) (xs : Text) (o : Option ℕ)
    → (if x == c then some 0 else map_suc o) ≡ some a
    → ((i : ℕ) → o ≡ some i → Stands c i xs)
    → Stands c a (x ∷ xs)
index_step c x a xs o h later = elim (Bool-cases (x == c)) [
  | inl e ↦ Stands-first c x a xs e (ground arith)
  | inr e ↦ elim (Option-cases o) [
    | inl n ↦ cc (rw (e, n) at h)
    | inr (i, n) ↦ Stands-later c x a i xs (ground arith) (later i n)
  ]
]

-- The index of a byte is that of its first place.
pub index-some : (c a : ℕ) (s : Text) → index c s ≡ some a → Stands c a s
unfolding index
index-some c a [] h = cc
index-some c a (x ∷ xs) h = index_step c x a xs (index c xs) h (λ i. index-some c i xs)
