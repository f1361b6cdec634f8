-- ===== src/Ethcoder/Text/Splitting.antt =====
-- Last places of bytes, and slices.
use ethkit.Prelude.{
  ℕ, zero, suc, ◌-◌, ◌≤◌, ◌<◌, ◌≡◌, refl, ap, ◌∙◌, Bool, true, false, Option, none, some, [], ◌∷◌,
  take, drop, length, length-drop, arith, ◌==◌, Bool-cases, Option-cases, inl, inr,
}
use ethkit.Ethcoder.Text.{Text, index, last_of, last_index, contains, count, slice}

last_of-none : (t : Bool) (i : ℕ) → last_of none t ≡ some i → (t ≡ true) × (i ≡ 0)
unfolding last_of
last_of-none true i h = (refl, ground arith)
last_of-none false i h = cc

last_of-some : (i j : ℕ) (t : Bool) → last_of (some i) t ≡ some j → j ≡ suc i
unfolding last_of
last_of-some i j t h = ground arith

-- A front that reaches past the last place of a byte contains it.
pub contains-take :
    (c i k : ℕ) (s : Text) → last_index c s ≡ some i → i < k → contains c (take k s) ≡ true
unfolding last_index contains
contains-take c i k [] h l = cc
contains-take c i zero (x ∷ xs) h l = absurd (omega arith)
contains-take c i (suc k) (x ∷ xs) h l = elim (Option-cases (last_index c xs)) [
  | inl n ↦ ground (arith, last_of-none (x == c) i (rw n at h))
  | inr (j, n) ↦
      let e = last_of-some j i (x == c) (rw n at h) in
      let rest = contains-take c j k xs n (omega arith) in ground (arith, rest)
]

last_of-there :
    (o : Option ℕ) (t : Bool) → ((o ≡ none) → t ≡ true) → (j : ℕ) × (last_of o t ≡ some j)
unfolding last_of
last_of-there none t h = (0, rw (h refl) refl)
last_of-there (some i) t h = (suc i, refl)

-- A byte that is contained has a last place.
pub last_index-contains :
    (c : ℕ) (s : Text) → contains c s ≡ true → (j : ℕ) × (last_index c s ≡ some j)
unfolding last_index contains
last_index-contains c [] h = cc
last_index-contains c (x ∷ xs) h = last_of-there (last_index c xs) (x == c) (λ n.
    elim (Bool-cases (x == c)) [
      | inl e ↦ e
      | inr e ↦ let (j, there) = last_index-contains c xs (rw e at h) in cc (n, there)
    ])

pub last_index-lt : (c i : ℕ) (s : Text) → last_index c s ≡ some i → i < length s
unfolding last_index
last_index-lt c i [] h = cc
last_index-lt c i (x ∷ xs) h = elim (Option-cases (last_index c xs)) [
  | inl n ↦ omega (arith, (last_of-none (x == c) i (rw n at h)).1)
  | inr (j, n) ↦ omega (arith, last_of-some j i (x == c) (rw n at h), last_index-lt c j xs n)
]

pub length-take : (n : ℕ) (s : Text) → n ≤ length s → length (take n s) ≡ n
length-take zero s h = refl
length-take (suc n) [] h = absurd (omega arith)
length-take (suc n) (x ∷ s) h = omega (arith, length-take n s (omega arith))

pub length-take-le : (n : ℕ) (s : Text) → length (take n s) ≤ length s
length-take-le zero s = omega arith
length-take-le (suc n) [] = omega arith
length-take-le (suc n) (x ∷ s) = omega (arith, length-take-le n s)

-- A slice that is in range has its length.
pub slice_lem :
    (a b : ℕ) (s : Text)
    → a ≤ b
    → b ≤ length s
    → (slice a b s ≡ some (take (b - a) (drop a s))) × (length (take (b - a) (drop a s)) ≡ b - a)
unfolding slice
slice_lem a b s h k =
    (ground arith, length-take (b - a) (drop a s) (omega (arith, length-drop a s)))

take-all : (n : ℕ) (s : Text) → n ≡ length s → take n s ≡ s
take-all zero [] h = refl
take-all zero (x ∷ s) h = absurd (omega arith)
take-all (suc n) [] h = refl
take-all (suc n) (x ∷ s) h = ap (λ t. x ∷ t) (take-all n s (omega arith))

-- `s[:b]` and `s[a:]`
pub slice-front : (b : ℕ) (s : Text) → b ≤ length s → slice 0 b s ≡ some (take b s)
slice-front b s h =
    let same : b - 0 ≡ b = omega arith in
    (slice_lem 0 b s (omega arith) h).0 ∙ ap (λ n. some (take n s)) same

pub slice-back : (a : ℕ) (s : Text) → a ≤ length s → slice a (length s) s ≡ some (drop a s)
slice-back a s h =
    (slice_lem a (length s) s h (omega arith)).0
    ∙ ap some (take-all (length s - a) (drop a s) (omega (arith, length-drop a s)))

pub last_index-cons :
    (c x j : ℕ) (s : Text) → last_index c s ≡ some j → last_index c (x ∷ s) ≡ some (suc j)
unfolding last_index last_of
last_index-cons c x j s h = rw h refl

pub index-contains :
    (c a : ℕ) (s : Text) → index c s ≡ some a → (contains c s ≡ true) × (1 ≤ count c s)
unfolding index contains count
index-contains c a [] h = cc
index-contains c a (x ∷ xs) h = elim (Bool-cases (x == c)) [
  | inl e ↦ rw e (refl, omega arith)
  | inr e ↦ elim (Option-cases (index c xs)) [
    | inl n ↦ cc (rw (e, n) at h)
    | inr (i, n) ↦ rw e (index-contains c i xs n)
  ]
]

pub contains-last_index : (c b : ℕ) (s : Text) → last_index c s ≡ some b → contains c s ≡ true
unfolding last_index contains
contains-last_index c b [] h = cc
contains-last_index c b (x ∷ xs) h = elim (Option-cases (last_index c xs)) [
  | inl n ↦ rw (last_of-none (x == c) b (rw n at h)).0 refl
  | inr (j, n) ↦ let rest = contains-last_index c j xs n in ground (arith, rest)
]

pub slice-none : (a b : ℕ) (s : Text) → b < a → slice a b s ≡ none
unfolding slice
slice-none a b s h = ground arith
