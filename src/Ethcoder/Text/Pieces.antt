-- ===== src/Ethcoder/Text/Pieces.antt =====
-- Pieces of a text, and texts that are put together from pieces.
use ethkit.Prelude.{
  ℕ, ◌-◌, ◌≡◌, ◌≢◌, refl, sym, ap, ap₂, ◌∙◌, ◌⊎◌, Bool, true, false, List, [], ◌∷◌, ◌++◌,
  append_assoc, take, take-length-append, length, length-append, arith, All, All-append, ◌==◌,
  Bool-cases, inl, inr,
}
use ethkit.Ethcoder.Text.Trimming.{trim_right-cons}
use ethkit.Ethcoder.Text.{
  Text, is_space, trim_left, keep_or_trim, trim_right, trim_space, onto_first, split,
}

-- The byte does not stand in the text.
abbrev pub Free : ℕ → Text → Type 0
Free c s = All (λ x. x ≢ c) s

module _ (P : ℕ → Type 0) where
  All-trim_left : (test : ℕ → Bool) (s : Text) → All P s → All P (trim_left test s)
  unfolding trim_left
  All-trim_left test [] h = tt
  All-trim_left test (c ∷ cs) h = elim (Bool-cases (test c)) [
    | inl t ↦ rw t (All-trim_left test cs h.1)
    | inr t ↦ rw t h
  ]

  All-keep_or_trim :
      (t : Bool) (c : ℕ) (rest : Text) → P c → All P rest → All P (keep_or_trim t c rest)
  unfolding keep_or_trim
  All-keep_or_trim true c [] p h = tt
  All-keep_or_trim false c [] p h = (p, tt)
  All-keep_or_trim true c (d ∷ ds) p h = (p, h)
  All-keep_or_trim false c (d ∷ ds) p h = (p, h)

  All-trim_right : (test : ℕ → Bool) (s : Text) → All P s → All P (trim_right test s)
  unfolding trim_right
  All-trim_right test [] h = tt
  All-trim_right test (c ∷ cs) (p, h) =
      All-keep_or_trim (test c) c (trim_right test cs) p (All-trim_right test cs h)

  pub All-trim_space : (s : Text) → All P s → All P (trim_space s)
  unfolding trim_space
  All-trim_space s h = All-trim_right is_space (trim_left is_space s) (All-trim_left is_space s h)

  All-onto_first : (c : ℕ) (ps : List Text) → P c → All (All P) ps → All (All P) (onto_first c ps)
  unfolding onto_first
  All-onto_first c [] p h = ((p, tt), tt)
  All-onto_first c (q ∷ ps) p (g, h) = ((p, g), h)

  pub All-split : (d : ℕ) (s : Text) → All P s → All (All P) (split d s)
  unfolding split
  All-split d [] h = (tt, tt)
  All-split d (c ∷ cs) (p, h) = elim (Bool-cases (c == d)) [
    | inl t ↦ rw t (tt, All-split d cs h)
    | inr t ↦ rw t (All-onto_first c (split d cs) p (All-split d cs h))
  ]

-- No piece holds the byte at which the text was split.
pub split-Free : (c : ℕ) (s : Text) → All (Free c) (split c s)
unfolding split
split-Free c [] = (tt, tt)
split-Free c (x ∷ xs) = elim (Bool-cases (x == c)) [
  | inl t ↦ rw t (tt, split-Free c xs)
  | inr t ↦ rw t (All-onto_first (λ y. y ≢ c) x (split c xs) (ground arith) (split-Free c xs))
]

pub split-append : (c : ℕ) (t s : Text) → Free c t → split c (t ++ c ∷ s) ≡ t ∷ split c s
unfolding split onto_first
split-append c [] s h = ground arith
split-append c (x ∷ t) s (p, h) =
    let other : (x == c) ≡ false = ground arith in rw (other, split-append c t s h, onto_first) refl

pub split-one : (c : ℕ) (t : Text) → Free c t → split c t ≡ t ∷ []
unfolding split onto_first
split-one c [] h = refl
split-one c (x ∷ t) (p, h) =
    let other : (x == c) ≡ false = ground arith in rw (other, split-one c t h, onto_first) refl

-- A text that starts with another byte has a first piece that starts with it.
pub split-cons :
    (c x : ℕ) (s : Text) → x ≢ c → (p : Text) × (ps : List Text) × (split c (x ∷ s) ≡ (x ∷ p) ∷ ps)
unfolding split onto_first
split-cons c x s h =
    let other : (x == c) ≡ false = ground arith in
    let (p, ps, e) = first_piece (split c s) in (p, ps, rw other e)
  where
    first_piece : (l : List Text) → (p : Text) × (ps : List Text) × (onto_first x l ≡ (x ∷ p) ∷ ps)
    first_piece [] = ([], [], refl)
    first_piece (p ∷ ps) = (p, ps, refl)

-- each text with the byte behind it
abbrev pub each_with : ℕ → List Text → Text
each_with c [] = []
each_with c (t ∷ ts) = t ++ c ∷ each_with c ts

-- the texts with the byte between them
abbrev pub joined_by : ℕ → List Text → Text
joined_by c [] = []
joined_by c (t ∷ []) = t
joined_by c (t ∷ u ∷ ts) = t ++ c ∷ joined_by c (u ∷ ts)

pub each_with-snoc :
    (c : ℕ) (ts : List Text) (t : Text)
    → each_with c (ts ++ t ∷ []) ≡ each_with c ts ++ (t ++ c ∷ [])
each_with-snoc c [] t = refl
each_with-snoc c (u ∷ ts) t =
    ap (λ l. u ++ c ∷ l) (each_with-snoc c ts t)
    ∙ sym (append_assoc u (c ∷ each_with c ts) (t ++ c ∷ []))

each_with-joined_by :
    (c : ℕ) (t : Text) (ts : List Text) → each_with c (t ∷ ts) ≡ joined_by c (t ∷ ts) ++ c ∷ []
each_with-joined_by c t [] = refl
each_with-joined_by c t (u ∷ ts) =
    ap (λ l. t ++ c ∷ l) (each_with-joined_by c u ts)
    ∙ sym (append_assoc t (c ∷ joined_by c (u ∷ ts)) (c ∷ []))

-- Without the last byte it is the joined text.
pub take-each_with :
    (c : ℕ) (ts : List Text) → take (length (each_with c ts) - 1) (each_with c ts) ≡ joined_by c ts
take-each_with c [] = refl
take-each_with c (t ∷ ts) =
    let e = each_with-joined_by c t ts in
    let n : length (each_with c (t ∷ ts)) - 1 ≡ length (joined_by c (t ∷ ts)) =
      omega (arith, ap length e, length-append (joined_by c (t ∷ ts)) (c ∷ [])) in
    ap₂ take n e ∙ take-length-append (joined_by c (t ∷ ts)) (c ∷ [])

pub split-joined_by :
    (c : ℕ) (t : Text) (ts : List Text)
    → All (Free c) (t ∷ ts)
    → split c (joined_by c (t ∷ ts)) ≡ t ∷ ts
split-joined_by c t [] (h, tt) = split-one c t h
split-joined_by c t (u ∷ ts) (h, k) =
    split-append c t (joined_by c (u ∷ ts)) h ∙ ap (λ l. t ∷ l) (split-joined_by c u ts k)

-- What is left of a trimmed text starts with another byte than a space.
pub trim_space-starts :
    (s : Text)
    → (trim_space s ≡ []) ⊎ ((c : ℕ) × (r : Text) × (is_space c ≡ false) × (trim_space s ≡ c ∷ r))
unfolding trim_space trim_left
trim_space-starts [] = inl (unfold trim_right in refl)
trim_space-starts (c ∷ cs) = elim (Bool-cases (is_space c)) [
  | inl t ↦ rw t (trim_space-starts cs)
  | inr t ↦ rw t (inr (c, trim_right is_space cs, t, trim_right-cons is_space c cs t))
]

pub split-each_with :
    (c : ℕ) (ts : List Text) → All (Free c) ts → split c (each_with c ts) ≡ ts ++ [] ∷ []
unfolding split
split-each_with c [] h = refl
split-each_with c (t ∷ ts) (p, h) =
    split-append c t (each_with c ts) p ∙ ap (λ l. t ∷ l) (split-each_with c ts h)

pub All-joined_by :
    (P : ℕ → Type 0) (c : ℕ) (ts : List Text) → P c → All (All P) ts → All P (joined_by c ts)
All-joined_by P c [] q h = tt
All-joined_by P c (t ∷ []) q (p, h) = p
All-joined_by P c (t ∷ u ∷ ts) q (p, h) =
    All-append P t (c ∷ joined_by c (u ∷ ts)) p (q, All-joined_by P c (u ∷ ts) q h)

pub joined_by_ends :
    (Q : Text → Type 0) (c : ℕ) (t : Text) (ts : List Text)
    → ((u v : Text) → Q v → Q (u ++ v))
    → All Q (t ∷ ts)
    → Q (joined_by c (t ∷ ts))
joined_by_ends Q c t [] grow (q, h) = q
joined_by_ends Q c t (u ∷ ts) grow (q, h) =
    grow t (c ∷ joined_by c (u ∷ ts))
      (grow (c ∷ []) (joined_by c (u ∷ ts)) (joined_by_ends Q c u ts grow h))

pub joined_by_starts :
    (Q : Text → Type 0) (c : ℕ) (t : Text) (ts : List Text)
    → ((u v : Text) → Q u → Q (u ++ v))
    → Q t
    → Q (joined_by c (t ∷ ts))
joined_by_starts Q c t [] grow q = q
joined_by_starts Q c t (u ∷ ts) grow q = grow t (c ∷ joined_by c (u ∷ ts)) q

pub each_with_as_joined :
    (c : ℕ) (t : Text) (ts : List Text) → joined_by c (t ∷ ts) ++ c ∷ [] ≡ each_with c (t ∷ ts)
each_with_as_joined c t ts = sym (each_with-joined_by c t ts)
