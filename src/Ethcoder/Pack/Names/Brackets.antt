-- ===== src/Ethcoder/Pack/Names/Brackets.antt =====
-- The name of a type of arrays is none of the other names.
use ethkit.Prelude.{
  ◌≡◌, refl, true, false, none, some, [], ◌∷◌, ◌==◌, Bool-cases, Option-cases, inl, inr, arith,
}
use ethkit.Ethcoder.Text.{Text, codes, text_eq, contains}
use ethkit.Ethcoder.Pack.Names.{
  all_digits, strip, digits_of, or_else, match_number, not_empty, match_bytes, drop_close,
  match_array,
}

all_digits-contains : (s : Text) → all_digits s ≡ true → contains 93 s ≡ false
unfolding all_digits contains
all_digits-contains [] h = refl
all_digits-contains (c ∷ cs) h = ground (arith, all_digits-contains cs)

text_eq-contains : (s t : Text) → text_eq s t ≡ true → contains 93 s ≡ contains 93 t
unfolding text_eq contains
text_eq-contains [] [] h = refl
text_eq-contains [] (d ∷ ds) h = cc
text_eq-contains (c ∷ cs) [] h = cc
text_eq-contains (c ∷ cs) (d ∷ ds) h = ground (arith, text_eq-contains cs ds)

strip-contains :
    (p s r : Text)
    → strip p s ≡ some r
    → contains 93 p ≡ false
    → contains 93 r ≡ false
    → contains 93 s ≡ false
unfolding strip contains
strip-contains [] s r h p q = let e : s ≡ r = cc in rw e q
strip-contains (a ∷ p) [] r h n q = cc
strip-contains (a ∷ p) (c ∷ s) r h n q = ground (arith, strip-contains p s r)

-- A text with a closing bracket is no prefix with digits behind it.
digits_of-bracket :
    (p s : Text) → contains 93 p ≡ false → contains 93 s ≡ true → digits_of (strip p s) ≡ none
unfolding digits_of
digits_of-bracket p s n h = elim (Option-cases (strip p s)) [
  | inl u ↦ rw u refl
  | inr (r, u) ↦ elim (Bool-cases (all_digits r)) [
    | inl d ↦ let never = strip-contains p s r u n (all_digits-contains r d) in cc
    | inr d ↦ rw (u, d) refl
  ]
]

drop_close-contains : (s t : Text) → drop_close s ≡ some t → contains 93 s ≡ true
unfolding drop_close contains
drop_close-contains [] t h = cc
drop_close-contains (c ∷ []) t h = ground arith
drop_close-contains (c ∷ d ∷ ds) t h = elim (Option-cases (drop_close (d ∷ ds))) [
  | inl u ↦ cc (rw u at h)
  | inr (r, u) ↦
      let behind = drop_close-contains (d ∷ ds) r u in
      elim (Bool-cases (c == 93)) [ inl v ↦ rw v refl | inr v ↦ rw v behind ]
]

match_array-contains : (s : Text) (x : Text × Text) → match_array s ≡ some x → contains 93 s ≡ true
unfolding match_array
match_array-contains s x h = elim (Option-cases (drop_close s)) [
  | inl u ↦ cc (rw (match_array, u) at h)
  | inr (t, u) ↦ drop_close-contains s t u
]

pub match_array-match_number :
    (s : Text) (x : Text × Text) → match_array s ≡ some x → match_number s ≡ none
unfolding match_number or_else contains
match_array-match_number s x h =
    let bracket = match_array-contains s x h in
    rw
      (
        digits_of-bracket (codes "uint") s refl bracket,
        digits_of-bracket (codes "int") s refl bracket,
      )
      refl

pub match_array-match_bytes :
    (s : Text) (x : Text × Text) → match_array s ≡ some x → match_bytes s ≡ none
unfolding match_bytes not_empty contains
match_array-match_bytes s x h =
    rw (digits_of-bracket (codes "bytes") s refl (match_array-contains s x h)) refl

pub match_array-text_eq :
    (s t : Text) (x : Text × Text)
    → match_array s ≡ some x
    → contains 93 t ≡ false
    → text_eq s t ≡ false
match_array-text_eq s t x h n = elim (Bool-cases (text_eq s t)) [
  | inl u ↦ let same = text_eq-contains s t u in let bracket = match_array-contains s x h in cc
  | inr u ↦ u
]
