-- ===== src/Ethcoder/AbiSig/Tuple/Slices.antt =====
-- The slices of a tuple's text are in range.
use ethkit.Prelude.{
  ℕ, zero, suc, ◌+◌, ◌-◌, ◌≤◌, ◌≡◌, Bool, true, some, [], ◌∷◌, take, drop, length, arith, ltb,
  Bool-cases, Option-cases, inl, inr,
}
use ethkit.Ethcoder.Text.{Text, trim_space, last_index, contains, split, slice}
use ethkit.Ethcoder.Text.Splitting.{
  contains-take, last_index-contains, last_index-lt, last_index-cons, length-take, length-take-le,
  slice_lem, slice-front, slice-back,
}
use ethkit.Ethcoder.AbiSig.Tree.{Result, ok, fails}
use ethkit.Ethcoder.AbiSig.Tuple.{
  Tuple, after, has_array, inside_of, with_array, split_array, at_end_of_type, end_of_type,
  tuple_words, parse_tuple,
}

-- The inside of the tuple came out, and is shorter than the text by two parentheses at least.
abbrev pub Inside : ℕ → Result Tuple → Type 0
Inside n (ok t) = length t.inside + 2 ≤ n
Inside n (fails e) = ⊥

inside_of-Inside :
    (n : ℕ) (q array : Text) (words : Bool × Text)
    → 2 ≤ length q
    → length q ≤ n
    → Inside n (inside_of (slice 1 (length q - 1) q) array words)
unfolding inside_of
inside_of-Inside n q array words h k =
    let (there, long) = slice_lem 1 (length q - 1) q (omega arith) (omega arith) in
    rw there (omega (arith, long))

after-contains :
    (c x : ℕ) (s : Text)
    → contains c s ≡ true
    → (2 ≤ after (last_index c (x ∷ s))) × (after (last_index c (x ∷ s)) ≤ length (x ∷ s))
after-contains c x s h =
    let (j, there) = last_index-contains c s h in
    rw (last_index-cons c x j s there) (omega arith, omega (arith, last_index-lt c j s there))

after-le : (c : ℕ) (s : Text) → after (last_index c s) ≤ length s
after-le c s = elim (Option-cases (last_index c s)) [
  | inl e ↦ rw e (omega arith)
  | inr (i, e) ↦ rw e (omega (arith, last_index-lt c i s e))
]

split_array-Inside :
    (n c : ℕ) (s : Text) (words : Bool × Text)
    → contains b')' s ≡ true
    → length (c ∷ s) ≤ n
    → Inside n (split_array (c ∷ s) words)
unfolding split_array with_array has_array
split_array-Inside n c s words h k =
    let (two, within) = after-contains b')' c s h in
    let ending = after-le b']' (c ∷ s) in
    elim (Bool-cases (has_array (last_index b']' (c ∷ s)) (last_index b')' (c ∷ s)))) [
      | inl t ↦
          rw
            (
              t,
              (slice_lem (after (last_index b')' (c ∷ s))) (after (last_index b']' (c ∷ s))) (c ∷ s)
                  (ground arith) ending).0,
              slice-front (after (last_index b')' (c ∷ s))) (c ∷ s) within,
            )
            (inside_of-Inside n (take (after (last_index b')' (c ∷ s))) (c ∷ s)) _ words
              (omega (arith, length-take _ (c ∷ s) within, two))
              (omega (arith, length-take _ (c ∷ s) within, within)))
      | inr t ↦ rw t (inside_of-Inside n (c ∷ s) [] words (omega arith) k)
    ]

end_of_type-ge : (p : Text) (i : ℕ) → last_index b')' p ≡ some i → suc i ≤ end_of_type p
unfolding end_of_type
end_of_type-ge p i h =
    elim (Bool-cases (ltb (after (last_index b']' p)) (after (last_index b')' p)))) [
      | inl t ↦ rw (t, h) (omega arith)
      | inr t ↦ rw t (ground (arith, h))
    ]

end_of_type-le : (p : Text) → end_of_type p ≤ length p
unfolding end_of_type
end_of_type-le p = elim (Bool-cases (ltb (after (last_index b']' p)) (after (last_index b')' p)))) [
  | inl t ↦ rw t (after-le b')' p)
  | inr t ↦ rw t (after-le b']' p)
]

-- The text of a tuple, which starts with one parenthesis and holds another that closes: no slice is
-- out of range.
pub parse_tuple-Inside :
    (c : ℕ) (s : Text) → contains b')' s ≡ true → Inside (length (c ∷ s)) (parse_tuple (c ∷ s))
unfolding parse_tuple at_end_of_type
parse_tuple-Inside c s h =
    let (j, there) = last_index-contains b')' s h in
    rw
      (
        slice-back (end_of_type (c ∷ s)) (c ∷ s) (end_of_type-le (c ∷ s)),
        slice-front (end_of_type (c ∷ s)) (c ∷ s) (end_of_type-le (c ∷ s)),
      )
      (from_end j there (end_of_type (c ∷ s))
        (end_of_type-ge (c ∷ s) (suc j) (last_index-cons b')' c j s there)))
  where
    from_end :
        (j : ℕ)
        → last_index b')' s ≡ some j
        → (xx : ℕ) → suc (suc j) ≤ xx
        → Inside (length (c ∷ s)) (
            split_array (take xx (c ∷ s)) (tuple_words (split b' ' (trim_space (drop xx (c ∷ s))))))
    from_end j there zero e = absurd (omega arith)
    from_end j there (suc xx) e =
        split_array-Inside (length (c ∷ s)) c (take xx s) _
          (contains-take b')' j xx s there (omega arith)) (length-take-le (suc xx) (c ∷ s))
