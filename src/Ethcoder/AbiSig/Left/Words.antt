-- ===== src/Ethcoder/AbiSig/Left/Words.antt =====
-- The errors of the arguments before the first tuple.
use ethkit.Prelude.{List, [], ◌∷◌, Bool-cases, inl, inr}
use ethkit.Ethcoder.Text.{Text, is_empty, trim_space, split}
use ethkit.Ethcoder.AbiSig.Tree.{
  invalid_format, no_closing_parenthesis, invalid_argument, invalid_indexed_argument,
  slice_out_of_range, out_of_fuel, Result, ok, fails,
}
use ethkit.Ethcoder.AbiSig.Left.{Left, is_indexed, add_words, add_all, left_of, no_left, parse_left}

-- An end that the source has, and no panic.
abbrev pub IsOrderly {ℓ} : {A : Type ℓ} → Result A → Type 0
IsOrderly (ok a) = Unit
IsOrderly (fails slice_out_of_range) = ⊥
IsOrderly (fails out_of_fuel) = ⊥
IsOrderly (fails invalid_format) = Unit
IsOrderly (fails no_closing_parenthesis) = Unit
IsOrderly (fails invalid_argument) = Unit
IsOrderly (fails invalid_indexed_argument) = Unit

add_words-IsOrderly : (ws : List Text) (l : Left) → IsOrderly (add_words ws l)
unfolding add_words
add_words-IsOrderly [] l = tt
add_words-IsOrderly (t ∷ []) l = tt
add_words-IsOrderly (t ∷ k ∷ []) l = tt
add_words-IsOrderly (t ∷ k ∷ name ∷ []) l = elim (Bool-cases (is_indexed k)) [
  | inl e ↦ rw e tt
  | inr e ↦ rw e tt
]
add_words-IsOrderly (t ∷ k ∷ name ∷ w ∷ ws) l = tt

add_all-IsOrderly : (ps : List Text) (r : Result Left) → IsOrderly r → IsOrderly (add_all ps r)
unfolding add_all
add_all-IsOrderly ps (fails e) h = h
add_all-IsOrderly [] (ok l) h = tt
add_all-IsOrderly (p ∷ ps) (ok l) h =
    add_all-IsOrderly ps (add_words (split b' ' (trim_space p)) l) (add_words-IsOrderly _ l)

left_of-IsOrderly : (r : Result Left) → IsOrderly r → IsOrderly (left_of r)
unfolding left_of
left_of-IsOrderly (ok l) h = tt
left_of-IsOrderly (fails e) h = h

pub parse_left-IsOrderly : (p1 : Text) → IsOrderly (parse_left p1)
unfolding parse_left
parse_left-IsOrderly p1 = elim (Bool-cases (is_empty p1)) [
  | inl e ↦ rw e tt
  | inr e ↦ rw e (left_of-IsOrderly _ (add_all-IsOrderly (split b',' p1) (ok no_left) tt))
]
