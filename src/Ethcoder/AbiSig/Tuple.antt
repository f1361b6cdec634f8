-- ===== src/Ethcoder/AbiSig/Tuple.antt =====
-- ethcoder/abi_sig_parser.go, the part of `parseABISignatureArgs` that reads the text of a tuple.
pub mod Slices
use ethkit.Prelude.{
  ℕ, zero, suc, ◌+◌, ◌-◌, Bool, true, false, ◌&&◌, ◌||◌, not, Option, none, some, List, [], ◌∷◌,
  ◌++◌, take, drop, get_last?, length, ltb, ◌==◌, ◌>>=◌, if◌then◌else◌,
}
use ethkit.Ethcoder.Text.{
  Text, codes, is_empty, text_eq, trim_right, trim_space, index, last_index, contains, count, split,
  slice, decimal,
}
use ethkit.Ethcoder.AbiSig.Left.{is_indexed}
use ethkit.Ethcoder.AbiSig.Tree.{
  Err, invalid_format, no_closing_parenthesis, invalid_argument, invalid_indexed_argument,
  slice_out_of_range, out_of_fuel, Result, ok, fails, AbiSignature, Tree, Trees, node, nil, cons,
}

-- the index behind one, where -1 is `none`
abbrev after : Option ℕ → ℕ
after none = 0
after (some i) = suc i

abbrev pub is_comma : ℕ → Bool
is_comma c = c == b','

-- what the words behind a tuple say: whether it is indexed, and its name
tuple_words : List Text → Bool × Text
unfolding is_indexed
tuple_words (w ∷ []) =
    let n0 = trim_right is_comma w in if is_indexed n0 then (true, []) else (false, n0)
tuple_words (w ∷ v ∷ []) =
    if is_indexed (trim_right is_comma w) then (true, trim_right is_comma v) else (false, [])
tuple_words _ = (false, [])

pub record Tuple : Type 0 where
  pub inside : Text
  pub array : Text
  pub indexed : Bool
  pub name : Text

-- the array part of a tuple, from the last brackets and parentheses: `x1 > 0 && x2 < x1`
has_array : Option ℕ → Option ℕ → Bool
has_array x1 x2 = ltb 1 (after x1) && ltb (after x2) (after x1)

inside_of : Option Text → Text → Bool × Text → Result Tuple
inside_of none array words = fails slice_out_of_range
inside_of (some inside) array (indexed, name) =
    ok (record { inside = inside; array = array; indexed = indexed; name = name })

-- the slices `p2[x2+1:x1+1]` and `p2[:x2+1]`
with_array : Option Text → Option Text → Bool × Text → Result Tuple
unfolding inside_of
with_array (some array) (some p2) words = inside_of (slice 1 (length p2 - 1) p2) array words
with_array _ _ words = fails slice_out_of_range

split_array : Text → Bool × Text → Result Tuple
unfolding has_array with_array inside_of
split_array p2 words =
    let x1 = last_index b']' p2 in
    let x2 = last_index b')' p2 in
    if has_array x1 x2
    then with_array (slice (after x2) (after x1) p2) (slice 0 (after x2) p2) words
    else inside_of (slice 1 (length p2 - 1) p2) [] words

-- `max(x1, x2) + 1`
end_of_type : Text → ℕ
end_of_type p2 =
    let x1 = after (last_index b']' p2) in
    let x2 = after (last_index b')' p2) in if ltb x1 x2 then x2 else x1

-- the slices `p2[xx+1:]` and `p2[:xx+1]`
at_end_of_type : Option Text → Option Text → Result Tuple
unfolding split_array tuple_words
at_end_of_type (some words) (some p2) = split_array p2 (tuple_words (split b' ' (trim_space words)))
at_end_of_type _ _ = fails slice_out_of_range

unfoldable pub parse_tuple : Text → Result Tuple
unfolding at_end_of_type end_of_type
parse_tuple p2 = let xx = end_of_type p2 in at_end_of_type (slice xx (length p2) p2) (slice 0 xx p2)
