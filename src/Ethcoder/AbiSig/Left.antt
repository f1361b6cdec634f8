-- ===== src/Ethcoder/AbiSig/Left.antt =====
-- ethcoder/abi_sig_parser.go, the part of `parseABISignatureArgs` that reads the arguments before the
-- first tuple.
pub mod Arguments
pub mod Fields
pub mod Words
pub mod Written
use ethkit.Prelude.{
  ℕ, zero, suc, ◌+◌, ◌-◌, Bool, true, false, ◌&&◌, ◌||◌, not, Option, none, some, List, [], ◌∷◌,
  ◌++◌, take, drop, get_last?, length, ltb, ◌==◌, ◌>>=◌, if◌then◌else◌,
}
use ethkit.Ethcoder.Text.{
  Text, codes, is_empty, text_eq, trim_right, trim_space, index, last_index, contains, count, split,
  slice, decimal,
}
use ethkit.Ethcoder.AbiSig.Tree.{
  Err, invalid_format, no_closing_parenthesis, invalid_argument, invalid_indexed_argument,
  slice_out_of_range, out_of_fuel, Result, ok, fails, AbiSignature, Tree, Trees, node, nil, cons,
}

-- the loop over the arguments before the first tuple
pub record Left : Type 0 where
  -- the types, each with a comma behind it
  pub s : Text
  pub indexed : List Bool
  pub names : List Text

pub add_flag : Bool → Text → Left → Left
add_flag b name l = record l { indexed = l.indexed ++ b ∷ []; names = l.names ++ name ∷ [] }

pub add_type : Text → Left → Left
add_type typ l = if is_empty typ then l else record l { s = l.s ++ (typ ++ b',' ∷ []) }

unfoldable pub is_indexed : Text → Bool
is_indexed w = text_eq w (codes "indexed")

add_unindexed : Text → Text → Left → Left
unfolding add_flag
add_unindexed t name l = if is_empty t then l else add_flag false name l

-- the words of one argument; `split` gives at least one
pub add_words : List Text → Left → Result Left
unfolding add_flag add_type is_indexed add_unindexed
add_words [] l = ok l
add_words (t ∷ []) l = ok (add_type (trim_space t) (add_unindexed t [] l))
add_words (t ∷ k ∷ []) l =
    ok (add_type (trim_space t) (if is_indexed k then add_flag true [] l else add_unindexed t k l))
add_words (t ∷ k ∷ name ∷ []) l =
    if is_indexed k
    then ok (add_type (trim_space t) (add_flag true name l))
    else fails invalid_indexed_argument
add_words (t ∷ k ∷ name ∷ w ∷ ws) l = fails invalid_argument

add_all : List Text → Result Left → Result Left
unfolding add_words
add_all ps (fails e) = fails e
add_all [] (ok l) = ok l
add_all (p ∷ ps) (ok l) = add_all ps (add_words (split b' ' (trim_space p)) l)

-- without the last comma; the text is not empty, so the slice is in range
pub without_last : Text → Text
without_last s = if ltb 0 (length s) then take (length s - 1) s else s

finish_left : Left → Left
unfolding without_last
finish_left l = record l { s = without_last l.s }

left_of : Result Left → Result Left
unfolding finish_left
left_of (ok l) = ok (finish_left l)
left_of (fails e) = fails e

abbrev no_left : Left
no_left = record { s = []; indexed = []; names = [] }

unfoldable pub parse_left : Text → Result Left
unfolding add_all left_of
parse_left p1 = if is_empty p1 then ok no_left else left_of (add_all (split b',' p1) (ok no_left))
