-- ===== src/Ethcoder/AbiSig/Parens.antt =====
-- ethcoder/abi_sig_parser.go, `findParensCloseIndex`.
pub mod Balance
use ethkit.Prelude.{
  ℕ, zero, suc, ◌+◌, ◌-◌, Bool, true, false, ◌&&◌, ◌||◌, not, Option, none, some, List, [], ◌∷◌,
  ◌++◌, take, drop, get_last?, length, ltb, ◌==◌, ◌>>=◌, if◌then◌else◌,
}
use ethkit.Ethcoder.Text.{
  Text, codes, is_empty, text_eq, trim_right, trim_space, index, last_index, contains, count, split,
  slice, decimal,
}

-- The depth of `findParensCloseIndex` is an int: here it is what was opened and what was closed. The
-- first argument is the index.
close_from : ℕ → ℕ → ℕ → Text → Option ℕ
close_from i opened closed [] = none
close_from i opened closed (c ∷ cs) =
    let deeper = close_from (suc i) (suc opened) closed cs in
    let higher = close_from (suc i) opened (suc closed) cs in
    let same = close_from (suc i) opened closed cs in
    if c == b'('
    then deeper
    else if c == b')'
    then if suc closed == opened then some i else higher
    else same

unfoldable pub find_parens_close_index : Text → Option ℕ
unfolding close_from
find_parens_close_index args = close_from 0 0 0 args
