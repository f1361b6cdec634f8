-- ===== src/Ethcoder/AbiSig/Args.antt =====
-- ethcoder/abi_sig_parser.go, `parseABISignatureArgs`. The recursion is on fuel: the text gets shorter
-- at each level.
pub mod Ends
pub mod Flat
pub mod Wellformed
use ethkit.Prelude.{
  ℕ, zero, suc, ◌+◌, ◌-◌, Bool, true, false, ◌&&◌, ◌||◌, not, Option, none, some, List, [], ◌∷◌,
  ◌++◌, take, drop, get_last?, length, ltb, ◌==◌, ◌>>=◌, if◌then◌else◌,
}
use ethkit.Ethcoder.Text.{
  Text, codes, is_empty, text_eq, trim_right, trim_space, index, last_index, contains, count, split,
  slice, decimal,
}
use ethkit.Ethcoder.AbiSig.Tree.{
  Err, invalid_format, no_closing_parenthesis, invalid_argument, invalid_indexed_argument,
  slice_out_of_range, out_of_fuel, Result, ok, fails, AbiSignature, Tree, Trees, node, nil, cons,
}
use ethkit.Ethcoder.AbiSig.Parens.{find_parens_close_index}
use ethkit.Ethcoder.AbiSig.Left.{Left, parse_left}
use ethkit.Ethcoder.AbiSig.Tuple.{Tuple, parse_tuple}

-- past a comma that is further on
skip_comma : Option ℕ → ℕ
skip_comma none = 0
skip_comma (some zero) = 0
skip_comma (some (suc x)) = suc (suc x)

is_last_comma : Option ℕ → Bool
is_last_comma none = false
is_last_comma (some c) = c == b','

with_comma : Text → Text
unfolding is_last_comma
with_comma args = if is_last_comma (get_last? args) then args else args ++ b',' ∷ []

-- The body takes the recursive call as its first argument.
abbrev pub Self : Type 0
Self = Text → Result Tree

abbrev pub no_tuple : Tuple
no_tuple = record { inside = []; array = []; indexed = false; name = [] }

abbrev pub leaf : Tree
leaf = node [] [] [] nil [] false [] nil

only : Result Tree → Result Trees
only (ok t) = ok (cons t nil)
only (fails e) = fails e

-- the source recurs where there is a text
parse_some : Self → Text → Result Trees
unfolding only
parse_some self p = if is_empty p then ok nil else only (self p)

-- without a text in the tuple there is nothing of it in the tree
node_of : Left → Tuple → Trees → Trees → Tree
node_of l t inner right =
    if is_empty t.inside
    then node l.s l.indexed l.names nil [] false [] right
    else node l.s l.indexed l.names inner t.array t.indexed t.name right

join_right : Left → Tuple → Trees → Result Trees → Result Tree
unfolding node_of
join_right l t inner (ok right) = ok (node_of l t inner right)
join_right l t inner (fails e) = fails e

join_inner : Self → Left → Tuple → Result Trees → Text → Result Tree
unfolding join_right parse_some
join_inner self l t (ok inner) p3 = join_right l t inner (parse_some self p3)
join_inner self l t (fails e) p3 = fails e

join_left : Self → Result Left → Tuple → Text → Result Tree
unfolding join_inner
join_left self (ok l) t p3 = join_inner self l t (parse_some self t.inside) p3
join_left self (fails e) t p3 = fails e

with_tuple : Self → Text → Result Tuple → Text → Result Tree
unfolding join_left
with_tuple self p1 (ok t) p3 = join_left self (parse_left p1) t p3
with_tuple self p1 (fails e) p3 = fails e

-- the slices `args[:a]`, `args[a:z]` and `args[z:]`
three_parts : Self → Option Text → Option Text → Option Text → Result Tree
unfolding with_tuple
three_parts self (some p1) (some p2) (some p3) =
    with_tuple self (trim_space p1) (parse_tuple (trim_space p2)) (trim_space p3)
three_parts self _ _ _ = fails slice_out_of_range

-- the last argument is the slice `args[z:]` before `z` moves past the comma
past_comma : Self → Text → ℕ → ℕ → Option Text → Result Tree
unfolding three_parts skip_comma
past_comma self args a z1 none = fails slice_out_of_range
past_comma self args a z1 (some rest) =
    let z = z1 + skip_comma (index b',' rest) in
    three_parts self (slice 0 a args) (slice a z args) (slice z (length args) args)

-- the third argument is where the tuple opens, and the last where it closes, from there on
at_close : Self → Text → ℕ → Option ℕ → Result Tree
unfolding past_comma
at_close self args a none = fails no_closing_parenthesis
at_close self args a (some z0) =
    let z1 = z0 + a + 1 in past_comma self args a z1 (slice z1 (length args) args)

-- the last argument is the slice `args[a:]`
from_open : Self → Text → ℕ → Option Text → Result Tree
unfolding at_close
from_open self args a none = fails slice_out_of_range
from_open self args a (some rest) = at_close self args a (find_parens_close_index rest)

at_open : Self → Text → Option ℕ → Result Tree
unfolding join_left from_open
at_open self args none = join_left self (parse_left args) no_tuple []
at_open self args (some a) = from_open self args a (slice a (length args) args)

parse_trimmed : Self → Text → Result Tree
unfolding at_open with_comma
parse_trimmed self [] = ok leaf
parse_trimmed self (c ∷ cs) = let args = with_comma (c ∷ cs) in at_open self args (index b'(' args)

unfoldable pub parse_abi_signature_args : ℕ → Text → Result Tree
unfolding parse_trimmed
parse_abi_signature_args zero event_args = fails out_of_fuel
parse_abi_signature_args (suc n) event_args =
    parse_trimmed (parse_abi_signature_args n) (trim_space event_args)
