-- ===== src/Ethcoder/AbiSig/Signature.antt =====
-- `ParseABISignature` of ethcoder/abi_sig_parser.go and `String` of ethcoder/abi_sig.go. Keccak-256 is a
-- parameter.
pub mod Agreement
pub mod Panics
pub mod RoundTrip
pub mod Written
use ethkit.Prelude.{
  ℕ, zero, suc, ◌+◌, ◌-◌, Bool, true, false, ◌&&◌, ◌||◌, not, Option, none, some, List, [], ◌∷◌,
  ◌++◌, take, drop, get_last?, length, ltb, ◌==◌, ◌>>=◌, if◌then◌else◌,
}
use ethkit.Ethcoder.Text.{
  Text, codes, is_empty, text_eq, trim_right, trim_space, index, last_index, contains, count, split,
  slice, decimal,
}
use ethkit.Ethcoder.AbiSig.Tree.{
  Err, invalid_format, no_closing_parenthesis, invalid_argument, invalid_indexed_argument,
  slice_out_of_range, out_of_fuel, Result, ok, fails, AbiSignature, Tree, Trees, node, nil, cons,
}
use ethkit.Ethcoder.AbiSig.Args.{parse_abi_signature_args}
use ethkit.Ethcoder.AbiSig.Group.{Group, group_abi_signature_tree}

-- a name for each argument, `arg1` on
name_all : ℕ → List Text → List Text
name_all i [] = []
name_all i (name ∷ names) =
    (if is_empty name then codes "arg" ++ decimal i else name) ∷ name_all (suc i) names

count_true : List Bool → ℕ
count_true [] = 0
count_true (b ∷ bs) = let rest = count_true bs in if b then suc rest else rest

-- `fmt.Sprintf("%s(%s)", name, args)`
pub called : Text → Text → Text
called name args = name ++ b'(' ∷ args ++ b')' ∷ []

abbrev no_args : Group
no_args = record { text = []; typs = []; indexed = []; names = [] }

-- Keccak256Hash of the bytes, as a string
module _ (hash_of : Text → Text) where
  finish_signature : Text → Text → Group → AbiSignature
  unfolding name_all count_true called
  finish_signature method text g = record {
    name = method;
    signature = called method text;
    hash = hash_of (called method text);
    arg_types = g.typs;
    arg_names = name_all 1 g.names;
    arg_indexed = g.indexed;
    num_indexed = count_true g.indexed;
  }

  grouped : Text → Result Tree → Result AbiSignature
  unfolding finish_signature
  grouped method (ok t) =
      let g = group_abi_signature_tree true t in ok (finish_signature method g.text g)
  grouped method (fails e) = fails e

  parse_method : Text → Option Text → Result AbiSignature
  unfolding grouped
  parse_method method none = fails slice_out_of_range
  parse_method method (some inside) =
      let args = trim_space inside in
      let parsed = grouped method (parse_abi_signature_args (suc (length args)) args) in
      if is_empty args then ok (finish_signature method [] no_args) else parsed

  -- the slices `abiSignature[:a]` and `abiSignature[a+1 : b]`
  parse_parts : Option Text → Option Text → Result AbiSignature
  unfolding parse_method
  parse_parts none inside = fails slice_out_of_range
  parse_parts (some method) inside = parse_method (trim_space method) inside

  parse_between : Text → Option ℕ → Option ℕ → Result AbiSignature
  unfolding parse_parts
  parse_between sig (some a) (some b) = parse_parts (slice 0 a sig) (slice (a + 1) b sig)
  parse_between sig _ _ = fails invalid_format

  unfoldable pub parse_abi_signature : Text → Result AbiSignature
  unfolding parse_between
  parse_abi_signature sig =
      if not (contains b'(' sig) || not (contains b')' sig)
      then fails invalid_format
      else if not (count b'(' sig == count b')' sig) || ltb (count b'(' sig) 1
      then fails invalid_format
      else parse_between sig (index b'(' sig) (last_index b')' sig)

-- one argument of `String`, with a comma unless it is the last
arg_text : Bool → Text → Bool → Text → Text
arg_text is_last typ indexed name =
    typ
    ++ (if indexed then codes " indexed" else [])
    ++ (if is_empty name then [] else b' ' ∷ name)
    ++ (if is_last then [] else b',' ∷ [])

is_nil : List Text → Bool
is_nil [] = true
is_nil (t ∷ ts) = false

-- `none` is an index out of range
args_text : List Text → List Bool → List Text → Option Text
unfolding arg_text is_nil
args_text [] bs ns = some []
args_text (t ∷ ts) (b ∷ bs) (n ∷ ns) =
    args_text ts bs ns >>= (λ rest. some (arg_text (is_nil ts) t b n ++ rest))
args_text (t ∷ ts) _ _ = none

unfoldable pub to_string : AbiSignature → Option Text
unfolding args_text called
to_string e =
    if length e.arg_types == length e.arg_indexed && length e.arg_types == length e.arg_names
    then args_text e.arg_types e.arg_indexed e.arg_names >>= (λ s. some (called e.name s))
    else some (codes "<invalid abi signature definition>")
