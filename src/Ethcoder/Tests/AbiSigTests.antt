-- ===== src/Ethcoder/Tests/AbiSigTests.antt =====
-- Signatures of events.
use ethkit.Prelude.{ℕ, ◌≡◌, ◌<◌, ◌↔◌, refl, true, false, some, [], ◌∷◌, ◌++◌, length, arith}
use ethkit.Ethcoder.Text.{
  Text, codes, text_eq, trim_left, trim_right, trim_space, index, last_index, contains, count,
  split, slice, decimal,
}
use ethkit.Ethcoder.AbiSig.Tree.{AbiSignature, ok, fails, slice_out_of_range}
use ethkit.Ethcoder.AbiSig.Left.{is_indexed, parse_left}
use ethkit.Ethcoder.AbiSig.Tuple.{parse_tuple}
use ethkit.Ethcoder.AbiSig.Parens.{find_parens_close_index}
use ethkit.Ethcoder.AbiSig.Args.{parse_abi_signature_args}
use ethkit.Ethcoder.AbiSig.Group.{group_abi_signature_tree}
use ethkit.Ethcoder.AbiSig.Signature.{parse_abi_signature, to_string}
use ethkit.Ethcoder.AbiSig.Parens.Balance.{Balanced, blank, plain, nested}
use ethkit.Ethcoder.AbiSig.Left.Words.{IsOrderly}
use ethkit.Ethcoder.AbiSig.Left.Arguments.{Argument, IsArgument}
use ethkit.Ethcoder.AbiSig.Args.Ends.{parse_abi_signature_args-IsOrderly}
use ethkit.Ethcoder.AbiSig.Signature.Agreement.{Agrees, parse_abi_signature-Agrees}
use ethkit.Ethcoder.AbiSig.Signature.Panics.{parse_abi_signature-IsOrderly}
use ethkit.Ethcoder.AbiSig.Signature.Written.{signature_of}
use ethkit.Ethcoder.AbiSig.Signature.RoundTrip.{parse_abi_signature-to_string}

abbrev no_hash : Text → Text
no_hash t = []

abbrev sent : AbiSignature
sent = record {
  name = codes "Sent";
  signature = codes "Sent(address,(uint256,(bytes)[])[2],bytes)";
  hash = [];
  arg_types = codes "address" ∷ codes "(uint256,(bytes)[])[2]" ∷ codes "bytes" ∷ [];
  arg_names = codes "from" ∷ codes "v" ∷ codes "arg3" ∷ [];
  arg_indexed = true ∷ true ∷ false ∷ [];
  num_indexed = 2;
}

sent_tuple :
    parse_abi_signature no_hash
      (codes "Sent (address indexed from, (uint256 a, (bytes b)[] c)[2] indexed v,bytes)")
    ≡ ok sent
unfolding parse_abi_signature group_abi_signature_tree parse_abi_signature_args
    find_parens_close_index parse_tuple parse_left is_indexed text_eq trim_left trim_right
    trim_space index last_index contains count split slice decimal
sent_tuple = refl

-- The parentheses the wrong way round.
turned : parse_abi_signature no_hash (codes ")(") ≡ fails slice_out_of_range
unfolding parse_abi_signature trim_space index last_index contains count slice
turned = refl

closed :
    (inside : Text) × (rest : Text) × Balanced inside
    × (codes "a(b))c" ≡ inside ++ b')' ∷ rest)
    × ◌≡◌ {A = ℕ} 4 (length inside)
closed = (
  codes "a(b)",
  codes "c",
  plain (omega arith) (omega arith) (nested (plain (omega arith) (omega arith) blank) blank refl),
  refl,
  refl,
)

parse_abi_signature_args-IsOrderly_example :
    IsOrderly (parse_abi_signature_args 40 (codes "address,(uint256,bool)[2] pair,bool"))
parse_abi_signature_args-IsOrderly_example =
    parse_abi_signature_args-IsOrderly 40 (codes "address,(uint256,bool)[2] pair,bool")
      (omega arith)

parse_abi_signature-IsOrderly_example : IsOrderly (parse_abi_signature no_hash (codes ")(")) ↔ (
    (a b : ℕ)
    → count b'(' (codes ")(") ≡ count b')' (codes ")(")
    → index b'(' (codes ")(") ≡ some a
    → last_index b')' (codes ")(") ≡ some b
    → a < b)
parse_abi_signature-IsOrderly_example = parse_abi_signature-IsOrderly no_hash (codes ")(")

parse_abi_signature-Agrees_example : Agrees sent
parse_abi_signature-Agrees_example = parse_abi_signature-Agrees no_hash _ sent sent_tuple

abbrev from_argument : Argument
from_argument = record { typ = codes "address"; indexed = true; name = codes "from" }

abbrev value_argument : Argument
value_argument = record { typ = codes "uint256[2]"; indexed = false; name = codes "value" }

from-IsArgument : IsArgument from_argument
unfolding is_indexed text_eq
from-IsArgument = record {
  typ_word = ground arith;
  name_word = ground arith;
  name_clear = λ e. refl;
}

value-IsArgument : IsArgument value_argument
unfolding is_indexed text_eq
value-IsArgument = record {
  typ_word = ground arith;
  name_word = ground arith;
  name_clear = λ e. refl;
}

parse_abi_signature-to_string_example :
    let s = signature_of no_hash (codes "Transfer") (from_argument ∷ value_argument ∷ []) in
    (text : Text) × (to_string s ≡ some text) × (parse_abi_signature no_hash text ≡ ok s)
parse_abi_signature-to_string_example =
    parse_abi_signature-to_string no_hash (codes "Transfer") (from_argument ∷ value_argument ∷ [])
      (ground arith) (from-IsArgument, (value-IsArgument, tt))
