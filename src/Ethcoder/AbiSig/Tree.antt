-- ===== src/Ethcoder/AbiSig/Tree.antt =====
-- ethcoder/abi_sig.go and ethcoder/abi_sig_parser.go: the errors, `ABISignature` and
-- `abiSignatureTree`, whose tuple and right part are lists of trees. Panics are errors of their own.
use ethkit.Prelude.{ℕ, Bool, List}
use ethkit.Ethcoder.Text.{Text}

pub data Err : Type 0 where
  invalid_format no_closing_parenthesis : Err
  invalid_argument invalid_indexed_argument : Err
  slice_out_of_range out_of_fuel : Err

pub data Result {ℓ} (A : Type ℓ) : Type ℓ where
  ok : A → Result A
  fails : Err → Result A

pub record AbiSignature : Type 0 where
  pub name : Text
  pub signature : Text
  pub hash : Text
  pub arg_types : List Text
  pub arg_names : List Text
  pub arg_indexed : List Bool
  pub num_indexed : ℕ

mutual
  pub data Tree : Type 0 where
    node :
        (left : Text) (indexed : List Bool) (names : List Text)
        → Trees
        → (tuple_array : Text) (tuple_indexed : Bool) (tuple_name : Text) → Trees
        → Tree

  pub data Trees : Type 0 where
    nil : Trees
    cons : Tree → Trees → Trees
