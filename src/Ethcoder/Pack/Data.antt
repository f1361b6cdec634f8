-- ===== src/Ethcoder/Pack/Data.antt =====
-- ethcoder/solidity_pack.go: the values that are packed, as far as their types are told apart, and the
-- errors. A panic is an error of its own.
use ethkit.Prelude.{ℕ, Bool, Option}
use ethkit.Ethcoder.Text.{Text}
use ethkit.Ethcoder.Bytes.{Bytes}

pub record BigInt : Type 0 where
  pub is_negative : Bool
  pub abs : ℕ

-- `small_int` is a number of one of the eight types from uint8 to int64; `byte_array` an array of
-- bytes that is no address; `sequence` an array or slice whose elements are not bytes; `other` a
-- value of any other kind, and `nil_interface` the nil interface. A pointer to a number may be nil.
mutual
  pub data Value : Type 0 where
    address bytes byte_array : Bytes → Value
    string : Text → Value
    bool : Bool → Value
    big_int : Option BigInt → Value
    small_int : BigInt → Value
    sequence : Values → Value
    other nil_interface : Value

  pub data Values : Type 0 where
    no_values : Values
    values : Value → Values → Values

pub data Err : Type 0 where
  invalid_arguments not_address not_string not_bytes not_bool : Err
  number_syntax invalid_number_type expecting_number unsupported : Err
  not_array not_byte_array wrong_size wrong_array_size unknown_type larger_than_expected : Err
  nil_dereference : Err

pub data Result {ℓ} (A : Type ℓ) : Type ℓ where
  ok : A → Result A
  fails : Err → Result A
