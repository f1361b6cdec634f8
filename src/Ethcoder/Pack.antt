-- ===== src/Ethcoder/Pack.antt =====
-- ethcoder/solidity_pack.go: SolidityPack, solidityArgumentPack and PadZeros. PaddedBigBytes of the
-- vendored library is a parameter.
pub mod Data
pub mod Names
pub mod Padding
pub mod Arrays
pub mod Words
use ethkit.Prelude.{
  ℕ, zero, suc, ◌+◌, ◌-◌, ◌/◌, ◌%◌, Bool, true, false, ◌&&◌, ◌||◌, not, Option, none, some, List,
  [], ◌∷◌, ◌++◌, length, get_elem?, ltb, leb, ◌==◌, if◌then◌else◌,
}
use ethkit.Ethcoder.Text.{Text, codes, text_eq, is_empty}
use ethkit.Ethcoder.Bytes.{Bytes}
use Data.*
use Names.{match_number, match_bytes, match_array, parse_int}

-- `make([]byte, n)`
unfoldable pub make_bytes : ℕ → Bytes
make_bytes zero = []
make_bytes (suc n) = 0 ∷ make_bytes n

unfoldable pub set_at : ℕ → ℕ → Bytes → Bytes
set_at i b [] = []
set_at zero b (x ∷ xs) = b ∷ xs
set_at (suc i) b (x ∷ xs) = x ∷ set_at i b xs

-- The loop of `PadZeros`: `j` and `k` are the source's `j` and `i`, plus 1.
unfoldable pub fill : ℕ → ℕ → Bytes → Bytes → Bytes
unfolding set_at
fill zero k array buf = buf
fill (suc j) k array buf = elim (get_elem? array j) [
  | none ↦ buf
  | some b ↦ fill j (k - 1) array (set_at (k - 1) b buf)
]

unfoldable pub pad_zeros : Bytes → ℕ → Result Bytes
unfolding fill make_bytes
pad_zeros array total_length =
    if ltb total_length (length array)
    then fails larger_than_expected
    else ok (fill (length array) total_length array (make_bytes total_length))

pad_if : Bool → Bytes → Result Bytes
unfolding pad_zeros
pad_if is_array b = if is_array then pad_zeros b 32 else ok b

pack_address : Value → Bool → Result Bytes
unfolding pad_if
pack_address (address b) is_array = pad_if is_array b
pack_address _ is_array = fails not_address

-- Encode and Decode of hex give the text's bytes back.
pack_string : Value → Result Bytes
pack_string (string s) = ok s
pack_string _ = fails not_string

pack_bytes : Value → Result Bytes
pack_bytes (bytes b) = ok b
pack_bytes _ = fails not_bytes

pack_bool : Value → Bool → Result Bytes
unfolding pad_if
pack_bool (bool b) is_array = pad_if is_array (if b then 1 ∷ [] else 0 ∷ [])
pack_bool _ is_array = fails not_bool

valid_size : ℕ → Bool
valid_size size = size % 8 == 0 && not (size == 0) && leb size 256

fixed_bytes : ℕ → Bytes → Result Bytes
fixed_bytes size b = if length b == size then ok b else fails wrong_size

-- an array or slice of bytes of that length
pack_fixed : ℕ → Value → Result Bytes
unfolding fixed_bytes
pack_fixed size (address b) = fixed_bytes size b
pack_fixed size (bytes b) = fixed_bytes size b
pack_fixed size (byte_array b) = fixed_bytes size b
pack_fixed size (sequence vs) = fails not_byte_array
pack_fixed size nil_interface = fails nil_dereference
pack_fixed size _ = fails not_array

pack_sized : Option ℕ → Value → Bool → Result Bytes
unfolding pack_fixed
pack_sized none v is_array = fails number_syntax
pack_sized (some size) v is_array =
    if size == 0 || ltb 32 size
    then fails invalid_number_type
    else if is_array
    then fails unsupported
    else pack_fixed size v

unfoldable pub length_values : Values → ℕ
length_values no_values = 0
length_values (values v vs) = suc (length_values vs)

pub append_result : Result Bytes → Result Bytes → Result Bytes
append_result (fails e) r = fails e
append_result (ok b) (fails e) = fails e
append_result (ok b) (ok c) = ok (b ++ c)

-- what `reflect` finds in a value: its length, and how to pack its elements
pub data Elements : Type 0 where
  no_elements is_nil : Elements
  elements : ℕ → (Text → Result Bytes) → Elements

pack_elements : Option ℕ → Text → Elements → Result Bytes
pack_elements none base es = fails number_syntax
pack_elements (some count) base no_elements = fails not_array
pack_elements (some count) base is_nil = fails nil_dereference
pack_elements (some count) base (elements size pack_all) =
    if ltb 0 count && not (size == count) then fails wrong_array_size else pack_all base

pack_array : Option (Text × Text) → Elements → Result Bytes
unfolding pack_elements
pack_array none es = fails unknown_type
pack_array (some (base, count)) es =
    pack_elements (parse_int (if is_empty count then codes "0" else count)) base es

module _ (padded_big_bytes : BigInt → ℕ → Bytes) where
  pack_number : ℕ → Value → Result Bytes
  pack_number size (big_int (some num)) = ok (padded_big_bytes num (size / 8))
  pack_number size (big_int none) = fails nil_dereference
  pack_number size (small_int num) = ok (padded_big_bytes num (size / 8))
  pack_number size _ = fails expecting_number

  pack_numeric : Option ℕ → Value → Bool → Result Bytes
  unfolding valid_size pack_number
  pack_numeric none v is_array = fails number_syntax
  pack_numeric (some size) v is_array =
      if valid_size size
      then pack_number (if is_array then 256 else size) v
      else fails invalid_number_type

  -- the branches that look at the type of the value alone
  pack_simple : Text → Value → Bool → Elements → Result Bytes
  unfolding pack_numeric pack_sized pack_array
  pack_simple typ v is_array es = elim (match_number typ) [
    | some n ↦ pack_numeric (parse_int n) v is_array
    | none ↦ elim (match_bytes typ) [
      | some n ↦ pack_sized (parse_int n) v is_array
      | none ↦ pack_array (match_array typ) es
    ]
  ]

  pub pack_with : Text → Value → Bool → Elements → Result Bytes
  unfolding pack_simple pack_address pack_string pack_bytes pack_bool
  pack_with typ v is_array es =
      if text_eq typ (codes "address")
      then pack_address v is_array
      else if text_eq typ (codes "string")
      then pack_string v
      else if text_eq typ (codes "bytes")
      then pack_bytes v
      else if text_eq typ (codes "bool")
      then pack_bool v is_array
      else pack_simple typ v is_array es

  -- the elements of a byte string are numbers of type uint8
  pub pack_each_byte : Bytes → Text → Result Bytes
  unfolding pack_with append_result
  pack_each_byte [] base = ok []
  pack_each_byte (b ∷ bs) base =
      append_result
        (pack_with base (small_int (record { is_negative = false; abs = b })) true no_elements)
        (pack_each_byte bs base)

  unfoldable mutual
    unfolding pack_with pack_each_byte append_result length_values

    pub solidity_argument_pack : Text → Value → Bool → Result Bytes
    solidity_argument_pack typ (sequence vs) is_array =
        pack_with typ (sequence vs) is_array
          (elements (length_values vs) (λ base. pack_each base vs))
    solidity_argument_pack typ (address b) is_array =
        pack_with typ (address b) is_array (elements (length b) (pack_each_byte b))
    solidity_argument_pack typ (bytes b) is_array =
        pack_with typ (bytes b) is_array (elements (length b) (pack_each_byte b))
    solidity_argument_pack typ (byte_array b) is_array =
        pack_with typ (byte_array b) is_array (elements (length b) (pack_each_byte b))
    solidity_argument_pack typ nil_interface is_array = pack_with typ nil_interface is_array is_nil
    solidity_argument_pack typ v is_array = pack_with typ v is_array no_elements

    pub pack_each : Text → Values → Result Bytes
    pack_each base no_values = ok []
    pack_each base (values v vs) =
        append_result (solidity_argument_pack base v true) (pack_each base vs)

  pack_pairs : List Text → List Value → Result Bytes
  unfolding solidity_argument_pack append_result
  pack_pairs [] vs = ok []
  pack_pairs (t ∷ ts) [] = ok []
  pack_pairs (t ∷ ts) (v ∷ vs) = append_result (solidity_argument_pack t v false) (pack_pairs ts vs)

  unfoldable pub solidity_pack : List Text → List Value → Result Bytes
  unfolding pack_pairs
  solidity_pack arg_types arg_values =
      if length arg_types == length arg_values
      then pack_pairs arg_types arg_values
      else fails invalid_arguments
