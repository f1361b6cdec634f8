-- ===== src/Ethcoder/Tests/PackTests.antt =====
-- An array of two numbers.
use ethkit.Prelude.{
  ℕ, zero, suc, ◌*◌, ◌/◌, ◌%◌, ◌≤◌, ◌<◌, ◌≡◌, inr, refl, false, some, [], ◌∷◌, ◌++◌, length,
  length-append, ◌-◌, arith,
}
use ethkit.Ethcoder.Text.{codes, text_eq, last_index, contains}
use ethkit.Ethcoder.Bytes.{Bytes}
use ethkit.Ethcoder.Pack.Data.{
  BigInt, big_int, small_int, bytes, sequence, Values, no_values, values, ok, fails,
  larger_than_expected, wrong_array_size,
}
use ethkit.Ethcoder.Pack.Names.{match_number, match_bytes, match_array, parse_int}
use ethkit.Ethcoder.Pack.{make_bytes, pad_zeros, solidity_argument_pack, solidity_pack}
use ethkit.Ethcoder.Pack.Padding.{pad_zeros_lem}
use ethkit.Ethcoder.Pack.Arrays.{count_elements, length-solidity_argument_pack-array}

abbrev big_endian : ℕ → ℕ → Bytes
big_endian zero x = []
big_endian (suc n) x = big_endian n (x / 256) ++ x % 256 ∷ []

abbrev padded : BigInt → ℕ → Bytes
padded num n = big_endian n num.abs

length-big_endian : (n x : ℕ) → length (big_endian n x) ≡ n
length-big_endian zero x = refl
length-big_endian (suc n) x =
    omega
      (arith, length-append (big_endian n (x / 256)) (x % 256 ∷ []), length-big_endian n (x / 256))

abbrev two : Values
two =
    values (small_int (record { is_negative = false; abs = 5 }))
      (values (big_int (some (record { is_negative = false; abs = 600 }))) no_values)

abbrev words : Bytes
words = make_bytes 31 ++ 5 ∷ (make_bytes 30 ++ 2 ∷ 88 ∷ [])

two-packed : solidity_argument_pack padded (codes "uint16[2]") (sequence two) false ≡ ok words
unfolding solidity_argument_pack match_number match_array make_bytes text_eq match_bytes last_index
    contains parse_int
two-packed = refl

three-refused :
    solidity_pack padded (codes "uint16[3]" ∷ []) (sequence two ∷ []) ≡ fails wrong_array_size
unfolding solidity_pack text_eq match_number match_bytes match_array last_index contains parse_int
three-refused = refl

abbrev byte_words : Bytes
byte_words = make_bytes 31 ++ 5 ∷ (make_bytes 31 ++ 88 ∷ [])

-- A slice of bytes is an array of numbers.
bytes-packed :
    solidity_argument_pack padded (codes "uint8[]") (bytes (5 ∷ 88 ∷ [])) false ≡ ok byte_words
unfolding solidity_argument_pack match_number match_array make_bytes text_eq match_bytes last_index
    contains parse_int
bytes-packed = refl

length-solidity_argument_pack-array_example : length byte_words ≡ 32 * 2
unfolding match_array match_number last_index contains count_elements
length-solidity_argument_pack-array_example =
    length-solidity_argument_pack-array padded (λ num n h. length-big_endian n num.abs)
      (codes "uint8[]") (codes "uint8") [] (bytes (5 ∷ 88 ∷ [])) false byte_words refl
      (inr (inr (codes "8", refl))) (omega arith, (omega arith, tt)) bytes-packed

pad_zeros_example :
    (2 ≤ 4 → pad_zeros (7 ∷ 8 ∷ []) 4 ≡ ok (make_bytes (4 - 2) ++ 7 ∷ 8 ∷ []))
    × (4 < 2 → pad_zeros (7 ∷ 8 ∷ []) 4 ≡ fails larger_than_expected)
pad_zeros_example = pad_zeros_lem (7 ∷ 8 ∷ []) 4
