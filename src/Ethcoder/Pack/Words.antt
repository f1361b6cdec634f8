-- ===== src/Ethcoder/Pack/Words.antt =====
-- An element of an array of addresses, truth values or numbers takes up 32 bytes.
use ethkit.Prelude.{
  ℕ, ◌^◌, ◌<◌, ◌≡◌, ◌⊎◌, inl, inr, refl, subst, true, false, Option, none, some, [], ◌∷◌, length,
  Bool-cases, if◌then◌else◌, arith,
}
use ethkit.Ethcoder.Text.{Text, codes, text_eq}
use ethkit.Ethcoder.Bytes.{Bytes}
use ethkit.Ethcoder.Pack.Data.{
  BigInt, Value, address, bytes, byte_array, string, bool, big_int, small_int, sequence, other,
  nil_interface, Values, no_values, values, ok,
}
use ethkit.Ethcoder.Pack.Names.{match_number, parse_int}
use ethkit.Ethcoder.Pack.Padding.{length-pad_zeros}
use ethkit.Ethcoder.Pack.{
  pad_if, pack_address, pack_bool, valid_size, Elements, pack_bool, pack_number, pack_numeric,
  pack_simple, pack_with, solidity_argument_pack,
}

-- The names of the types whose values are padded in arrays.
abbrev pub IsWord : Text → Type 0
IsWord typ =
    (text_eq typ (codes "address") ≡ true)
    ⊎ (text_eq typ (codes "bool") ≡ true)
    ⊎ ((n : Text) × (match_number typ ≡ some n))

text_eq-eq : (s t : Text) → text_eq s t ≡ true → s ≡ t
unfolding text_eq
text_eq-eq [] [] h = refl
text_eq-eq [] (d ∷ ds) h = cc
text_eq-eq (c ∷ cs) [] h = cc
text_eq-eq (c ∷ cs) (d ∷ ds) h = ground (arith, text_eq-eq cs ds)

string-no-word : IsWord (codes "string") → ⊥
unfolding text_eq match_number
string-no-word (inl e) = cc
string-no-word (inr (inl e)) = cc
string-no-word (inr (inr (n, e))) = cc

bytes-no-word : IsWord (codes "bytes") → ⊥
unfolding text_eq match_number
bytes-no-word (inl e) = cc
bytes-no-word (inr (inl e)) = cc
bytes-no-word (inr (inr (n, e))) = cc

-- A name of a word is not that of another type.
not-word : (s t : Text) → (IsWord t → ⊥) → IsWord s → text_eq s t ≡ false
not-word s t never w = elim (Bool-cases (text_eq s t)) [
  | inl u ↦ absurd (never (subst IsWord (text_eq-eq s t u) w))
  | inr u ↦ u
]

-- Numbers are below 2 ^ 256.
abbrev pub Fits : Value → Type 0
Fits (big_int (some n)) = n.abs < 256 ^ 32
Fits (small_int n) = n.abs < 256 ^ 32
Fits _ = Unit

abbrev pub AllFit : Values → Type 0
AllFit no_values = Unit
AllFit (values v vs) = Fits v × AllFit vs

length-pack_address : (v : Value) (out : Bytes) → pack_address v true ≡ ok out → length out ≡ 32
unfolding pack_address pad_if
length-pack_address (address b) out h = length-pad_zeros b out 32 h
length-pack_address (bytes b) out h = cc
length-pack_address (byte_array b) out h = cc
length-pack_address (string b) out h = cc
length-pack_address (bool b) out h = cc
length-pack_address (big_int b) out h = cc
length-pack_address (small_int b) out h = cc
length-pack_address (sequence b) out h = cc
length-pack_address other out h = cc
length-pack_address nil_interface out h = cc

length-pack_bool : (v : Value) (out : Bytes) → pack_bool v true ≡ ok out → length out ≡ 32
unfolding pack_bool pad_if
length-pack_bool (bool b) out h = length-pad_zeros (if b then 1 ∷ [] else 0 ∷ []) out 32 h
length-pack_bool (bytes b) out h = cc
length-pack_bool (byte_array b) out h = cc
length-pack_bool (string b) out h = cc
length-pack_bool (address b) out h = cc
length-pack_bool (big_int b) out h = cc
length-pack_bool (small_int b) out h = cc
length-pack_bool (sequence b) out h = cc
length-pack_bool other out h = cc
length-pack_bool nil_interface out h = cc

module _ (padded : BigInt → ℕ → Bytes)
    (law : (num : BigInt) (n : ℕ) → num.abs < 256 ^ n → length (padded num n) ≡ n) where
  length-pack_number :
      (v : Value) (out : Bytes) → Fits v → pack_number padded 256 v ≡ ok out → length out ≡ 32
  unfolding pack_number
  length-pack_number (big_int (some n)) out f h =
      let e : padded n 32 ≡ out = cc in rw (← e) (law n 32 f)
  length-pack_number (small_int n) out f h = let e : padded n 32 ≡ out = cc in rw (← e) (law n 32 f)
  length-pack_number (big_int none) out f h = cc
  length-pack_number (bytes b) out f h = cc
  length-pack_number (byte_array b) out f h = cc
  length-pack_number (string b) out f h = cc
  length-pack_number (address b) out f h = cc
  length-pack_number (bool b) out f h = cc
  length-pack_number (sequence b) out f h = cc
  length-pack_number other out f h = cc
  length-pack_number nil_interface out f h = cc

  length-pack_numeric :
      (size : Option ℕ) (v : Value) (out : Bytes)
      → Fits v
      → pack_numeric padded size v true ≡ ok out
      → length out ≡ 32
  unfolding pack_numeric
  length-pack_numeric none v out f h = cc
  length-pack_numeric (some size) v out f h = elim (Bool-cases (valid_size size)) [
    | inl u ↦ length-pack_number v out f (rw u at h)
    | inr u ↦ cc (rw u at h)
  ]

  length-pack_simple :
      (base n : Text) (v : Value) (es : Elements) (out : Bytes)
      → match_number base ≡ some n
      → Fits v
      → pack_simple padded base v true es ≡ ok out
      → length out ≡ 32
  unfolding pack_simple
  length-pack_simple base n v es out m f h =
      length-pack_numeric (parse_int n) v out f (rw (pack_simple, m) at h)

  pub length-pack_with :
      (base : Text) (v : Value) (es : Elements) (out : Bytes)
      → IsWord base
      → Fits v
      → pack_with padded base v true es ≡ ok out
      → length out ≡ 32
  unfolding pack_with
  length-pack_with base v es out w f h = elim (Bool-cases (text_eq base (codes "address"))) [
    | inl u ↦ length-pack_address v out (rw u at h)
    | inr u ↦ elim (Bool-cases (text_eq base (codes "bool"))) [
      | inl t ↦ length-pack_bool v out (rw (u, no_string, no_bytes, t) at h)
      | inr t ↦ numeric u t w
    ]
  ]
    where
      no_string : text_eq base (codes "string") ≡ false
      no_string = not-word base (codes "string") string-no-word w

      no_bytes : text_eq base (codes "bytes") ≡ false
      no_bytes = not-word base (codes "bytes") bytes-no-word w

      numeric :
          text_eq base (codes "address") ≡ false
          → text_eq base (codes "bool") ≡ false
          → IsWord base
          → length out ≡ 32
      numeric u t (inl e) = cc
      numeric u t (inr (inl e)) = cc
      numeric u t (inr (inr (n, e))) =
          length-pack_simple base n v es out e f (rw (u, no_string, no_bytes, t) at h)

  pub length-solidity_argument_pack :
      (base : Text) (v : Value) (out : Bytes)
      → IsWord base
      → Fits v
      → solidity_argument_pack padded base v true ≡ ok out
      → length out ≡ 32
  unfolding solidity_argument_pack
  length-solidity_argument_pack base (address b) out w f h =
      length-pack_with base (address b) _ out w f h
  length-solidity_argument_pack base (bytes b) out w f h =
      length-pack_with base (bytes b) _ out w f h
  length-solidity_argument_pack base (byte_array b) out w f h =
      length-pack_with base (byte_array b) _ out w f h
  length-solidity_argument_pack base (string b) out w f h =
      length-pack_with base (string b) _ out w f h
  length-solidity_argument_pack base (bool b) out w f h = length-pack_with base (bool b) _ out w f h
  length-solidity_argument_pack base (big_int (some b)) out w f h =
      length-pack_with base (big_int (some b)) _ out w f h
  length-solidity_argument_pack base (big_int none) out w f h =
      length-pack_with base (big_int none) _ out w f h
  length-solidity_argument_pack base (small_int b) out w f h =
      length-pack_with base (small_int b) _ out w f h
  length-solidity_argument_pack base (sequence b) out w f h =
      length-pack_with base (sequence b) _ out w f h
  length-solidity_argument_pack base other out w f h = length-pack_with base other _ out w f h
  length-solidity_argument_pack base nil_interface out w f h =
      length-pack_with base nil_interface _ out w f h
