-- ===== src/Ethcoder/Pack/Arrays.antt =====
-- The elements of an array of addresses, truth values or numbers take up 32 bytes each.
use ethkit.Prelude.{
  ℕ, ◌*◌, ◌^◌, ◌<◌, ◌≡◌, ◌⊎◌, inl, inr, refl, ◌∙◌, Bool, false, Option, none, some, [], ◌∷◌, ◌++◌,
  length, length-append, All, sym, if◌then◌else◌, arith,
}
use ethkit.Ethcoder.Text.{Text, codes, text_eq, contains, is_empty}
use ethkit.Ethcoder.Bytes.{Bytes}
use ethkit.Ethcoder.Pack.Data.{
  BigInt, Value, address, bytes, byte_array, string, bool, big_int, small_int, sequence, other,
  nil_interface, Values, no_values, values, Result, ok, fails,
}
use ethkit.Ethcoder.Pack.Names.{match_array, parse_int}
use ethkit.Ethcoder.Pack.Names.Brackets.{
  match_array-match_number, match_array-match_bytes, match_array-text_eq,
}
use ethkit.Ethcoder.Pack.Words.{IsWord, AllFit, length-pack_with, length-solidity_argument_pack}
use ethkit.Ethcoder.Pack.{
  length_values, append_result, Elements, elements, no_elements, is_nil, pack_each_byte,
  pack_simple, pack_with, pack_elements, pack_array, solidity_argument_pack, pack_each,
}

-- The elements of an array or a slice.
abbrev pub ElementsFit : Value → Type 0
ElementsFit (sequence vs) = AllFit vs
ElementsFit (address b) = All (λ x. x < 256) b
ElementsFit (bytes b) = All (λ x. x < 256) b
ElementsFit (byte_array b) = All (λ x. x < 256) b
ElementsFit _ = Unit

unfoldable pub count_elements : Value → ℕ
unfolding length_values
count_elements (sequence vs) = length_values vs
count_elements (address b) = length b
count_elements (bytes b) = length b
count_elements (byte_array b) = length b
count_elements _ = 0

append_result-ok :
    (x y : Result Bytes) (out : Bytes)
    → append_result x y ≡ ok out
    → (a : Bytes) × (b : Bytes) × (x ≡ ok a) × (y ≡ ok b) × (out ≡ a ++ b)
unfolding append_result
append_result-ok (fails e) y out h = cc
append_result-ok (ok a) (fails e) out h = cc
append_result-ok (ok a) (ok b) out h = (a, b, refl, refl, cc)

-- What is packed of an array is what its elements give.
pack_elements-ok :
    (count : Option ℕ) (base : Text) (size : ℕ) (f : Text → Result Bytes) (out : Bytes)
    → pack_elements count base (elements size f) ≡ ok out
    → f base ≡ ok out
unfolding pack_elements
pack_elements-ok none base size f out h = cc
pack_elements-ok (some n) base size f out h = ground (arith, h)

pack_elements-fails :
    (count : Option ℕ) (base : Text) (es : Elements) (out : Bytes)
    → (es ≡ no_elements) ⊎ (es ≡ is_nil)
    → pack_elements count base es ≡ ok out
    → ⊥
unfolding pack_elements
pack_elements-fails none base es out o h = cc
pack_elements-fails (some n) base no_elements out o h = cc
pack_elements-fails (some n) base is_nil out o h = cc
pack_elements-fails (some n) base (elements size f) out (inl e) h = cc
pack_elements-fails (some n) base (elements size f) out (inr e) h = cc

module _ (padded : BigInt → ℕ → Bytes)
    (law : (num : BigInt) (n : ℕ) → num.abs < 256 ^ n → length (padded num n) ≡ n) where
  length-pack_each :
      (base : Text) (vs : Values) (out : Bytes)
      → IsWord base
      → AllFit vs
      → pack_each padded base vs ≡ ok out
      → length out ≡ 32 * length_values vs
  unfolding solidity_argument_pack append_result length_values
  length-pack_each base no_values out w f h = let e : [] ≡ out = cc in rw (← e) refl
  length-pack_each base (values v vs) out w (f, g) h =
      let (a, b, p, q, both) = append_result-ok _ _ out h in
      let first = length-solidity_argument_pack padded law base v a w f p in
      let rest = length-pack_each base vs b w g q in rw both (length-append a b ∙ omega arith)

  length-pack_each_byte :
      (base : Text) (bs out : Bytes)
      → IsWord base
      → All (λ b. b < 256) bs
      → pack_each_byte padded bs base ≡ ok out
      → length out ≡ 32 * length bs
  unfolding pack_each_byte append_result
  length-pack_each_byte base [] out w f h = let e : [] ≡ out = cc in rw (← e) refl
  length-pack_each_byte base (x ∷ bs) out w (f, g) h =
      let (a, b, p, q, both) = append_result-ok _ _ out h in
      let number : BigInt = record { is_negative = false; abs = x } in
      let first =
        length-pack_with padded law base (small_int number) no_elements a w (omega arith) p in
      let rest = length-pack_each_byte base bs b w g q in rw both (length-append a b ∙ omega arith)

  module _ (typ base count : Text) (m : match_array typ ≡ some (base, count)) where
    abbrev size_of : Option ℕ
    size_of = parse_int (if is_empty count then codes "0" else count)

    -- With the name of a type of arrays only the branch of arrays is left.
    array_branch :
        (v : Value) (is_array : Bool) (es : Elements)
        → pack_with padded typ v is_array es ≡ pack_elements size_of base es
    unfolding pack_with pack_simple pack_array contains
    array_branch v is_array es =
        rw
          (
            not_named (codes "address") refl,
            not_named (codes "string") refl,
            not_named (codes "bytes") refl,
            not_named (codes "bool") refl,
            pack_simple,
            match_array-match_number typ (base, count) m,
            match_array-match_bytes typ (base, count) m,
            m,
          )
          refl
      where
        not_named : (t : Text) → contains 93 t ≡ false → text_eq typ t ≡ false
        not_named t n = match_array-text_eq typ t (base, count) m n

    from_elements :
        (v : Value) (is_array : Bool) (size : ℕ) (f : Text → Result Bytes) (out : Bytes)
        → pack_with padded typ v is_array (elements size f) ≡ ok out
        → f base ≡ ok out
    from_elements v is_array size f out h =
        pack_elements-ok size_of base size f out
          (sym (array_branch v is_array (elements size f)) ∙ h)

    no_array :
        (v : Value) (is_array : Bool) (es : Elements) (out : Bytes)
        → (es ≡ no_elements) ⊎ (es ≡ is_nil)
        → pack_with padded typ v is_array es ≡ ok out
        → ⊥
    no_array v is_array es out o h =
        pack_elements-fails size_of base es out o (sym (array_branch v is_array es) ∙ h)

  -- Where an array or a slice is packed whose type is that of arrays of addresses, truth values or
  -- numbers, and whose numbers are below 2 ^ 256, it takes up 32 bytes for each of its elements: an
  -- array of bytes is one of numbers then, and an array inside another is packed like one outside.
  -- It is assumed that PaddedBigBytes encodes a number that is small enough in as many bytes as it
  -- is asked for.
  pub length-solidity_argument_pack-array :
      (typ base count : Text) (v : Value) (is_array : Bool) (out : Bytes)
      → match_array typ ≡ some (base, count)
      → IsWord base
      → ElementsFit v
      → solidity_argument_pack padded typ v is_array ≡ ok out
      → length out ≡ 32 * count_elements v
  unfolding solidity_argument_pack count_elements
  length-solidity_argument_pack-array typ base count (sequence vs) is_array out m w f h =
      length-pack_each base vs out w f (
        from_elements typ base count m (sequence vs) is_array (length_values vs)
          (λ b. pack_each padded b vs) out h)
  length-solidity_argument_pack-array typ base count (address b) is_array out m w f h =
      length-pack_each_byte base b out w f (
        from_elements typ base count m (address b) is_array (length b) (pack_each_byte padded b) out
          h)
  length-solidity_argument_pack-array typ base count (bytes b) is_array out m w f h =
      length-pack_each_byte base b out w f (
        from_elements typ base count m (bytes b) is_array (length b) (pack_each_byte padded b) out
          h)
  length-solidity_argument_pack-array typ base count (byte_array b) is_array out m w f h =
      length-pack_each_byte base b out w f (
        from_elements typ base count m (byte_array b) is_array (length b) (pack_each_byte padded b)
          out h)
  length-solidity_argument_pack-array typ base count (string s) is_array out m w f h =
      absurd (no_array typ base count m (string s) is_array no_elements out (inl refl) h)
  length-solidity_argument_pack-array typ base count (bool b) is_array out m w f h =
      absurd (no_array typ base count m (bool b) is_array no_elements out (inl refl) h)
  length-solidity_argument_pack-array typ base count (big_int n) is_array out m w f h =
      absurd (no_array typ base count m (big_int n) is_array no_elements out (inl refl) h)
  length-solidity_argument_pack-array typ base count (small_int n) is_array out m w f h =
      absurd (no_array typ base count m (small_int n) is_array no_elements out (inl refl) h)
  length-solidity_argument_pack-array typ base count other is_array out m w f h =
      absurd (no_array typ base count m other is_array no_elements out (inl refl) h)
  length-solidity_argument_pack-array typ base count nil_interface is_array out m w f h =
      absurd (no_array typ base count m nil_interface is_array is_nil out (inr refl) h)
