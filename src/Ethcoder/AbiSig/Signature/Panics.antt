-- ===== src/Ethcoder/AbiSig/Signature/Panics.antt =====
-- Where `ParseABISignature` panics.
use ethkit.Prelude.{
  ℕ, ◌+◌, ◌<◌, ◌≤◌, ◌≡◌, ◌↔◌, refl, false, ◌||◌, not, Option, none, some, take, length, arith, ltb,
  ◌==◌, Bool-cases, inl, inr,
}
use ethkit.Ethcoder.Text.{Text, is_empty, trim_space, index, last_index, contains, count}
use ethkit.Ethcoder.Text.Splitting.{
  last_index-lt, index-contains, contains-last_index, slice_lem, slice-none, slice-front,
}
use ethkit.Ethcoder.Text.Trimming.{index-some}
use ethkit.Ethcoder.AbiSig.Tree.{Result, ok, fails, Tree}
use ethkit.Ethcoder.AbiSig.Left.Words.{IsOrderly}
use ethkit.Ethcoder.AbiSig.Args.Ends.{parse_abi_signature_args-IsOrderly}
use ethkit.Ethcoder.AbiSig.Signature.{
  grouped, parse_method, parse_parts, parse_between, parse_abi_signature,
}

module _ (hash_of : Text → Text) where
  grouped-IsOrderly :
      (method : Text) (r : Result Tree) → IsOrderly r → IsOrderly (grouped hash_of method r)
  unfolding grouped
  grouped-IsOrderly method (ok t) h = tt
  grouped-IsOrderly method (fails e) h = h

  parse_method-IsOrderly :
      (method inside : Text) → IsOrderly (parse_method hash_of method (some inside))
  unfolding parse_method
  parse_method-IsOrderly method inside = elim (Bool-cases (is_empty (trim_space inside))) [
    | inl t ↦ rw t tt
    | inr t ↦ rw t (
        grouped-IsOrderly method _
          (parse_abi_signature_args-IsOrderly _ (trim_space inside) (omega arith)))
  ]

  parse_between-IsOrderly :
      (sig : Text) (x y : Option ℕ)
      → last_index b')' sig ≡ y
      → ((a b : ℕ) → x ≡ some a → y ≡ some b → a < b)
      → IsOrderly (parse_between hash_of sig x y)
  unfolding parse_between parse_parts
  parse_between-IsOrderly sig none y e h = tt
  parse_between-IsOrderly sig (some a) none e h = tt
  parse_between-IsOrderly sig (some a) (some b) e h =
      let in_range =
        slice_lem (a + 1) b sig (omega (arith, h a b refl refl))
          (omega (arith, last_index-lt b')' b sig e)) in
      rw
        (in_range.0, slice-front a sig (omega (arith, h a b refl refl, last_index-lt b')' b sig e)))
        (parse_method-IsOrderly (trim_space (take a sig)) _)

  parse_between-panics :
      (sig : Text) (a b : ℕ)
      → a ≤ length sig
      → IsOrderly (parse_between hash_of sig (some a) (some b))
      → a < b
  unfolding parse_between parse_parts parse_method
  parse_between-panics sig a b within h = elim (Bool-cases (ltb a b)) [
    | inl t ↦ ground arith
    | inr t ↦ absurd (rw (slice-front a sig within, slice-none (a + 1) b sig (ground arith)) at h)
  ]

  -- The call ends with a signature or one of the source's errors, unless a text with as many opening
  -- as closing parentheses has its first opening one behind its last closing one: there, and only
  -- there, a slice is out of range.
  pub parse_abi_signature-IsOrderly :
      (sig : Text)
      → IsOrderly (parse_abi_signature hash_of sig) ↔ (
          (a b : ℕ)
          → count b'(' sig ≡ count b')' sig
          → index b'(' sig ≡ some a
          → last_index b')' sig ≡ some b
          → a < b)
  unfolding parse_abi_signature
  parse_abi_signature-IsOrderly sig = (
    λ h a b even opens closes.
        let (opened, some_open) = index-contains b'(' a sig opens in
        let closed = contains-last_index b')' b sig closes in
        let guard : (not (count b'(' sig == count b')' sig) || ltb (count b'(' sig) 1) ≡ false =
          ground arith in
        parse_between-panics sig a b (omega (arith, (index-some b'(' a sig opens).2))
          (rw (opened, closed, guard, opens, closes) at h),
    λ h. elim (Bool-cases (not (contains b'(' sig) || not (contains b')' sig))) [
      | inl t ↦ rw t tt
      | inr t ↦
          elim (Bool-cases (not (count b'(' sig == count b')' sig) || ltb (count b'(' sig) 1)) [
            | inl u ↦ rw (t, u) tt
            | inr u ↦
                let even : count b'(' sig ≡ count b')' sig = ground arith in
                rw (t, u)
                  (parse_between-IsOrderly sig (index b'(' sig) (last_index b')' sig) refl
                    (λ a b. h a b even))
          ]
    ],
  )
