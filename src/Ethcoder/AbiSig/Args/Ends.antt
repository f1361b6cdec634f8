-- ===== src/Ethcoder/AbiSig/Args/Ends.antt =====
-- How `parseABISignatureArgs` ends.
use ethkit.Prelude.{
  ℕ, zero, suc, ◌+◌, ◌-◌, ◌≤◌, ◌<◌, ◌≡◌, refl, sym, ap, ◌∙◌, Option, none, some, [], ◌∷◌, ◌++◌,
  take, drop, length, length-append, length-drop, get_last?, arith, Bool-cases, inl, inr,
}
use ethkit.Ethcoder.Text.{Text, is_empty, is_space, trim_right, trim_space, index, slice}
use ethkit.Ethcoder.Text.Trimming.{
  length-trim_right, length-trim_space, trim_space-cons, contains-trim_right, contains-middle,
  index-some,
}
use ethkit.Ethcoder.Text.Splitting.{length-take-le, slice_lem, slice-front, slice-back}
use ethkit.Ethcoder.AbiSig.Tree.{Result, ok, fails, Tree, Trees}
use ethkit.Ethcoder.AbiSig.Parens.{find_parens_close_index}
use ethkit.Ethcoder.AbiSig.Parens.Balance.{find_parens_close_index-some}
use ethkit.Ethcoder.AbiSig.Left.{Left, parse_left}
use ethkit.Ethcoder.AbiSig.Left.Words.{IsOrderly, parse_left-IsOrderly}
use ethkit.Ethcoder.AbiSig.Tuple.{Tuple, parse_tuple}
use ethkit.Ethcoder.AbiSig.Tuple.Slices.{Inside, parse_tuple-Inside}
use ethkit.Ethcoder.AbiSig.Args.{
  skip_comma, is_last_comma, with_comma, Self, no_tuple, only, parse_some, join_right, join_inner,
  join_left, with_tuple, three_parts, past_comma, at_close, from_open, at_open, parse_trimmed,
  parse_abi_signature_args,
}

length-with_comma : (s : Text) → length (with_comma s) ≤ length s + 1
unfolding with_comma
length-with_comma s = elim (Bool-cases (is_last_comma (get_last? s))) [
  | inl t ↦ rw t (omega arith)
  | inr t ↦ rw t (omega (arith, length-append s (b',' ∷ [])))
]

only-IsOrderly : (r : Result Tree) → IsOrderly r → IsOrderly (only r)
unfolding only
only-IsOrderly (ok t) h = tt
only-IsOrderly (fails e) h = h

join_right-IsOrderly :
    (l : Left) (t : Tuple) (inner : Trees) (r : Result Trees)
    → IsOrderly r
    → IsOrderly (join_right l t inner r)
unfolding join_right
join_right-IsOrderly l t inner (ok right) h = tt
join_right-IsOrderly l t inner (fails e) h = h

skip_comma_step : (s : Text) (o : Option ℕ) → index b',' s ≡ o → skip_comma o ≤ length s
unfolding skip_comma
skip_comma_step s none e = omega arith
skip_comma_step s (some zero) e = omega arith
skip_comma_step s (some (suc x)) e =
    let (r, there, within) = index-some b',' (suc x) s e in omega (arith, within)

-- The place behind the comma is in the text.
skip_comma-le : (s : Text) → skip_comma (index b',' s) ≤ length s
skip_comma-le s = skip_comma_step s (index b',' s) refl

take-opened : (m k : ℕ) (s r : Text) → m ≡ suc k → s ≡ b'(' ∷ r → take m s ≡ b'(' ∷ take k r
take-opened m k s r e f = λ i. take (e i) (f i)

-- The recursive call ends well on texts shorter than `n`.
module _ (self : Self) (n : ℕ) (shorter : (s : Text) → length s < n → IsOrderly (self s)) where
  parse_some-IsOrderly : (p : Text) → length p < n → IsOrderly (parse_some self p)
  unfolding parse_some
  parse_some-IsOrderly p h = elim (Bool-cases (is_empty p)) [
    | inl t ↦ rw t tt
    | inr t ↦ rw t (only-IsOrderly (self p) (shorter p h))
  ]

  join_inner-IsOrderly :
      (l : Left) (t : Tuple) (r : Result Trees) (p3 : Text)
      → length p3 < n
      → IsOrderly r
      → IsOrderly (join_inner self l t r p3)
  unfolding join_inner
  join_inner-IsOrderly l t (ok inner) p3 h k =
      join_right-IsOrderly l t inner (parse_some self p3) (parse_some-IsOrderly p3 h)
  join_inner-IsOrderly l t (fails e) p3 h k = k

  join_left-IsOrderly :
      (r : Result Left) (t : Tuple) (p3 : Text)
      → length t.inside < n
      → length p3 < n
      → IsOrderly r
      → IsOrderly (join_left self r t p3)
  unfolding join_left
  join_left-IsOrderly (ok l) t p3 h k g =
      join_inner-IsOrderly l t (parse_some self t.inside) p3 k (parse_some-IsOrderly t.inside h)
  join_left-IsOrderly (fails e) t p3 h k g = g

  with_tuple-IsOrderly :
      (p1 : Text) (r : Result Tuple) (p3 : Text) (m : ℕ)
      → Inside m r
      → m < n + 2
      → length p3 < n
      → IsOrderly (with_tuple self p1 r p3)
  unfolding with_tuple
  with_tuple-IsOrderly p1 (ok t) p3 m h k g =
      join_left-IsOrderly (parse_left p1) t p3 (omega arith) g (parse_left-IsOrderly p1)
  with_tuple-IsOrderly p1 (fails e) p3 m h k g = absurd h

  -- The text from the opening parenthesis up to beyond the closing one.
  tuple_text-IsOrderly :
      (p1 p3 front rest : Text) (k : ℕ)
      → length front < k
      → length (front ++ b')' ∷ rest) ≤ n
      → length p3 < n
      → IsOrderly
          (with_tuple self p1 (parse_tuple (trim_space (b'(' ∷ take k (front ++ b')' ∷ rest)))) p3)
  tuple_text-IsOrderly p1 p3 front rest k h g f =
      let q = take k (front ++ b')' ∷ rest) in
      let inside =
        parse_tuple-Inside b'(' (trim_right is_space q)
          (contains-trim_right is_space b')' q refl (contains-middle b')' front rest k h)) in
      rw (trim_space-cons b'(' q refl) (
        with_tuple-IsOrderly p1 _ p3 (length (b'(' ∷ trim_right is_space q)) inside
          (omega (arith, length-trim_right is_space q, length-take-le k (front ++ b')' ∷ rest))) f)

  -- The three slices are in range.
  three_parts-IsOrderly :
      (args : Text) (a z : ℕ)
      → a ≤ z
      → z ≤ length args
      → IsOrderly (
          with_tuple self
            (trim_space (take a args))
            (parse_tuple (trim_space (take (z - a) (drop a args))))
            (trim_space (drop z args)))
      → IsOrderly (three_parts self (slice 0 a args) (slice a z args) (slice z (length args) args))
  unfolding three_parts
  three_parts-IsOrderly args a z le within h =
      rw
        (
          slice-front a args (omega arith),
          (slice_lem a z args le within).0,
          slice-back z args within,
        )
        h

  at_close-IsOrderly :
      (args : Text) (a : ℕ) (o : Option ℕ) (r : Text)
      → drop a args ≡ b'(' ∷ r
      → a < length args
      → length args ≤ n + 1
      → find_parens_close_index (b'(' ∷ r) ≡ o
      → IsOrderly (at_close self args a o)
  unfolding at_close past_comma
  at_close-IsOrderly args a none r e l h f = tt
  at_close-IsOrderly args a (some z0) r e l h f =
      let (front, rest, split, place) = find_parens_close_index-some r z0 f in
      let skip = skip_comma (index b',' (drop (z0 + a + 1) args)) in
      let z = z0 + a + 1 + skip in
      let size : length args - a ≡ suc (length r) = sym (length-drop a args) ∙ ap length e in
      let shut : z0 + a + 1 ≤ length args =
        omega (arith, size, ap length split, length-append front (b')' ∷ rest)) in
      let skipped = skip_comma-le (drop (z0 + a + 1) args) in
      let text : take (z - a) (drop a args) ≡ b'(' ∷ take (z0 + skip) (front ++ b')' ∷ rest) =
        take-opened (z - a) (z0 + skip) (drop a args) r (omega arith) e
        ∙ ap (λ t. b'(' ∷ take (z0 + skip) t) split in
      rw (slice-back (z0 + a + 1) args shut) (
        three_parts-IsOrderly args a z (omega arith)
          (omega (arith, shut, skipped, length-drop (z0 + a + 1) args))
          (rw text (
            tuple_text-IsOrderly (trim_space (take a args)) (trim_space (drop z args)) front rest
              (z0 + skip) (omega arith)
              (omega (arith, ap length split, length-drop a args, ap length e))
              (omega (
                arith,
                length-trim_space (drop z args),
                length-drop z args,
                length-drop a args,
                ap length e,
                ap length split,
                length-append front (b')' ∷ rest),
              )))))

  at_open-IsOrderly :
      (args : Text) (o : Option ℕ)
      → index b'(' args ≡ o
      → length args ≤ n + 1
      → 0 < n
      → IsOrderly (at_open self args o)
  unfolding at_open from_open
  at_open-IsOrderly args none e h g =
      join_left-IsOrderly (parse_left args) no_tuple [] g g (parse_left-IsOrderly args)
  at_open-IsOrderly args (some a) e h g =
      let (r, there, within) = index-some b'(' a args e in
      rw (slice-back a args (omega arith), there)
        (at_close-IsOrderly args a _ r there within h refl)

  parse_trimmed-IsOrderly : (s : Text) → length s ≤ n → IsOrderly (parse_trimmed self s)
  unfolding parse_trimmed
  parse_trimmed-IsOrderly [] h = tt
  parse_trimmed-IsOrderly (c ∷ cs) h =
      at_open-IsOrderly (with_comma (c ∷ cs)) _ refl (omega (arith, length-with_comma (c ∷ cs)))
        (omega arith)

-- Fuel above the length of the text is enough: the call then ends with a tree or one of the source's
-- errors, and no slice is out of range.
pub parse_abi_signature_args-IsOrderly :
    (n : ℕ) (event_args : Text)
    → length event_args < n
    → IsOrderly (parse_abi_signature_args n event_args)
unfolding parse_abi_signature_args
parse_abi_signature_args-IsOrderly zero event_args h = absurd (omega arith)
parse_abi_signature_args-IsOrderly (suc n) event_args h =
    parse_trimmed-IsOrderly (parse_abi_signature_args n) n
      (λ s k. parse_abi_signature_args-IsOrderly n s k) (trim_space event_args)
      (omega (arith, length-trim_space event_args))
