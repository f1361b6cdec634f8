-- ===== src/Ethcoder/AbiSig/Args/Flat.antt =====
-- The tree of arguments without tuples.
use ethkit.Prelude.{
  ℕ, suc, ◌≡◌, ◌≢◌, refl, ap, ◌∙◌, Bool, true, false, none, some, List, [], ◌∷◌, ◌++◌, get_last?,
  get_last?-snoc, arith, All, All-append, All-map, ◌==◌,
}
use ethkit.Ethcoder.Text.{Text, is_empty, trim_space, index}
use ethkit.Ethcoder.Text.Ends.{EndsIn, EndsIn-append, StartsIn, StartsIn-append, index-Free}
use ethkit.Ethcoder.Text.Pieces.{joined_by, All-joined_by, joined_by_ends, joined_by_starts}
use ethkit.Ethcoder.AbiSig.Tree.{ok, node, nil}
use ethkit.Ethcoder.AbiSig.Left.Arguments.{
  Argument, IsArgument, IsPlain, words, flag_text, StartsIn-words, EndsIn-words, trim_space-plain,
}
use ethkit.Ethcoder.AbiSig.Left.Written.{typs_of, flags_of, names_of, words_of, parse_left-words}
use ethkit.Ethcoder.AbiSig.Args.{
  is_last_comma, with_comma, Self, no_tuple, parse_some, node_of, join_right, join_inner, join_left,
  at_open, parse_trimmed, parse_abi_signature_args,
}

-- A byte of written arguments.
abbrev pub NoParens : ℕ → Type 0
NoParens c = (c ≢ b'(') × (c ≢ b')')

NoParens-flag : (b : Bool) → All NoParens (flag_text b)
NoParens-flag true = omega arith
NoParens-flag false = tt

NoParens-words : (a : Argument) → IsArgument a → All NoParens (words a)
NoParens-words a h =
    All-append NoParens (a.typ ++ flag_text a.indexed) (b' ' ∷ a.name)
      (All-append NoParens a.typ (flag_text a.indexed)
        (All-map a.typ (λ c p. (p.2, p.3)) h.typ_word.0) (NoParens-flag a.indexed))
      ((omega arith, omega arith), All-map a.name (λ c p. (p.2, p.3)) h.name_word.0)

NoParens-words_of : (as' : List Argument) → All IsArgument as' → All (All NoParens) (words_of as')
NoParens-words_of [] h = tt
NoParens-words_of (a ∷ as') (p, h) = (NoParens-words a p, NoParens-words_of as' h)

EndsIn-words_of : (as' : List Argument) → All IsArgument as' → All (EndsIn IsPlain) (words_of as')
EndsIn-words_of [] h = tt
EndsIn-words_of (a ∷ as') (p, h) = (EndsIn-words a p, EndsIn-words_of as' h)

module _ (a : Argument) (as' : List Argument) (h : All IsArgument (a ∷ as')) where
  abbrev pub written : Text
  written = joined_by b',' (words_of (a ∷ as'))

  pub written-NoParens : All NoParens written
  written-NoParens =
      All-joined_by NoParens b',' (words_of (a ∷ as')) (omega arith, omega arith)
        (NoParens-words_of (a ∷ as') h)

  written_starts : StartsIn IsPlain written
  written_starts =
      joined_by_starts (StartsIn IsPlain) b',' (words a) (words_of as') (StartsIn-append IsPlain)
        (StartsIn-words a h.0)

  written_ends : EndsIn IsPlain written
  written_ends =
      joined_by_ends (EndsIn IsPlain) b',' (words a) (words_of as') (EndsIn-append IsPlain)
        (EndsIn-words_of (a ∷ as') h)

  pub trim_space-written : trim_space written ≡ written
  trim_space-written = trim_space-plain written written_starts written_ends

  pub is_empty-written : is_empty written ≡ false
  is_empty-written = let (c, r, e, p) = written_starts in ap is_empty e

  with_comma-written : with_comma written ≡ written ++ b',' ∷ []
  unfolding with_comma is_last_comma
  with_comma-written =
      let (front, c, e, p) = written_ends in
      let last : get_last? written ≡ some c = ap get_last? e ∙ get_last?-snoc front c in
      let other : (c == b',') ≡ false = ground arith in rw (last, other) refl

  no_tuple_opens : index b'(' (written ++ b',' ∷ []) ≡ none
  no_tuple_opens = index-Free b'(' (written ++ b',' ∷ []) (
      All-append (λ c. c ≢ b'(') written (b',' ∷ []) (All-map written (λ c p. p.0) written-NoParens)
        (omega arith, tt))

  parse_trimmed-full :
      (self : Self) (s : Text)
      → StartsIn IsPlain s
      → parse_trimmed self s ≡ at_open self (with_comma s) (index b'(' (with_comma s))
  unfolding parse_trimmed
  parse_trimmed-full self [] (c, r, e, p) = cc
  parse_trimmed-full self (x ∷ s) st = refl

  -- The whole text is the left part.
  pub parse_abi_signature_args-written :
      (n : ℕ)
      → parse_abi_signature_args (suc n) written
        ≡ ok (
            node
              (joined_by b',' (typs_of (a ∷ as')))
              (flags_of (a ∷ as'))
              (names_of (a ∷ as'))
              nil
              []
              false
              []
              nil)
  unfolding parse_abi_signature_args at_open join_left join_inner join_right parse_some node_of
  parse_abi_signature_args-written n =
      let self = parse_abi_signature_args n in
      ap (parse_trimmed self) trim_space-written
      ∙ parse_trimmed-full self written written_starts
      ∙ ap (λ t. at_open self t (index b'(' t)) with_comma-written
      ∙ ap (at_open self (written ++ b',' ∷ [])) no_tuple_opens
      ∙ ap (λ l. join_left self l no_tuple []) (parse_left-words a as' h)
