-- ===== src/Ethcoder/AbiSig/Signature/RoundTrip.antt =====
-- `ParseABISignature` reads what `String` writes.
use ethkit.Prelude.{
  ℕ, suc, ◌+◌, ◌≡◌, refl, ap, ap₂, ◌∙◌, false, ◌||◌, not, some, List, [], ◌∷◌, ◌++◌, append_assoc,
  take, take-length-append, length, length-append, arith, All, All-map, ltb, ◌==◌,
}
use ethkit.Ethcoder.Text.{
  Text, is_space, trim_left, trim_right, trim_space, index, last_index, count, slice,
}
use ethkit.Ethcoder.Text.Ends.{
  EndsIn, EndsIn-append, EndsIn-All, trim_space_same, index-append, last_index-snoc, count-append,
  count-Free, slice-middle,
}
use ethkit.Ethcoder.Text.Splitting.{slice-front, index-contains, contains-last_index}
use ethkit.Ethcoder.Text.Pieces.{joined_by, joined_by_ends}
use ethkit.Ethcoder.AbiSig.Tree.{ok}
use ethkit.Ethcoder.AbiSig.Left.Fields.{IsTyp}
use ethkit.Ethcoder.AbiSig.Left.Arguments.{Argument, IsArgument, IsPlain, IsWord}
use ethkit.Ethcoder.AbiSig.Left.Written.{typs_of, flags_of, names_of, words_of}
use ethkit.Ethcoder.AbiSig.Tuple.{is_comma}
use ethkit.Ethcoder.AbiSig.Args.Flat.{
  NoParens, is_empty-written, written-NoParens, trim_space-written,
  parse_abi_signature_args-written,
}
use ethkit.Ethcoder.AbiSig.Group.Flat.{group_abi_signature_tree-flat}
use ethkit.Ethcoder.AbiSig.Signature.{
  name_all, called, finish_signature, grouped, parse_method, parse_parts, parse_between,
  parse_abi_signature, to_string,
}
use ethkit.Ethcoder.AbiSig.Signature.Written.{signature_of, to_string-words}

name_all-full :
    (i : ℕ) (as' : List Argument) → All IsArgument as' → name_all i (names_of as') ≡ names_of as'
unfolding name_all
name_all-full i [] h = refl
name_all-full i (a ∷ as') (p, h) =
    rw (p.name_word.1) (ap (λ l. a.name ∷ l) (name_all-full (suc i) as' h))

typs-IsTyp : (as' : List Argument) → All IsArgument as' → All IsTyp (typs_of as')
typs-IsTyp [] h = tt
typs-IsTyp (a ∷ as') (p, h) =
    ((All-map a.typ (λ c q. q.1) p.typ_word.0, p.typ_word.1), typs-IsTyp as' h)

EndsIn-typ : (t : Text) → IsWord t → EndsIn (λ c. is_comma c ≡ false) t
EndsIn-typ [] (h, e) = cc
EndsIn-typ (c ∷ t) (h, e) =
    EndsIn-All (λ c. is_comma c ≡ false) c t (All-map (c ∷ t) (λ x q. ground arith) h)

EndsIn-typs :
    (as' : List Argument)
    → All IsArgument as'
    → All (EndsIn (λ c. is_comma c ≡ false)) (typs_of as')
EndsIn-typs [] h = tt
EndsIn-typs (a ∷ as') (p, h) = (EndsIn-typ a.typ p.typ_word, EndsIn-typs as' h)

trim_space-nil : trim_space [] ≡ []
unfolding trim_space trim_left trim_right
trim_space-nil = refl

trim_space-word : (name : Text) → All IsPlain name → trim_space name ≡ name
trim_space-word [] h = trim_space-nil
trim_space-word (c ∷ t) h =
    trim_space_same c t h.0.0
      (EndsIn-All (λ x. is_space x ≡ false) c t (All-map (c ∷ t) (λ x q. q.0) h))

-- A text between parentheses, with none inside.
module _ (hash_of : Text → Text) (name : Text) (word : All IsPlain name) where
  module _ (inside : Text) (h : All NoParens inside) where
    counted_open : count b'(' (called name inside) ≡ 1
    unfolding called count
    counted_open = omega (
      arith,
      count-append b'(' (name ++ b'(' ∷ inside) (b')' ∷ []),
      count-append b'(' name (b'(' ∷ inside),
      count-Free b'(' name (All-map name (λ c q. q.2) word),
      count-Free b'(' inside (All-map inside (λ c q. q.0) h),
    )

    counted_closed : count b')' (called name inside) ≡ 1
    unfolding called count
    counted_closed = omega (
      arith,
      count-append b')' (name ++ b'(' ∷ inside) (b')' ∷ []),
      count-append b')' name (b'(' ∷ inside),
      count-Free b')' name (All-map name (λ c q. q.3) word),
      count-Free b')' inside (All-map inside (λ c q. q.1) h),
    )

    opens : index b'(' (called name inside) ≡ some (length name)
    unfolding called
    opens =
        ap (index b'(') (append_assoc name (b'(' ∷ inside) (b')' ∷ []))
        ∙ index-append b'(' name (inside ++ b')' ∷ []) (All-map name (λ c q. q.2) word)

    closes : last_index b')' (called name inside) ≡ some (length (name ++ b'(' ∷ inside))
    unfolding called
    closes = last_index-snoc b')' (name ++ b'(' ∷ inside)

    front : take (length name) (called name inside) ≡ name
    unfolding called
    front =
        ap (take (length name)) (append_assoc name (b'(' ∷ inside) (b')' ∷ []))
        ∙ take-length-append name (b'(' ∷ inside ++ b')' ∷ [])

    before : slice 0 (length name) (called name inside) ≡ some name
    unfolding called
    before =
        slice-front (length name) (called name inside) (
          omega (
            arith,
            length-append (name ++ b'(' ∷ inside) (b')' ∷ []),
            length-append name (b'(' ∷ inside),
          ))
        ∙ ap some front

    between :
        slice (length name + 1) (length (name ++ b'(' ∷ inside)) (called name inside) ≡ some inside
    unfolding called
    between = slice-middle b'(' b')' name inside

    parse_abi_signature-called :
        parse_abi_signature hash_of (called name inside) ≡ parse_method hash_of name (some inside)
    unfolding parse_abi_signature parse_between parse_parts
    parse_abi_signature-called =
        let opened = (index-contains b'(' (length name) (called name inside) opens).0 in
        let closed = contains-last_index b')' _ (called name inside) closes in
        let guard : (not (count b'(' (called name inside) == count b')' (called name inside))
              || ltb (count b'(' (called name inside)) 1)
            ≡ false =
          rw (counted_open, counted_closed) refl in
        rw (opened, closed, guard)
          (ap₂ (parse_between hash_of (called name inside)) opens closes
            ∙ ap₂ (parse_parts hash_of) before between
            ∙ ap (λ m. parse_method hash_of m (some inside)) (trim_space-word name word))

  parse_method-written :
      (as' : List Argument)
      → All IsArgument as'
      → parse_method hash_of name (some (joined_by b',' (words_of as')))
        ≡ ok (signature_of hash_of name as')
  unfolding parse_method finish_signature signature_of grouped
  parse_method-written [] h = rw trim_space-nil refl
  parse_method-written (a ∷ as') h =
      let typs =
        joined_by_ends (EndsIn (λ c. is_comma c ≡ false)) b',' a.typ (typs_of as')
          (EndsIn-append (λ c. is_comma c ≡ false)) (EndsIn-typs (a ∷ as') h) in
      rw (trim_space-written a as' h, is_empty-written a as' h)
        (ap (grouped hash_of name) (parse_abi_signature_args-written a as' h _)
          ∙ ap (λ g. ok (finish_signature hash_of name g.text g))
              (group_abi_signature_tree-flat (typs_of (a ∷ as')) (flags_of (a ∷ as'))
                (names_of (a ∷ as')) (typs-IsTyp (a ∷ as') h) typs)
          ∙ ap (λ ns. ok (record (signature_of hash_of name (a ∷ as')) { arg_names = ns }))
              (name_all-full 1 (a ∷ as') h))

written_NoParens :
    (as' : List Argument) → All IsArgument as' → All NoParens (joined_by b',' (words_of as'))
written_NoParens [] h = tt
written_NoParens (a ∷ as') h = written-NoParens a as' h

-- The method's or event's name and the arguments are words, without tuples, and no argument that is
-- not indexed is named `indexed`: what `String` writes for their signature is read as that signature.
pub parse_abi_signature-to_string :
    (hash_of : Text → Text) (name : Text) (as' : List Argument)
    → All IsPlain name
    → All IsArgument as'
    → (text : Text) × (to_string (signature_of hash_of name as') ≡ some text)
      × (parse_abi_signature hash_of text ≡ ok (signature_of hash_of name as'))
parse_abi_signature-to_string hash_of name as' word h = (
  called name (joined_by b',' (words_of as')),
  to_string-words hash_of name as' h,
  parse_abi_signature-called hash_of name word (joined_by b',' (words_of as'))
        (written_NoParens as' h)
      ∙ parse_method-written hash_of name word as' h,
)
