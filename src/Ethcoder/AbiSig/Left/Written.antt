-- ===== src/Ethcoder/AbiSig/Left/Written.antt =====
-- Arguments that are written out are read back.
use ethkit.Prelude.{
  ℕ, ◌≡◌, ◌≢◌, refl, sym, ap, ◌∙◌, Bool, true, false, List, [], ◌∷◌, ◌++◌, append_assoc, append-nil,
  map, arith, All, All-append, All-map,
}
use ethkit.Ethcoder.Text.{Text, is_empty, trim_left, trim_right, trim_space, split}
use ethkit.Ethcoder.Text.Pieces.{
  Free, each_with, joined_by, take-each_with, split-each_with, each_with_as_joined,
}
use ethkit.Ethcoder.AbiSig.Tree.{ok}
use ethkit.Ethcoder.AbiSig.Left.Arguments.{Argument, IsArgument, words, flag_text, add_words-words}
use ethkit.Ethcoder.AbiSig.Left.Fields.{without_last-take}
use ethkit.Ethcoder.AbiSig.Left.{
  Left, add_flag, add_type, add_unindexed, add_words, add_all, finish_left, left_of, no_left,
  parse_left,
}

abbrev pub typs_of : List Argument → List Text
typs_of as' = map (λ a. a.typ) as'

abbrev pub flags_of : List Argument → List Bool
flags_of as' = map (λ a. a.indexed) as'

abbrev pub names_of : List Argument → List Text
names_of as' = map (λ a. a.name) as'

abbrev pub words_of : List Argument → List Text
words_of as' = map words as'

-- what the loop holds after these arguments
abbrev held : List Argument → Left → Left
held as' l = record {
  s = l.s ++ each_with b',' (typs_of as');
  indexed = l.indexed ++ flags_of as';
  names = l.names ++ names_of as';
}

held-nil : (l : Left) → held [] l ≡ l
held-nil l = λ i. record {
  s = append-nil l.s i;
  indexed = append-nil l.indexed i;
  names = append-nil l.names i;
}

held-cons :
    (a : Argument) (as' : List Argument) (l : Left)
    → is_empty a.typ ≡ false
    → held as' (add_type a.typ (add_flag a.indexed a.name l)) ≡ held (a ∷ as') l
unfolding add_type add_flag
held-cons a as' l full = rw full (λ i. record {
  s =
      (append_assoc l.s (a.typ ++ b',' ∷ []) (each_with b',' (typs_of as'))
          ∙ ap (λ x. l.s ++ x) (append_assoc a.typ (b',' ∷ []) (each_with b',' (typs_of as'))))
        i;
  indexed = append_assoc l.indexed (a.indexed ∷ []) (flags_of as') i;
  names = append_assoc l.names (a.name ∷ []) (names_of as') i;
})

add_blank : (l : Left) → add_all ([] ∷ []) (ok l) ≡ ok l
unfolding add_all add_words add_unindexed add_type split trim_space trim_left trim_right
add_blank l = refl

add_all-words :
    (as' : List Argument) (l : Left)
    → All IsArgument as'
    → add_all (words_of as' ++ [] ∷ []) (ok l) ≡ ok (held as' l)
unfolding add_all
add_all-words [] l h = add_blank l ∙ ap ok (sym (held-nil l))
add_all-words (a ∷ as') l (p, h) =
    ap (add_all (words_of as' ++ [] ∷ [])) (add_words-words a l p)
    ∙ add_all-words as' (add_type a.typ (add_flag a.indexed a.name l)) h
    ∙ ap ok (held-cons a as' l p.typ_word.1)

flag-Free : (b : Bool) → Free b',' (flag_text b)
flag-Free true = omega arith
flag-Free false = tt

words-Free : (a : Argument) → IsArgument a → Free b',' (words a)
words-Free a h =
    All-append (λ x. x ≢ b',') (a.typ ++ flag_text a.indexed) (b' ' ∷ a.name)
      (All-append (λ x. x ≢ b',') a.typ (flag_text a.indexed)
        (All-map a.typ (λ c p. p.1) h.typ_word.0) (flag-Free a.indexed))
      (omega arith, All-map a.name (λ c p. p.1) h.name_word.0)

words_of-Free : (as' : List Argument) → All IsArgument as' → All (Free b',') (words_of as')
words_of-Free [] h = tt
words_of-Free (a ∷ as') (p, h) = (words-Free a p, words_of-Free as' h)

is_empty-middle : (s : Text) (c : ℕ) (t : Text) → is_empty (s ++ c ∷ t) ≡ false
is_empty-middle [] c t = refl
is_empty-middle (x ∷ s) c t = refl

-- The written arguments, with a comma at the end, are read as types, flags and names.
pub parse_left-words :
    (a : Argument) (as' : List Argument)
    → All IsArgument (a ∷ as')
    → parse_left (joined_by b',' (words_of (a ∷ as')) ++ b',' ∷ [])
      ≡ ok (record {
        s = joined_by b',' (typs_of (a ∷ as'));
        indexed = flags_of (a ∷ as');
        names = names_of (a ∷ as');
      })
unfolding parse_left left_of finish_left
parse_left-words a as' h =
    let whole = each_with_as_joined b',' (words a) (words_of as') in
    let full : is_empty (each_with b',' (words_of (a ∷ as'))) ≡ false =
      is_empty-middle (words a) b',' (each_with b',' (words_of as')) in
    ap parse_left whole
    ∙ rw
        (
          full,
          split-each_with b',' (words_of (a ∷ as')) (words_of-Free (a ∷ as') h),
          add_all-words (a ∷ as') no_left h,
        )
        (λ i. ok (record {
          s =
              (without_last-take (each_with b',' (typs_of (a ∷ as')))
                  ∙ take-each_with b',' (typs_of (a ∷ as')))
                i;
          indexed = flags_of (a ∷ as');
          names = names_of (a ∷ as');
        }))
