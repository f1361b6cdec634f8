-- ===== src/Ethcoder/AbiSig/Signature/Written.antt =====
-- The signature of given arguments, and what `String` writes for it.
use ethkit.Prelude.{
  suc, ◌≡◌, refl, ap, ◌∙◌, Bool, true, false, ◌&&◌, some, List, [], ◌∷◌, ◌++◌, append_assoc,
  append-nil, length, arith, All, ◌==◌, ◌>>=◌, if◌then◌else◌,
}
use ethkit.Ethcoder.Text.{Text, codes, is_empty}
use ethkit.Ethcoder.Text.Pieces.{joined_by}
use ethkit.Ethcoder.AbiSig.Tree.{AbiSignature}
use ethkit.Ethcoder.AbiSig.Left.Arguments.{Argument, IsArgument, words, flag_text}
use ethkit.Ethcoder.AbiSig.Left.Written.{typs_of, flags_of, names_of, words_of}
use ethkit.Ethcoder.AbiSig.Signature.{count_true, called, arg_text, is_nil, args_text, to_string}

-- The signature of a method or an event with these arguments.
unfoldable pub signature_of : (Text → Text) → Text → List Argument → AbiSignature
unfolding called count_true
signature_of hash_of name as' = record {
  name = name;
  signature = called name (joined_by b',' (typs_of as'));
  hash = hash_of (called name (joined_by b',' (typs_of as')));
  arg_types = typs_of as';
  arg_names = names_of as';
  arg_indexed = flags_of as';
  num_indexed = count_true (flags_of as');
}

length-typs :
    (as' : List Argument)
    → (length (typs_of as') ≡ length as')
      × (length (flags_of as') ≡ length as')
      × (length (names_of as') ≡ length as')
length-typs [] = (refl, refl, refl)
length-typs (a ∷ as') = let (x, y, z) = length-typs as' in (ap suc x, ap suc y, ap suc z)

arg_text-words :
    (is_last : Bool) (a : Argument)
    → is_empty a.name ≡ false
    → arg_text is_last a.typ a.indexed a.name ≡ words a ++ (if is_last then [] else b',' ∷ [])
unfolding arg_text
arg_text-words is_last a h = rw h (by_flag a.indexed)
  where
    by_flag :
        (b : Bool)
        → (a.typ ++ (if b then codes " indexed" else []) ++ b' ' ∷ a.name)
            ++ (if is_last then [] else b',' ∷ [])
          ≡ (a.typ ++ flag_text b ++ b' ' ∷ a.name) ++ (if is_last then [] else b',' ∷ [])
    by_flag true = refl
    by_flag false = refl

args_text-words :
    (as' : List Argument)
    → All IsArgument as'
    → args_text (typs_of as') (flags_of as') (names_of as') ≡ some (joined_by b',' (words_of as'))
unfolding args_text is_nil
args_text-words [] h = refl
args_text-words (a ∷ []) (p, h) =
    ap some (append-nil _ ∙ arg_text-words true a p.name_word.1 ∙ append-nil (words a))
args_text-words (a ∷ b ∷ as') (p, h) =
    ap (λ o. o >>= (λ rest. some (arg_text false a.typ a.indexed a.name ++ rest)))
      (args_text-words (b ∷ as') h)
    ∙ ap some (
        ap (λ t. t ++ joined_by b',' (words_of (b ∷ as'))) (arg_text-words false a p.name_word.1)
        ∙ append_assoc (words a) (b',' ∷ []) (joined_by b',' (words_of (b ∷ as'))))

-- What `String` writes.
pub to_string-words :
    (hash_of : Text → Text) (name : Text) (as' : List Argument)
    → All IsArgument as'
    → to_string (signature_of hash_of name as') ≡ some (called name (joined_by b',' (words_of as')))
unfolding to_string signature_of
to_string-words hash_of name as' h =
    let (x, y, z) = length-typs as' in
    let even : (length (typs_of as') == length (flags_of as')
          && length (typs_of as') == length (names_of as'))
        ≡ true =
      ground arith in
    rw (even, args_text-words as' h) refl
