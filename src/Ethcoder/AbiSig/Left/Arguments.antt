-- ===== src/Ethcoder/AbiSig/Left/Arguments.antt =====
-- Arguments that are written out, and what is read of them.
use ethkit.Prelude.{
  ℕ, ◌≡◌, ◌≢◌, refl, ap, ◌∙◌, Bool, true, false, List, [], ◌∷◌, ◌++◌, append_assoc, append-nil,
  arith, All, All-map,
}
use ethkit.Ethcoder.Text.{Text, codes, is_empty, is_space, text_eq, trim_space, split}
use ethkit.Ethcoder.Text.Ends.{
  EndsIn, EndsIn-append, EndsIn-All, StartsIn, StartsIn-append, trim_space-solid,
}
use ethkit.Ethcoder.Text.Pieces.{Free, split-append, split-one}
use ethkit.Ethcoder.AbiSig.Tree.{ok}
use ethkit.Ethcoder.AbiSig.Left.{Left, is_indexed, add_flag, add_type, add_unindexed, add_words}

pub record Argument : Type 0 where
  pub typ : Text
  pub indexed : Bool
  pub name : Text

-- A byte of a word: it neither parts words or arguments nor is a parenthesis.
abbrev pub IsPlain : ℕ → Type 0
IsPlain c = (is_space c ≡ false) × (c ≢ b',') × (c ≢ b'(') × (c ≢ b')')

abbrev pub IsWord : Text → Type 0
IsWord t = All IsPlain t × (is_empty t ≡ false)

-- Words, of which the name of an argument that is not indexed is another than `indexed`.
pub record IsArgument (a : Argument) : Type 0 where
  pub typ_word : IsWord a.typ
  pub name_word : IsWord a.name
  pub name_clear : a.indexed ≡ false → is_indexed a.name ≡ false

-- the flag, with a space before it
abbrev pub flag_text : Bool → Text
flag_text true = codes " indexed"
flag_text false = []

abbrev pub words : Argument → Text
words a = a.typ ++ flag_text a.indexed ++ b' ' ∷ a.name

-- No space in a word.
IsWord-no_space : (t : Text) → All IsPlain t → Free b' ' t
IsWord-no_space t h = All-map t (λ c p. ground arith) h

StartsIn-word : (t : Text) → IsWord t → StartsIn IsPlain t
StartsIn-word [] (h, e) = cc
StartsIn-word (c ∷ t) ((p, h), e) = (c, t, refl, p)

EndsIn-word : (t : Text) → IsWord t → EndsIn IsPlain t
EndsIn-word [] (h, e) = cc
EndsIn-word (c ∷ t) (h, e) = EndsIn-All IsPlain c t h

pub StartsIn-words : (a : Argument) → IsArgument a → StartsIn IsPlain (words a)
StartsIn-words a h =
    StartsIn-append IsPlain (a.typ ++ flag_text a.indexed) (b' ' ∷ a.name)
      (StartsIn-append IsPlain a.typ (flag_text a.indexed) (StartsIn-word a.typ h.typ_word))

pub EndsIn-words : (a : Argument) → IsArgument a → EndsIn IsPlain (words a)
EndsIn-words a h =
    EndsIn-append IsPlain (a.typ ++ flag_text a.indexed) (b' ' ∷ a.name)
      (EndsIn-append IsPlain (b' ' ∷ []) a.name (EndsIn-word a.name h.name_word))

solid_start : (s : Text) → StartsIn IsPlain s → StartsIn (λ c. is_space c ≡ false) s
solid_start s (c, r, e, p) = (c, r, e, p.0)

solid_end : (s : Text) → EndsIn IsPlain s → EndsIn (λ c. is_space c ≡ false) s
solid_end s (f, c, e, p) = (f, c, e, p.0)

pub trim_space-plain : (s : Text) → StartsIn IsPlain s → EndsIn IsPlain s → trim_space s ≡ s
trim_space-plain s h k = trim_space-solid s (solid_start s h) (solid_end s k)

-- the words of an argument, one by one
pieces : Bool → Argument → List Text
pieces true a = a.typ ∷ codes "indexed" ∷ a.name ∷ []
pieces false a = a.typ ∷ a.name ∷ []

split-words :
    (b : Bool) (a : Argument)
    → Free b' ' a.typ
    → Free b' ' a.name
    → split b' ' (a.typ ++ flag_text b ++ b' ' ∷ a.name) ≡ pieces b a
unfolding pieces
split-words true a h k =
    ap (split b' ') (append_assoc a.typ (codes " indexed") (b' ' ∷ a.name))
    ∙ split-append b' ' a.typ (codes "indexed" ++ b' ' ∷ a.name) h
    ∙ ap (λ l. a.typ ∷ l)
        (split-append b' ' (codes "indexed") a.name (omega arith)
          ∙ ap (λ l. codes "indexed" ∷ l) (split-one b' ' a.name k))
split-words false a h k =
    ap (λ l. split b' ' (l ++ b' ' ∷ a.name)) (append-nil a.typ)
    ∙ split-append b' ' a.typ a.name h
    ∙ ap (λ l. a.typ ∷ l) (split-one b' ' a.name k)

is_indexed_itself : is_indexed (codes "indexed") ≡ true
unfolding is_indexed text_eq
is_indexed_itself = refl

add_words-pieces :
    (b : Bool) (a : Argument) (l : Left)
    → (b ≡ false → is_indexed a.name ≡ false)
    → is_empty a.typ ≡ false
    → add_words (pieces b a) l ≡ ok (add_type (trim_space a.typ) (add_flag b a.name l))
unfolding pieces add_words add_unindexed
add_words-pieces true a l h k = rw is_indexed_itself refl
add_words-pieces false a l h k = rw (h refl, k) refl

pub add_words-words :
    (a : Argument) (l : Left)
    → IsArgument a
    → add_words (split b' ' (trim_space (words a))) l
      ≡ ok (add_type a.typ (add_flag a.indexed a.name l))
add_words-words a l h =
    let typ = h.typ_word in
    let trimmed = trim_space-plain a.typ (StartsIn-word a.typ typ) (EndsIn-word a.typ typ) in
    ap (λ t. add_words (split b' ' t) l)
      (trim_space-plain (words a) (StartsIn-words a h) (EndsIn-words a h))
    ∙ ap (λ ws. add_words ws l)
        (split-words a.indexed a (IsWord-no_space a.typ typ.0)
          (IsWord-no_space a.name h.name_word.0))
    ∙ add_words-pieces a.indexed a l h.name_clear typ.1
    ∙ ap (λ t. ok (add_type t (add_flag a.indexed a.name l))) trimmed
