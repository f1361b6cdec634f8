-- ===== src/Ethcoder/AbiSig/Signature/Agreement.antt =====
-- What `ParseABISignature` gives back, and how it ends.
use ethkit.Prelude.{
  ℕ, suc, ◌≤◌, ◌≡◌, refl, ap, subst, ◌∙◌, Bool, true, false, ◌||◌, not, Option, none, some, List,
  [], ◌∷◌, length, arith, All, ltb, ◌==◌, Bool-cases, inl, inr,
}
use ethkit.Ethcoder.Text.{Text, is_empty, trim_space, index, last_index, contains, count}
use ethkit.Ethcoder.AbiSig.Tree.{Result, ok, fails, AbiSignature, Tree}
use ethkit.Ethcoder.AbiSig.Args.Wellformed.{MayBeWell, parse_abi_signature_args-MayBeWell}
use ethkit.Ethcoder.AbiSig.Group.{Group, group_abi_signature_tree}
use ethkit.Ethcoder.AbiSig.Group.Lists.{IsFull, IsEven, group_abi_signature_tree-IsEven}
use ethkit.Ethcoder.AbiSig.Signature.{
  name_all, count_true, no_args, finish_signature, grouped, parse_method, parse_parts,
  parse_between, parse_abi_signature,
}

-- As many flags and names as types; no type and no name is empty, and the indexed ones are counted.
pub record Agrees (s : AbiSignature) : Type 0 where
  pub flags : length s.arg_indexed ≡ length s.arg_types
  pub named : length s.arg_names ≡ length s.arg_types
  pub full_types : All IsFull s.arg_types
  pub full_names : All IsFull s.arg_names
  pub few_indexed : s.num_indexed ≤ length s.arg_types

length-name_all : (i : ℕ) (ns : List Text) → length (name_all i ns) ≡ length ns
unfolding name_all
length-name_all i [] = refl
length-name_all i (n ∷ ns) = ap suc (length-name_all (suc i) ns)

name_all-IsFull : (i : ℕ) (ns : List Text) → All IsFull (name_all i ns)
unfolding name_all
name_all-IsFull i [] = tt
name_all-IsFull i (n ∷ ns) = (
  elim (Bool-cases (is_empty n)) [ inl t ↦ rw t refl | inr t ↦ rw t t ],
  name_all-IsFull (suc i) ns,
)

count_true-le : (bs : List Bool) → count_true bs ≤ length bs
unfolding count_true
count_true-le [] = omega arith
count_true-le (true ∷ bs) = omega (arith, count_true-le bs)
count_true-le (false ∷ bs) = omega (arith, count_true-le bs)

abbrev pub MayAgree : Result AbiSignature → Type 0
MayAgree (ok s) = Agrees s
MayAgree (fails e) = Unit

module _ (hash_of : Text → Text) where
  finish_signature-Agrees :
      (method text : Text) (g : Group) → IsEven g → Agrees (finish_signature hash_of method text g)
  unfolding finish_signature
  finish_signature-Agrees method text g (x, y, z) = record {
    flags = x;
    named = length-name_all 1 g.names ∙ y;
    full_types = z;
    full_names = name_all-IsFull 1 g.names;
    few_indexed = omega (arith, count_true-le g.indexed, x);
  }

  grouped-MayAgree :
      (method : Text) (r : Result Tree) → MayBeWell r → MayAgree (grouped hash_of method r)
  unfolding grouped
  grouped-MayAgree method (ok t) h =
      finish_signature-Agrees method _ (group_abi_signature_tree true t)
        (group_abi_signature_tree-IsEven t h)
  grouped-MayAgree method (fails e) h = tt

  parse_method-MayAgree :
      (method : Text) (o : Option Text) → MayAgree (parse_method hash_of method o)
  unfolding parse_method
  parse_method-MayAgree method none = tt
  parse_method-MayAgree method (some inside) = elim (Bool-cases (is_empty (trim_space inside))) [
    | inl t ↦ rw t (finish_signature-Agrees method [] no_args (refl, refl, tt))
    | inr t ↦
        rw t (grouped-MayAgree method _ (parse_abi_signature_args-MayBeWell _ (trim_space inside)))
  ]

  parse_parts-MayAgree : (m o : Option Text) → MayAgree (parse_parts hash_of m o)
  unfolding parse_parts
  parse_parts-MayAgree none o = tt
  parse_parts-MayAgree (some m) o = parse_method-MayAgree _ o

  parse_between-MayAgree : (sig : Text) (x y : Option ℕ) → MayAgree (parse_between hash_of sig x y)
  unfolding parse_between
  parse_between-MayAgree sig (some a) (some b) = parse_parts-MayAgree _ _
  parse_between-MayAgree sig none y = tt
  parse_between-MayAgree sig (some a) none = tt

  parse_abi_signature-MayAgree : (sig : Text) → MayAgree (parse_abi_signature hash_of sig)
  unfolding parse_abi_signature
  parse_abi_signature-MayAgree sig =
      elim (Bool-cases (not (contains b'(' sig) || not (contains b')' sig))) [
        | inl t ↦ rw t tt
        | inr t ↦
            elim (Bool-cases (not (count b'(' sig == count b')' sig) || ltb (count b'(' sig) 1)) [
              | inl u ↦ rw (t, u) tt
              | inr u ↦
                  rw (t, u) (parse_between-MayAgree sig (index b'(' sig) (last_index b')' sig))
            ]
      ]

  -- A signature that is accepted has as many flags and names as types, no type and no name of it is
  -- empty, and the count of indexed arguments is not above that of the types.
  pub parse_abi_signature-Agrees :
      (sig : Text) (s : AbiSignature) → parse_abi_signature hash_of sig ≡ ok s → Agrees s
  parse_abi_signature-Agrees sig s e = subst MayAgree e (parse_abi_signature-MayAgree sig)
