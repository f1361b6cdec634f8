-- ===== src/Ethcoder/AbiSig/Group/Flat.antt =====
-- The group of a tree without tuples.
use ethkit.Prelude.{◌≡◌, refl, ap, ◌∙◌, Bool, true, false, List, [], ◌∷◌, ◌++◌, append-nil, All}
use ethkit.Ethcoder.Text.{Text, split, trim_right}
use ethkit.Ethcoder.Text.Ends.{EndsIn, trim_right_same, trim_right-last}
use ethkit.Ethcoder.Text.Pieces.{joined_by}
use ethkit.Ethcoder.AbiSig.Tree.{node, nil}
use ethkit.Ethcoder.AbiSig.Tuple.{is_comma}
use ethkit.Ethcoder.AbiSig.Left.Fields.{IsTyp}
use ethkit.Ethcoder.AbiSig.Group.{non_empty, with_comma_behind, gather, group_abi_signature_tree}
use ethkit.Ethcoder.AbiSig.Group.Lists.{non_empty-split}

trimmed_left :
    (s : Text)
    → EndsIn (λ c. is_comma c ≡ false) s
    → trim_right is_comma ((with_comma_behind s ++ []) ++ []) ≡ s
unfolding with_comma_behind trim_right
trimmed_left [] e = refl
trimmed_left (x ∷ s) e =
    ap (trim_right is_comma)
      (append-nil (((x ∷ s) ++ b',' ∷ []) ++ []) ∙ append-nil ((x ∷ s) ++ b',' ∷ []))
    ∙ trim_right-last is_comma (x ∷ s) b',' refl
    ∙ trim_right_same is_comma (x ∷ s) e

pub group_abi_signature_tree-flat :
    (ts : List Text) (flags : List Bool) (names : List Text)
    → All IsTyp ts
    → EndsIn (λ c. is_comma c ≡ false) (joined_by b',' ts)
    → group_abi_signature_tree true (node (joined_by b',' ts) flags names nil [] false [] nil)
      ≡ record { text = joined_by b',' ts; typs = ts; indexed = flags; names = names }
unfolding group_abi_signature_tree gather
group_abi_signature_tree-flat ts flags names h e = λ i. record {
  text = trimmed_left (joined_by b',' ts) e i;
  typs =
      (append-nil (non_empty (split b',' (joined_by b',' ts)) ++ [])
          ∙ append-nil _
          ∙ non_empty-split ts h)
        i;
  indexed = (append-nil (flags ++ []) ∙ append-nil flags) i;
  names = (append-nil (names ++ []) ∙ append-nil names) i;
}
