-- ===== src/Ethcoder/AbiSig/Group.antt =====
-- ethcoder/abi_sig_parser.go, `groupABISignatureTree`.
pub mod Flat
pub mod Lists
use ethkit.Prelude.{
  ℕ, zero, suc, ◌+◌, ◌-◌, Bool, true, false, ◌&&◌, ◌||◌, not, Option, none, some, List, [], ◌∷◌,
  ◌++◌, take, drop, get_last?, length, ltb, ◌==◌, ◌>>=◌, if◌then◌else◌,
}
use ethkit.Ethcoder.Text.{
  Text, codes, is_empty, text_eq, trim_right, trim_space, index, last_index, contains, count, split,
  slice, decimal,
}
use ethkit.Ethcoder.AbiSig.Tree.{
  Err, invalid_format, no_closing_parenthesis, invalid_argument, invalid_indexed_argument,
  slice_out_of_range, out_of_fuel, Result, ok, fails, AbiSignature, Tree, Trees, node, nil, cons,
}
use ethkit.Ethcoder.AbiSig.Tuple.{is_comma}

pub record Group : Type 0 where
  pub text : Text
  pub typs : List Text
  pub indexed : List Bool
  pub names : List Text

pub non_empty : List Text → List Text
non_empty [] = []
non_empty (v ∷ vs) = let rest = non_empty vs in if is_empty v then rest else v ∷ rest

with_comma_behind : Text → Text
with_comma_behind [] = []
with_comma_behind (c ∷ cs) = c ∷ cs ++ b',' ∷ []

-- what the loop over the right children has so far: `c`, and what it appends to the three lists
abbrev Right : Type 0
Right = Text × List Text × List Bool × List Text

add_right : Group → Right → Right
unfolding non_empty
add_right g (c, typs, indexed, names) = (
  if is_empty g.text then c else trim_right is_comma g.text ++ b',' ∷ [],
  typs ++ non_empty g.typs,
  indexed ++ g.indexed,
  names ++ g.names,
)

tuple_text : Text → Text → Text
tuple_text s b = if is_empty s then b else b'(' ∷ trim_right is_comma s ++ b')' ∷ []

-- the lists of a level: those of the left part, of the tuple and of the right part
gather : Bool → Text → List Bool → List Text → Text → Bool → Text → Right → Group
unfolding with_comma_behind non_empty
gather include left indexed names b tuple_indexed tuple_name (c, rtyps, rindexed, rnames) =
    let with_tuple_here = include && not (is_empty b) in
    record {
      text = trim_right is_comma (with_comma_behind left ++ with_comma_behind b ++ c);
      typs =
          (if include then non_empty (split b',' left) else [])
          ++ (if with_tuple_here then b ∷ [] else [])
          ++ rtyps;
      indexed =
          (if include then indexed else [])
          ++ (if with_tuple_here then tuple_indexed ∷ [] else [])
          ++ rindexed;
      names =
          (if include then names else [])
          ++ (if with_tuple_here then tuple_name ∷ [] else [])
          ++ rnames;
    }

unfoldable mutual
  unfolding gather add_right tuple_text

  -- it has no error to return
  pub group_abi_signature_tree : Bool → Tree → Group
  group_abi_signature_tree include
        (node left indexed names tuple array tuple_indexed tuple_name right) =
      gather include left indexed names (group_tuples tuple [] ++ array) tuple_indexed tuple_name
        (group_rights right ([], [], [], []))

  -- the loop over the tuples, with `b` so far
  pub group_tuples : Trees → Text → Text
  group_tuples nil b = b
  group_tuples (cons t ts) b =
      group_tuples ts (tuple_text (group_abi_signature_tree false t).text b)

  pub group_rights : Trees → Right → Right
  group_rights nil r = r
  group_rights (cons t ts) r = group_rights ts (add_right (group_abi_signature_tree true t) r)
