-- ===== src/Ethcoder/AbiSig/Group/Lists.antt =====
-- The lists of `groupABISignatureTree` have one length.
use ethkit.Prelude.{
  ◌≡◌, refl, sym, ap, ◌∙◌, Bool, true, false, not, List, [], ◌∷◌, ◌++◌, length, length-append,
  arith, All, All-append, All-map, Bool-cases, inl, inr, if◌then◌else◌,
}
use ethkit.Ethcoder.Text.{Text, is_empty, split}
use ethkit.Ethcoder.Text.Pieces.{joined_by, split-joined_by}
use ethkit.Ethcoder.AbiSig.Tree.{Tree, Trees, node, nil, cons}
use ethkit.Ethcoder.AbiSig.Left.Fields.{IsTyp}
use ethkit.Ethcoder.AbiSig.Group.{
  Group, Right, non_empty, gather, add_right, group_abi_signature_tree, group_tuples, group_rights,
}

-- The left part is types joined by commas, with a flag and a name for each.
pub record Parts (left : Text) (indexed : List Bool) (names : List Text) : Type 0 where
  pub typs : List Text
  pub text : left ≡ joined_by b',' typs
  pub flags : length indexed ≡ length typs
  pub named : length names ≡ length typs
  pub are_typs : All IsTyp typs

-- What the parser makes: it is so in the tree, and in the trees on its right.
unfoldable mutual
  pub IsWell : Tree → Type 0
  IsWell (node left indexed names tuple array tuple_indexed tuple_name right) =
      Parts left indexed names × AreWell right

  pub AreWell : Trees → Type 0
  AreWell nil = Unit
  AreWell (cons t ts) = IsWell t × AreWell ts

abbrev pub IsFull : Text → Type 0
IsFull t = is_empty t ≡ false

-- Three lists of one length, in the first of which no text is empty.
abbrev pub Even : List Text → List Bool → List Text → Type 0
Even typs indexed names =
    (length indexed ≡ length typs) × (length names ≡ length typs) × All IsFull typs

abbrev EvenRight : Right → Type 0
EvenRight (c, typs, indexed, names) = Even typs indexed names

non_empty-IsFull : (xs : List Text) → All IsFull (non_empty xs)
unfolding non_empty
non_empty-IsFull [] = tt
non_empty-IsFull (x ∷ xs) = elim (Bool-cases (is_empty x)) [
  | inl t ↦ rw t (non_empty-IsFull xs)
  | inr t ↦ rw t (t, non_empty-IsFull xs)
]

Even-append :
    (ts ts' : List Text) (bs bs' : List Bool) (ns ns' : List Text)
    → Even ts bs ns
    → Even ts' bs' ns'
    → Even (ts ++ ts') (bs ++ bs') (ns ++ ns')
Even-append ts ts' bs bs' ns ns' (a, b, c) (a', b', c') = (
  omega (arith, length-append bs bs', length-append ts ts'),
  omega (arith, length-append ns ns', length-append ts ts'),
  All-append IsFull ts ts' c c',
)

non_empty_same : (ts : List Text) → All IsFull ts → non_empty ts ≡ ts
unfolding non_empty
non_empty_same [] h = refl
non_empty_same (t ∷ ts) (full, h) = rw full (ap (λ l. t ∷ l) (non_empty_same ts h))

pub non_empty-split :
    (ts : List Text) → All IsTyp ts → non_empty (split b',' (joined_by b',' ts)) ≡ ts
unfolding non_empty split
non_empty-split [] h = refl
non_empty-split (t ∷ ts) h =
    ap non_empty (split-joined_by b',' t ts (All-map (t ∷ ts) (λ x y. y.0) h))
    ∙ non_empty_same (t ∷ ts) (All-map (t ∷ ts) (λ x y. y.1) h)

Even-parts :
    (left : Text) (indexed : List Bool) (names : List Text)
    → Parts left indexed names
    → Even (non_empty (split b',' left)) indexed names
Even-parts left indexed names p =
    let e = ap (λ x. non_empty (split b',' x)) p.text ∙ non_empty-split p.typs p.are_typs in
    (p.flags ∙ ap length (sym e), p.named ∙ ap length (sym e), non_empty-IsFull (split b',' left))

Even-tuple :
    (b : Text) (indexed : Bool) (name : Text)
    → let here = not (is_empty b) in
      Even
        (if here then b ∷ [] else [])
        (if here then indexed ∷ [] else [])
        (if here then name ∷ [] else [])
Even-tuple b indexed name = elim (Bool-cases (is_empty b)) [
  | inl t ↦ rw t (refl, refl, tt)
  | inr t ↦ rw t (refl, refl, (t, tt))
]

-- `g`'s three lists.
abbrev pub IsEven : Group → Type 0
IsEven g = Even g.typs g.indexed g.names

gather-IsEven :
    (left : Text) (indexed : List Bool) (names : List Text) (b : Text) (tuple_indexed : Bool)
    (tuple_name : Text) (r : Right)
    → Parts left indexed names
    → EvenRight r
    → IsEven (gather true left indexed names b tuple_indexed tuple_name r)
unfolding gather
gather-IsEven left indexed names b tuple_indexed tuple_name (c, rtyps, rindexed, rnames) p h =
    Even-append _ rtyps _ rindexed _ rnames
      (Even-append (non_empty (split b',' left)) _ indexed _ names _
        (Even-parts left indexed names p) (Even-tuple b tuple_indexed tuple_name))
      h

EvenRight-add : (g : Group) (r : Right) → IsEven g → EvenRight r → EvenRight (add_right g r)
unfolding add_right
EvenRight-add g (c, typs, indexed, names) (x, y, z) h =
    rw (non_empty_same g.typs z)
      (Even-append typs g.typs indexed g.indexed names g.names h (x, y, z))

mutual
  unfolding group_abi_signature_tree IsWell

  pub group_abi_signature_tree-IsEven :
      (t : Tree) → IsWell t → IsEven (group_abi_signature_tree true t)
  group_abi_signature_tree-IsEven
        (node left indexed names tuple array tuple_indexed tuple_name right) (p, h) =
      gather-IsEven left indexed names (group_tuples tuple [] ++ array) tuple_indexed tuple_name
        (group_rights right ([], [], [], [])) p
        (group_rights-EvenRight right ([], [], [], []) h (refl, refl, tt))

  group_rights-EvenRight :
      (ts : Trees) (r : Right) → AreWell ts → EvenRight r → EvenRight (group_rights ts r)
  group_rights-EvenRight nil r h k = k
  group_rights-EvenRight (cons t ts) r (w, h) k =
      group_rights-EvenRight ts (add_right (group_abi_signature_tree true t) r) h
        (EvenRight-add (group_abi_signature_tree true t) r (group_abi_signature_tree-IsEven t w) k)
