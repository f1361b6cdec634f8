-- ===== src/Ethcoder/AbiSig/Args/Wellformed.antt =====
-- The trees of `parseABISignatureArgs` hold as many flags and names as types.
use ethkit.Prelude.{ℕ, zero, suc, refl, Option, none, some, List, [], ◌∷◌, Bool-cases, inl, inr}
use ethkit.Ethcoder.Text.{Text, is_empty, trim_space}
use ethkit.Ethcoder.AbiSig.Tree.{Result, ok, fails, Tree, Trees}
use ethkit.Ethcoder.AbiSig.Left.{Left, parse_left}
use ethkit.Ethcoder.AbiSig.Left.Fields.{Fields, SomeFields, parse_left-SomeFields}
use ethkit.Ethcoder.AbiSig.Tuple.{Tuple}
use ethkit.Ethcoder.AbiSig.Group.Lists.{Parts, IsWell, AreWell}
use ethkit.Ethcoder.AbiSig.Args.{
  with_comma, Self, no_tuple, only, parse_some, node_of, join_right, join_inner, join_left,
  with_tuple, three_parts, past_comma, at_close, from_open, at_open, parse_trimmed,
  parse_abi_signature_args,
}

abbrev pub MayBeWell : Result Tree → Type 0
MayBeWell (ok t) = IsWell t
MayBeWell (fails e) = Unit

abbrev MayAllBeWell : Result Trees → Type 0
MayAllBeWell (ok ts) = AreWell ts
MayAllBeWell (fails e) = Unit

abbrev parts_of : {ts : List Text} {l : Left} → Fields ts l → Parts l.s l.indexed l.names
parts_of {ts} f = record {
  typs = ts;
  text = f.text;
  flags = f.flags;
  named = f.named;
  are_typs = f.typs;
}

only-MayAllBeWell : (r : Result Tree) → MayBeWell r → MayAllBeWell (only r)
unfolding only IsWell
only-MayAllBeWell (ok t) h = (h, tt)
only-MayAllBeWell (fails e) h = tt

node_of-IsWell :
    (l : Left) (t : Tuple) (inner right : Trees)
    → Parts l.s l.indexed l.names
    → AreWell right
    → IsWell (node_of l t inner right)
unfolding node_of IsWell
node_of-IsWell l t inner right p h = elim (Bool-cases (is_empty t.inside)) [
  | inl e ↦ rw e (p, h)
  | inr e ↦ rw e (p, h)
]

join_right-MayBeWell :
    (l : Left) (t : Tuple) (inner : Trees) (r : Result Trees)
    → Parts l.s l.indexed l.names
    → MayAllBeWell r
    → MayBeWell (join_right l t inner r)
unfolding join_right
join_right-MayBeWell l t inner (ok right) p h = node_of-IsWell l t inner right p h
join_right-MayBeWell l t inner (fails e) p h = tt

module _ (self : Self) (well : (s : Text) → MayBeWell (self s)) where
  parse_some-MayAllBeWell : (p : Text) → MayAllBeWell (parse_some self p)
  unfolding parse_some IsWell
  parse_some-MayAllBeWell p = elim (Bool-cases (is_empty p)) [
    | inl e ↦ rw e tt
    | inr e ↦ rw e (only-MayAllBeWell (self p) (well p))
  ]

  join_inner-MayBeWell :
      (l : Left) (t : Tuple) (r : Result Trees) (p3 : Text)
      → Parts l.s l.indexed l.names
      → MayBeWell (join_inner self l t r p3)
  unfolding join_inner
  join_inner-MayBeWell l t (ok inner) p3 p =
      join_right-MayBeWell l t inner (parse_some self p3) p (parse_some-MayAllBeWell p3)
  join_inner-MayBeWell l t (fails e) p3 p = tt

  join_left-MayBeWell :
      (r : Result Left) (t : Tuple) (p3 : Text) → SomeFields r → MayBeWell (join_left self r t p3)
  unfolding join_left
  join_left-MayBeWell (ok l) t p3 (ts, f) =
      join_inner-MayBeWell l t (parse_some self t.inside) p3 (parts_of f)
  join_left-MayBeWell (fails e) t p3 h = tt

  with_tuple-MayBeWell :
      (p1 : Text) (r : Result Tuple) (p3 : Text) → MayBeWell (with_tuple self p1 r p3)
  unfolding with_tuple
  with_tuple-MayBeWell p1 (ok t) p3 =
      join_left-MayBeWell (parse_left p1) t p3 (parse_left-SomeFields p1)
  with_tuple-MayBeWell p1 (fails e) p3 = tt

  three_parts-MayBeWell : (p q r : Option Text) → MayBeWell (three_parts self p q r)
  unfolding three_parts
  three_parts-MayBeWell none q r = tt
  three_parts-MayBeWell (some p) none r = tt
  three_parts-MayBeWell (some p) (some q) none = tt
  three_parts-MayBeWell (some p) (some q) (some r) = with_tuple-MayBeWell _ _ _

  past_comma-MayBeWell :
      (args : Text) (a z1 : ℕ) (o : Option Text) → MayBeWell (past_comma self args a z1 o)
  unfolding past_comma
  past_comma-MayBeWell args a z1 none = tt
  past_comma-MayBeWell args a z1 (some rest) = three_parts-MayBeWell _ _ _

  at_close-MayBeWell : (args : Text) (a : ℕ) (o : Option ℕ) → MayBeWell (at_close self args a o)
  unfolding at_close
  at_close-MayBeWell args a none = tt
  at_close-MayBeWell args a (some z) = past_comma-MayBeWell args a _ _

  from_open-MayBeWell :
      (args : Text) (a : ℕ) (o : Option Text) → MayBeWell (from_open self args a o)
  unfolding from_open
  from_open-MayBeWell args a none = tt
  from_open-MayBeWell args a (some rest) = at_close-MayBeWell args a _

  at_open-MayBeWell : (args : Text) (o : Option ℕ) → MayBeWell (at_open self args o)
  unfolding at_open
  at_open-MayBeWell args none =
      join_left-MayBeWell (parse_left args) no_tuple [] (parse_left-SomeFields args)
  at_open-MayBeWell args (some a) = from_open-MayBeWell args a _

  parse_trimmed-MayBeWell : (s : Text) → MayBeWell (parse_trimmed self s)
  unfolding parse_trimmed IsWell
  parse_trimmed-MayBeWell [] =
      (record { typs = []; text = refl; flags = refl; named = refl; are_typs = tt }, tt)
  parse_trimmed-MayBeWell (c ∷ cs) = at_open-MayBeWell (with_comma (c ∷ cs)) _

-- The tree that comes back is well formed, whatever the text and the fuel.
pub parse_abi_signature_args-MayBeWell :
    (n : ℕ) (event_args : Text) → MayBeWell (parse_abi_signature_args n event_args)
unfolding parse_abi_signature_args
parse_abi_signature_args-MayBeWell zero event_args = tt
parse_abi_signature_args-MayBeWell (suc n) event_args =
    parse_trimmed-MayBeWell (parse_abi_signature_args n)
      (λ s. parse_abi_signature_args-MayBeWell n s) (trim_space event_args)
