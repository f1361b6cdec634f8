-- ===== src/Ethcoder/AbiSig/Left/Fields.antt =====
-- The arguments before the first tuple: as many flags and names as types.
use ethkit.Prelude.{
  ℕ, ◌-◌, ltb, ◌≡◌, ◌≢◌, refl, sym, ap, subst, ◌∙◌, Bool, true, false, List, [], ◌∷◌, ◌++◌, take,
  length, length-append, arith, All, All-append, Bool-cases, inl, inr,
}
use ethkit.Ethcoder.Text.{Text, is_empty, is_space, trim_left, trim_right, trim_space, split}
use ethkit.Ethcoder.Text.Trimming.{trim_space-cons}
use ethkit.Ethcoder.Text.Pieces.{
  Free, All-trim_space, All-split, split-Free, split-cons, each_with, joined_by, each_with-snoc,
  take-each_with, trim_space-starts,
}
use ethkit.Ethcoder.AbiSig.Tree.{Result, ok, fails}
use ethkit.Ethcoder.AbiSig.Left.{
  Left, is_indexed, add_flag, add_type, add_unindexed, add_words, add_all, without_last,
  finish_left, left_of, no_left, parse_left,
}

-- A type: a text that is not empty, without a comma.
abbrev pub IsTyp : Text → Type 0
IsTyp t = Free b',' t × (is_empty t ≡ false)

-- What the loop has read so far.
pub record Holds (ts : List Text) (l : Left) : Type 0 where
  pub text : l.s ≡ each_with b',' ts
  pub flags : length l.indexed ≡ length ts
  pub named : length l.names ≡ length ts
  pub typs : All IsTyp ts

Holds-add :
    (b : Bool) (name typ : Text) (ts : List Text) (l : Left)
    → IsTyp typ
    → Holds ts l
    → Holds (ts ++ typ ∷ []) (add_type typ (add_flag b name l))
unfolding add_type add_flag
Holds-add b name typ ts l (free, full) h = rw full (record {
  text = ap (λ x. x ++ (typ ++ b',' ∷ [])) h.text ∙ sym (each_with-snoc b',' ts typ);
  flags = omega (arith, h.flags, length-append l.indexed (b ∷ []), length-append ts (typ ∷ []));
  named = omega (arith, h.named, length-append l.names (name ∷ []), length-append ts (typ ∷ []));
  typs = All-append IsTyp ts (typ ∷ []) h.typs ((free, full), tt);
})

-- Some types, as the loop holds them.
abbrev pub SomeHeld : Result Left → Type 0
SomeHeld (ok l) = (ts : List Text) × Holds ts l
SomeHeld (fails e) = Unit

module _ (c : ℕ) (q : Text) (solid : is_space c ≡ false) (free : Free b',' (c ∷ q)) where
  first-IsTyp : IsTyp (trim_space (c ∷ q))
  first-IsTyp =
      (All-trim_space (λ x. x ≢ b',') (c ∷ q) free, ap is_empty (trim_space-cons c q solid))

  add_words-first :
      (ps : List Text) (ts : List Text) (l : Left)
      → Holds ts l
      → SomeHeld (add_words ((c ∷ q) ∷ ps) l)
  unfolding add_words add_unindexed
  add_words-first [] ts l h = (_, Holds-add false [] _ ts l first-IsTyp h)
  add_words-first (k ∷ []) ts l h = elim (Bool-cases (is_indexed k)) [
    | inl t ↦ rw t (_, Holds-add true [] _ ts l first-IsTyp h)
    | inr t ↦ rw t (_, Holds-add false k _ ts l first-IsTyp h)
  ]
  add_words-first (k ∷ name ∷ []) ts l h = elim (Bool-cases (is_indexed k)) [
    | inl t ↦ rw t (_, Holds-add true name _ ts l first-IsTyp h)
    | inr t ↦ rw t tt
  ]
  add_words-first (k ∷ name ∷ w ∷ ws) ts l h = tt

add_words_blank : (ts : List Text) (l : Left) → Holds ts l → SomeHeld (add_words (split b' ' []) l)
unfolding add_words add_unindexed add_type split trim_space trim_left trim_right
add_words_blank ts l h = (ts, h)

add_words-SomeHeld :
    (p : Text) (ts : List Text) (l : Left)
    → Free b',' p
    → Holds ts l
    → SomeHeld (add_words (split b' ' (trim_space p)) l)
add_words-SomeHeld p ts l free h = elim (trim_space-starts p) [
  | inl e ↦ rw e (add_words_blank ts l h)
  | inr (c, r, solid, e) ↦
      let (q, ps, first) = split-cons b' ' c r (ground arith) in
      let all =
        All-split (λ x. x ≢ b',') b' ' (trim_space p) (All-trim_space (λ x. x ≢ b',') p free) in
      let pieces : split b' ' (trim_space p) ≡ (c ∷ q) ∷ ps = ap (split b' ') e ∙ first in
      rw pieces (add_words-first c q solid (subst (All (Free b',')) pieces all).0 ps ts l h)
]

add_all-SomeHeld :
    (ps : List Text) (r : Result Left) → All (Free b',') ps → SomeHeld r → SomeHeld (add_all ps r)
unfolding add_all
add_all-SomeHeld [] (ok l) h k = k
add_all-SomeHeld [] (fails e) h k = tt
add_all-SomeHeld (p ∷ ps) (fails e) h k = tt
add_all-SomeHeld (p ∷ ps) (ok l) (f, h) (ts, k) =
    add_all-SomeHeld ps (add_words (split b' ' (trim_space p)) l) h (add_words-SomeHeld p ts l f k)

-- The types joined by commas, with a flag and a name for each.
pub record Fields (ts : List Text) (l : Left) : Type 0 where
  pub text : l.s ≡ joined_by b',' ts
  pub flags : length l.indexed ≡ length ts
  pub named : length l.names ≡ length ts
  pub typs : All IsTyp ts

abbrev pub SomeFields : Result Left → Type 0
SomeFields (ok l) = (ts : List Text) × Fields ts l
SomeFields (fails e) = Unit

pub without_last-take : (s : Text) → without_last s ≡ take (length s - 1) s
unfolding without_last
without_last-take [] = refl
without_last-take (c ∷ cs) =
    let long : ltb 0 (length (c ∷ cs)) ≡ true = ground arith in rw long refl

left_of-SomeFields : (r : Result Left) → SomeHeld r → SomeFields (left_of r)
unfolding left_of finish_left
left_of-SomeFields (ok l) (ts, h) = (
  ts,
  record {
    text = without_last-take l.s ∙ ap (λ s. take (length s - 1) s) h.text ∙ take-each_with b',' ts;
    flags = h.flags;
    named = h.named;
    typs = h.typs;
  },
)
left_of-SomeFields (fails e) h = tt

pub parse_left-SomeFields : (p1 : Text) → SomeFields (parse_left p1)
unfolding parse_left
parse_left-SomeFields p1 = elim (Bool-cases (is_empty p1)) [
  | inl t ↦ rw t ([], record { text = refl; flags = refl; named = refl; typs = tt })
  | inr t ↦ rw t (
      left_of-SomeFields _ (
        add_all-SomeHeld (split b',' p1) (ok no_left) (split-Free b',' p1)
          ([], record { text = refl; flags = refl; named = refl; typs = tt })))
]
