-- ===== src/Ethcoder/AbiSig/Parens/Balance.antt =====
-- `findParensCloseIndex` finds the parenthesis that closes the first one.
use ethkit.Prelude.{
  ℕ, zero, suc, ◌+◌, ◌≡◌, ◌≢◌, refl, subst, sym, ap, ap₂, ◌∙◌, ==_iff, Option, some, [], ◌∷◌, ◌++◌,
  append_assoc, length, arith, ◌==◌, Bool-cases, inl, inr, if◌then◌else◌,
}
use ethkit.Ethcoder.Text.{Text}
use ethkit.Ethcoder.AbiSig.Parens.{close_from, find_parens_close_index}

-- Each parenthesis is closed inside.
pub data Balanced : Text → Type 0 where
  blank : Balanced []
  plain : {c : ℕ} {s : Text} → c ≢ b'(' → c ≢ b')' → Balanced s → Balanced (c ∷ s)
  nested : {a s t : Text} → Balanced a → Balanced s → t ≡ b'(' ∷ a ++ b')' ∷ s → Balanced t

-- Up to the parenthesis that closes the outermost of so many open ones.
data Levels : ℕ → Text → Type 0 where
  flat : {s : Text} → Balanced s → Levels 0 s
  closed : {k : ℕ} {a s t : Text} → Balanced a → Levels k s → t ≡ a ++ b')' ∷ s → Levels (suc k) t

Levels-plain : {k : ℕ} {c : ℕ} {s : Text} → c ≢ b'(' → c ≢ b')' → Levels k s → Levels k (c ∷ s)
Levels-plain {c = c} p q (flat b) = flat (plain p q b)
Levels-plain {c = c} p q (closed b l e) = closed (plain p q b) l (ap (λ t. c ∷ t) e)

Levels-nested : {k : ℕ} {a s : Text} → Balanced a → Levels k s → Levels k (b'(' ∷ a ++ b')' ∷ s)
Levels-nested b (flat d) = flat (nested b d refl)
Levels-nested {a = a} b (closed {a = a'} {s = s'} d l e) = closed (nested b d refl) l (
    ap (λ t. b'(' ∷ a ++ b')' ∷ t) e
    ∙ ap (λ t. b'(' ∷ t) (sym (append_assoc a (b')' ∷ a') (b')' ∷ s'))))

-- One more parenthesis opens in front.
Levels-open : {k : ℕ} {s : Text} → Levels (suc k) s → Levels k (b'(' ∷ s)
Levels-open {k} (closed {a = a} {s = s'} b l e) =
    subst (λ t. Levels k (b'(' ∷ t)) (sym e) (Levels-nested b l)

-- The index `j`, counted from `i`, is where the outermost of `suc k` open parentheses is closed.
abbrev Found : ℕ → ℕ → ℕ → Text → Type 0
Found i j k s =
    (front : Text) × (rest : Text) × ◌≡◌ {A = Text} s (front ++ b')' ∷ rest)
    × (j ≡ i + length front)
    × Levels k front

Found-opened :
    (i j k c : ℕ) (cs : Text) → c ≡ b'(' → Found (suc i) j (suc k) cs → Found i j k (c ∷ cs)
Found-opened i j k c cs e (front, rest, split, place, levels) =
    (b'(' ∷ front, rest, ap₂ (λ x xs. x ∷ xs) e split, omega arith, Levels-open levels)

Found-plain :
    (i j k c : ℕ) (cs : Text) → c ≢ b'(' → c ≢ b')' → Found (suc i) j k cs → Found i j k (c ∷ cs)
Found-plain i j k c cs p q (front, rest, split, place, levels) =
    (c ∷ front, rest, ap (λ xs. c ∷ xs) split, omega arith, Levels-plain p q levels)

Found-closed :
    (i j c opened closed' k : ℕ) (cs : Text) (o : Option ℕ)
    → c ≡ b')'
    → opened ≡ closed' + suc k
    → (if suc closed' == opened then some i else o) ≡ some j
    → ((k' : ℕ) → opened ≡ suc closed' + suc k' → o ≡ some j → Found (suc i) j k' cs)
    → Found i j k (c ∷ cs)
Found-closed i j c opened closed' zero cs o e p h later =
    ([], cs, ap (λ x. x ∷ cs) e, ground arith, flat blank)
Found-closed i j c opened closed' (suc k) cs o e p h later =
    let (front, rest, split, place, levels) = later k (omega arith) (ground arith) in
    (
      c ∷ front,
      rest,
      ap (λ xs. c ∷ xs) split,
      omega arith,
      closed blank levels (ap (λ x. x ∷ front) e),
    )

close_from-Found :
    (i opened closed' k j : ℕ) (s : Text)
    → opened ≡ closed' + suc k
    → close_from i opened closed' s ≡ some j
    → Found i j k s
unfolding close_from
close_from-Found i opened closed' k j [] o h = cc
close_from-Found i opened closed' k j (c ∷ cs) o h = elim (Bool-cases (c == b'(')) [
  | inl t ↦
      Found-opened i j k c cs ((==_iff _ _).0 t)
        (close_from-Found (suc i) (suc opened) closed' (suc k) j cs (omega arith) (rw t at h))
  | inr t ↦ elim (Bool-cases (c == b')')) [
    | inl u ↦
        Found-closed i j c opened closed' k cs _ ((==_iff _ _).0 u) o (rw (t, u) at h)
          (λ k' p. close_from-Found (suc i) opened (suc closed') k' j cs p)
    | inr u ↦
        Found-plain i j k c cs (ground arith) (ground arith)
          (close_from-Found (suc i) opened closed' k j cs o (rw (t, u) at h))
  ]
]

-- Where an index comes back, the text holds a closing parenthesis there.
pub find_parens_close_index-some :
    (args : Text) (z : ℕ)
    → find_parens_close_index (b'(' ∷ args) ≡ some z
    → (front : Text) × (rest : Text) × (args ≡ front ++ b')' ∷ rest) × (z ≡ 1 + length front)
unfolding find_parens_close_index close_from
find_parens_close_index-some args z h =
    let (front, rest, split, place, levels) = close_from-Found 1 1 0 0 z args refl h in
    (front, rest, split, place)
