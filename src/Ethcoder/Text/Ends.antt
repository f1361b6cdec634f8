-- ===== src/Ethcoder/Text/Ends.antt =====
-- Texts by their two ends.
use ethkit.Prelude.{
  ℕ, ◌+◌, ◌≡◌, refl, sym, ap, ap₂, subst, ◌∙◌, Bool, true, false, none, some, [], ◌∷◌, ◌++◌,
  append_assoc, take, drop, take-length-append, drop-length-append, length, length-append, arith,
  All, ◌==◌, ==_refl,
}
use ethkit.Ethcoder.Text.{
  Text, is_space, keep_or_trim, trim_right, trim_space, index, last_of, last_index, count, slice,
}
use ethkit.Ethcoder.Text.Trimming.{trim_right-cons, trim_space-cons}
use ethkit.Ethcoder.Text.Splitting.{slice_lem}
use ethkit.Ethcoder.Text.Pieces.{Free}

-- The text ends in a byte that is not trimmed.
abbrev pub EndsIn : (ℕ → Type 0) → Text → Type 0
EndsIn P s = (front : Text) × (c : ℕ) × ◌≡◌ {A = Text} s (front ++ c ∷ []) × P c

pub EndsIn-append : (P : ℕ → Type 0) (s t : Text) → EndsIn P t → EndsIn P (s ++ t)
EndsIn-append P s t (front, c, e, p) =
    (s ++ front, c, ap (λ l. s ++ l) e ∙ sym (append_assoc s front (c ∷ [])), p)

pub EndsIn-All : (P : ℕ → Type 0) (c : ℕ) (s : Text) → All P (c ∷ s) → EndsIn P (c ∷ s)
EndsIn-All P c [] (p, h) = ([], c, refl, p)
EndsIn-All P c (d ∷ s) (p, h) = EndsIn-append P (c ∷ []) (d ∷ s) (EndsIn-All P d s h)

keep_or_trim-snoc :
    (t : Bool) (x : ℕ) (s : Text) (c : ℕ) → keep_or_trim t x (s ++ c ∷ []) ≡ x ∷ s ++ c ∷ []
unfolding keep_or_trim
keep_or_trim-snoc true x [] c = refl
keep_or_trim-snoc false x [] c = refl
keep_or_trim-snoc true x (y ∷ s) c = refl
keep_or_trim-snoc false x (y ∷ s) c = refl

trim_right-snoc :
    (test : ℕ → Bool) (s : Text) (c : ℕ)
    → test c ≡ false
    → trim_right test (s ++ c ∷ []) ≡ s ++ c ∷ []
unfolding trim_right
trim_right-snoc test [] c h = trim_right-cons test c [] h
trim_right-snoc test (x ∷ s) c h =
    ap (keep_or_trim (test x) x) (trim_right-snoc test s c h) ∙ keep_or_trim-snoc (test x) x s c

-- A text that ends in a byte that is not trimmed stays.
pub trim_right_same :
    (test : ℕ → Bool) (s : Text) → EndsIn (λ c. test c ≡ false) s → trim_right test s ≡ s
trim_right_same test s (front, c, e, h) =
    ap (trim_right test) e ∙ trim_right-snoc test front c h ∙ sym e

pub trim_space_same :
    (c : ℕ) (s : Text)
    → is_space c ≡ false
    → EndsIn (λ x. is_space x ≡ false) (c ∷ s)
    → trim_space (c ∷ s) ≡ c ∷ s
trim_space_same c s h e =
    trim_space-cons c s h
    ∙ sym (trim_right-cons is_space c s h)
    ∙ trim_right_same is_space (c ∷ s) e

pub index-Free : (c : ℕ) (s : Text) → Free c s → index c s ≡ none
unfolding index
index-Free c [] h = refl
index-Free c (x ∷ s) (p, h) =
    let other : (x == c) ≡ false = ground arith in rw (other, index-Free c s h) refl

pub index-append : (c : ℕ) (s t : Text) → Free c s → index c (s ++ c ∷ t) ≡ some (length s)
unfolding index
index-append c [] t h = rw (==_refl c) refl
index-append c (x ∷ s) t (p, h) =
    let other : (x == c) ≡ false = ground arith in rw (other, index-append c s t h) refl

pub last_index-snoc : (c : ℕ) (s : Text) → last_index c (s ++ c ∷ []) ≡ some (length s)
unfolding last_index last_of
last_index-snoc c [] = rw (==_refl c) refl
last_index-snoc c (x ∷ s) = rw (last_index-snoc c s) refl

pub count-append : (c : ℕ) (s t : Text) → count c (s ++ t) ≡ count c s + count c t
unfolding count
count-append c [] t = omega arith
count-append c (x ∷ s) t = ground (arith, count-append c s t)

pub count-Free : (c : ℕ) (s : Text) → Free c s → count c s ≡ 0
unfolding count
count-Free c [] h = refl
count-Free c (x ∷ s) (p, h) =
    let other : (x == c) ≡ false = ground arith in rw (other, count-Free c s h) refl

-- What stands between two bytes.
pub slice-middle :
    (c d : ℕ) (s t : Text)
    → slice (length s + 1) (length (s ++ c ∷ t)) ((s ++ c ∷ t) ++ d ∷ []) ≡ some t
slice-middle c d s t =
    let whole = (s ++ c ∷ t) ++ d ∷ [] in
    let long = length-append s (c ∷ t) in
    let (there, n) =
      slice_lem (length s + 1) (length (s ++ c ∷ t)) whole (omega (arith, long))
        (omega (arith, length-append (s ++ c ∷ t) (d ∷ []))) in
    let dropped : drop (length s + 1) whole ≡ t ++ d ∷ [] =
      ap₂ drop (omega (arith, length-append s (c ∷ [])))
        (append_assoc s (c ∷ t) (d ∷ []) ∙ sym (append_assoc s (c ∷ []) (t ++ d ∷ [])))
      ∙ drop-length-append (s ++ c ∷ []) (t ++ d ∷ []) in
    there ∙ ap some (ap₂ take (omega (arith, long)) dropped ∙ take-length-append t (d ∷ []))

abbrev pub StartsIn : (ℕ → Type 0) → Text → Type 0
StartsIn P s = (c : ℕ) × (r : Text) × ◌≡◌ {A = Text} s (c ∷ r) × P c

pub StartsIn-append : (P : ℕ → Type 0) (s t : Text) → StartsIn P s → StartsIn P (s ++ t)
StartsIn-append P s t (c, r, e, p) = (c, r ++ t, ap (λ l. l ++ t) e, p)

-- A text that neither starts nor ends in a space.
pub trim_space-solid :
    (s : Text)
    → StartsIn (λ x. is_space x ≡ false) s
    → EndsIn (λ x. is_space x ≡ false) s
    → trim_space s ≡ s
trim_space-solid s (c, r, e, h) ends =
    ap trim_space e
    ∙ trim_space_same c r h (subst (EndsIn (λ x. is_space x ≡ false)) e ends)
    ∙ sym e

pub trim_right-last :
    (test : ℕ → Bool) (s : Text) (c : ℕ)
    → test c ≡ true
    → trim_right test (s ++ c ∷ []) ≡ trim_right test s
unfolding trim_right keep_or_trim
trim_right-last test [] c h = ap (λ t. keep_or_trim t c []) h
trim_right-last test (x ∷ s) c h = ap (keep_or_trim (test x) x) (trim_right-last test s c h)
