-- ===== src/Prelude/Lists.antt =====
-- Lists measured by native numbers, under the library's names, and lists taken apart at their end.
use Prim.Native.Nat.{ℕ, zero, suc, ◌+◌, ◌-◌, ◌<◌}
use mathlib.Core.Path.{◌≡◌, refl, ap}
use mathlib.Core.Logic.{◌⊎◌, inl, inr}
use mathlib.Core.List.{List, [], ◌∷◌, ◌++◌, reverse, reverse-cons, get_last?, drop_last}
use mathlib.Core.Option.{Option, none, some}
use native.Mathlib.Omega.{arith}

module _ {ℓ} {A : Type ℓ} where
  abbrev pub length : List A → ℕ
  length [] = 0
  length (x ∷ xs) = suc (length xs)

  abbrev pub get_elem? : List A → ℕ → Option A
  get_elem? [] i = none
  get_elem? (x ∷ xs) zero = some x
  get_elem? (x ∷ xs) (suc i) = get_elem? xs i

  abbrev pub take : ℕ → List A → List A
  take zero xs = []
  take (suc n) [] = []
  take (suc n) (x ∷ xs) = x ∷ take n xs

  abbrev pub drop : ℕ → List A → List A
  drop zero xs = xs
  drop (suc n) [] = []
  drop (suc n) (x ∷ xs) = drop n xs

  pub length-append : (xs ys : List A) → length (xs ++ ys) ≡ length xs + length ys
  length-append [] ys = omega arith
  length-append (x ∷ xs) ys = omega (arith, length-append xs ys)

  pub length-drop : (n : ℕ) (xs : List A) → length (drop n xs) ≡ length xs - n
  length-drop zero xs = omega arith
  length-drop (suc n) [] = omega arith
  length-drop (suc n) (x ∷ xs) = omega (arith, length-drop n xs)

  pub take-length-append : (xs ys : List A) → take (length xs) (xs ++ ys) ≡ xs
  take-length-append [] ys = refl
  take-length-append (x ∷ xs) ys = ap (λ l. x ∷ l) (take-length-append xs ys)

  pub drop-length-append : (xs ys : List A) → drop (length xs) (xs ++ ys) ≡ ys
  drop-length-append [] ys = refl
  drop-length-append (x ∷ xs) ys = drop-length-append xs ys

  pub get_last?-snoc : (xs : List A) (x : A) → get_last? (xs ++ x ∷ []) ≡ some x
  get_last?-snoc [] x = refl
  get_last?-snoc (y ∷ []) x = refl
  get_last?-snoc (y ∷ z ∷ xs) x = get_last?-snoc (z ∷ xs) x

  pub drop_last-snoc : (xs : List A) (x : A) → drop_last (xs ++ x ∷ []) ≡ xs
  drop_last-snoc [] x = refl
  drop_last-snoc (y ∷ []) x = refl
  drop_last-snoc (y ∷ z ∷ xs) x = ap (λ l. y ∷ l) (drop_last-snoc (z ∷ xs) x)

  snoc_step :
      (x : A) (xs : List A)
      → (xs ≡ []) ⊎ ((ys : List A) × (y : A) × (xs ≡ ys ++ y ∷ []))
      → (ys : List A) × (y : A) × (x ∷ xs ≡ ys ++ y ∷ [])
  snoc_step x xs (inl e) = ([], x, ap (λ l. x ∷ l) e)
  snoc_step x xs (inr (ys, y, e)) = (x ∷ ys, y, ap (λ l. x ∷ l) e)

  -- A list is empty or has a last element.
  pub snoc-cases : (xs : List A) → (xs ≡ []) ⊎ ((ys : List A) × (y : A) × (xs ≡ ys ++ y ∷ []))
  snoc-cases [] = inl refl
  snoc-cases (x ∷ xs) = inr (snoc_step x xs (snoc-cases xs))

  pub get_last?-eq-none : (xs : List A) → get_last? xs ≡ none → xs ≡ []
  get_last?-eq-none [] e = refl
  get_last?-eq-none (x ∷ xs) e = cc

  last_part :
      (xs : List A) (x : A)
      → (xs ≡ []) ⊎ ((ys : List A) × (y : A) × (xs ≡ ys ++ y ∷ []))
      → get_last? xs ≡ some x
      → (ys : List A) × (xs ≡ ys ++ x ∷ [])
  last_part xs x (inl e) h = cc
  last_part xs x (inr (ys, y, e)) h = (ys, cc (get_last?-snoc ys y, ap get_last? e, h, e))

  pub get_last?-eq-some :
      (xs : List A) (x : A) → get_last? xs ≡ some x → (ys : List A) × (xs ≡ ys ++ x ∷ [])
  get_last?-eq-some xs x h = last_part xs x (snoc-cases xs) h

module _ {ℓ} {A : Type ℓ} where
  pub length-reverse : (xs : List A) → length (reverse xs) ≡ length xs
  length-reverse [] = refl
  length-reverse (x ∷ xs) =
      rw (reverse-cons x xs) (omega (arith, length-append (reverse xs) (x ∷ []), length-reverse xs))

  -- A list at an index within it is a front of that length, the element and the rest.
  pub get_elem?-split :
      (xs : List A) (i : ℕ)
      → i < length xs
      → (ys : List A) × (x : A) × (zs : List A) × (xs ≡ ys ++ x ∷ zs)
        × (length ys ≡ i)
        × (get_elem? xs i ≡ some x)
  get_elem?-split [] i h = absurd (omega arith)
  get_elem?-split (x ∷ xs) zero h = ([], x, xs, refl, refl, refl)
  get_elem?-split (x ∷ xs) (suc i) h =
      let (ys, y, zs, e, l, g) = get_elem?-split xs i (omega arith) in
      (x ∷ ys, y, zs, ap (λ t. x ∷ t) e, ap suc l, g)

module _ {ℓ} {A : Type ℓ} where
  pub get_elem?-ne-none : (xs : List A) (i : ℕ) → i < length xs → get_elem? xs i ≡ none → ⊥
  get_elem?-ne-none [] i h e = absurd (omega arith)
  get_elem?-ne-none (x ∷ xs) zero h e = cc
  get_elem?-ne-none (x ∷ xs) (suc i) h e = get_elem?-ne-none xs i (omega arith) e

module _ {ℓ κ} {A : Type ℓ} (P : A → Type κ) where
  abbrev pub All : List A → Type κ
  All [] = Unit
  All (x ∷ xs) = P x × All xs

  pub All-append : (xs ys : List A) → All xs → All ys → All (xs ++ ys)
  All-append [] ys hx hy = hy
  All-append (x ∷ xs) ys (p, hx) hy = (p, All-append xs ys hx hy)

  pub All-suffix : (xs ys : List A) → All (xs ++ ys) → All ys
  All-suffix [] ys h = h
  All-suffix (x ∷ xs) ys h = All-suffix xs ys h.1

  pub All-prefix : (xs ys : List A) → All (xs ++ ys) → All xs
  All-prefix [] ys h = tt
  All-prefix (x ∷ xs) ys h = (h.0, All-prefix xs ys h.1)

  pub All-reverse : (xs : List A) → All xs → All (reverse xs)
  All-reverse [] h = tt
  All-reverse (x ∷ xs) (p, h) =
      rw (reverse-cons x xs) (All-append (reverse xs) (x ∷ []) (All-reverse xs h) (p, tt))

pub All-map {ℓ κ μ} :
    {A : Type ℓ} {P : A → Type κ} {Q : A → Type μ} (xs : List A)
    → ((x : A) → P x → Q x)
    → All P xs
    → All Q xs
All-map [] f h = tt
All-map (x ∷ xs) f (p, h) = (f x p, All-map xs f h)
