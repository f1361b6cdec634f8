-- ===== src/Ethcoder/Pack/Padding.antt =====
-- PadZeros puts zeros in front.
use native.Mathlib.Decide.{dec_lt}
use ethkit.Prelude.{
  ℕ, zero, suc, ◌+◌, ◌-◌, ◌≤◌, ◌<◌, ◌≡◌, refl, sym, ap, ap₂, ◌∙◌, true, false, some, [], ◌∷◌, ◌++◌,
  append_assoc, append-nil, length, get_elem?, take, drop, ltb, length-append, arith,
}
use ethkit.Ethcoder.Bytes.{Bytes}
use ethkit.Ethcoder.Pack.Data.{ok, fails, larger_than_expected}
use ethkit.Ethcoder.Pack.{make_bytes, set_at, fill, pad_zeros}

length-make_bytes : (n : ℕ) → length (make_bytes n) ≡ n
unfolding make_bytes
length-make_bytes zero = refl
length-make_bytes (suc n) = ap suc (length-make_bytes n)

length-set_at : (i b : ℕ) (xs : Bytes) → length (set_at i b xs) ≡ length xs
unfolding set_at
length-set_at i b [] = refl
length-set_at zero b (x ∷ xs) = refl
length-set_at (suc i) b (x ∷ xs) = ap suc (length-set_at i b xs)

take-set_at : (m i b : ℕ) (xs : Bytes) → m ≤ i → take m (set_at i b xs) ≡ take m xs
unfolding set_at
take-set_at zero i b xs h = refl
take-set_at (suc m) i b [] h = refl
take-set_at (suc m) zero b (x ∷ xs) h = absurd (omega arith)
take-set_at (suc m) (suc i) b (x ∷ xs) h = ap (λ t. x ∷ t) (take-set_at m i b xs (omega arith))

drop-set_at : (i b : ℕ) (xs : Bytes) → i < length xs → drop i (set_at i b xs) ≡ b ∷ drop (suc i) xs
unfolding set_at
drop-set_at i b [] h = absurd (omega arith)
drop-set_at zero b (x ∷ xs) h = refl
drop-set_at (suc i) b (x ∷ xs) h = drop-set_at i b xs (omega arith)

take-get_elem? :
    (j : ℕ) (xs : Bytes)
    → j < length xs
    → (b : ℕ) × (get_elem? xs j ≡ some b) × (take (suc j) xs ≡ take j xs ++ b ∷ [])
take-get_elem? j [] h = absurd (omega arith)
take-get_elem? zero (x ∷ xs) h = (x, refl, refl)
take-get_elem? (suc j) (x ∷ xs) h =
    let (b, e, t) = take-get_elem? j xs (omega arith) in (b, e, ap (λ s. x ∷ s) t)

take-drop : (n : ℕ) (bs : Bytes) → bs ≡ take n bs ++ drop n bs
take-drop zero bs = refl
take-drop (suc n) [] = refl
take-drop (suc n) (b ∷ bs) = ap (λ l. b ∷ l) (take-drop n bs)

drop-all : (n : ℕ) (bs : Bytes) → length bs ≤ n → drop n bs ≡ []
drop-all zero [] h = refl
drop-all (suc n) [] h = refl
drop-all zero (b ∷ bs) h = absurd (omega arith)
drop-all (suc n) (b ∷ bs) h = drop-all n bs (omega arith)

take-all : (bs : Bytes) → take (length bs) bs ≡ bs
take-all [] = refl
take-all (b ∷ bs) = ap (λ l. b ∷ l) (take-all bs)

fill_lem :
    (j m k : ℕ) (array buf : Bytes)
    → j ≤ length array
    → k ≡ m + j
    → k ≤ length buf
    → fill j k array buf ≡ take m buf ++ take j array ++ drop k buf
unfolding fill
fill_lem zero m k array buf h e l =
    let k_is_m : k ≡ m = omega arith in
    rw k_is_m (take-drop m buf ∙ ap (λ x. x ++ drop m buf) (sym (append-nil (take m buf))))
fill_lem (suc j) m k array buf h e l =
    let (b, found, last) = take-get_elem? j array (omega arith) in
    let i_lt : k - 1 < length buf = omega arith in
    let back : suc (k - 1) ≡ k = omega arith in
    let rest =
      fill_lem j m (k - 1) array (set_at (k - 1) b buf) (omega arith) (omega arith)
        (omega (arith, length-set_at (k - 1) b buf)) in
    rw (fill, found, last)
      (rest
        ∙ ap₂ (λ x y. x ++ take j array ++ y) (take-set_at m (k - 1) b buf (omega arith))
            (drop-set_at (k - 1) b buf i_lt ∙ ap (λ x. b ∷ drop x buf) back)
        ∙ sym (append_assoc (take m buf ++ take j array) (b ∷ []) (drop k buf))
        ∙ ap (λ x. x ++ drop k buf) (append_assoc (take m buf) (take j array) (b ∷ [])))

take-make_bytes : (m n : ℕ) → m ≤ n → take m (make_bytes n) ≡ make_bytes m
unfolding make_bytes
take-make_bytes zero n h = refl
take-make_bytes (suc m) zero h = absurd (omega arith)
take-make_bytes (suc m) (suc n) h = ap (λ x. 0 ∷ x) (take-make_bytes m n (omega arith))

-- Where the array has not more bytes than the total length, `PadZeros` gives the array with zeros in
-- front, up to the total length; otherwise it fails.
pub pad_zeros_lem :
    (array : Bytes) (total_length : ℕ)
    → (length array ≤ total_length
        → pad_zeros array total_length ≡ ok (make_bytes (total_length - length array) ++ array))
      × (total_length < length array → pad_zeros array total_length ≡ fails larger_than_expected)
unfolding pad_zeros
pad_zeros_lem array n = (λ h. rw (ltb-false h) (ap ok (filled h)), λ h. rw (ltb-true h) refl)
  where
    filled :
        length array ≤ n
        → fill (length array) n array (make_bytes n) ≡ make_bytes (n - length array) ++ array
    filled h =
        fill_lem (length array) (n - length array) n array (make_bytes n) (omega arith)
          (omega arith) (omega (arith, length-make_bytes n))
        ∙ ap₂ (λ x y. x ++ y)
            (ap₂ (λ x y. x ++ y) (take-make_bytes (n - length array) n (omega arith))
              (take-all array))
            (drop-all n (make_bytes n) (omega (arith, length-make_bytes n)))
        ∙ append-nil (make_bytes (n - length array) ++ array)

    ltb-false : length array ≤ n → ltb n (length array) ≡ false
    ltb-false h = ground arith

    ltb-true : n < length array → ltb n (length array) ≡ true
    ltb-true h = ground arith

pub length-pad_zeros : (array out : Bytes) (n : ℕ) → pad_zeros array n ≡ ok out → length out ≡ n
length-pad_zeros array out n h = elim (dec_lt n (length array)) [
  | yes less ↦ let failed = (pad_zeros_lem array n).1 less in cc
  | no m ↦
      let same : ok (make_bytes (n - length array) ++ array) ≡ ok out =
        sym ((pad_zeros_lem array n).0 (omega arith)) ∙ h in
      let there : make_bytes (n - length array) ++ array ≡ out = cc in
      rw (← there) (
        length-append (make_bytes (n - length array)) array
        ∙ omega (arith, length-make_bytes (n - length array)))
]
