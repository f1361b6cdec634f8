-- ===== src/Ethgas/Trim.antt =====
-- What `trimOutliers` keeps.
use ethkit.Prelude.{
  ℕ, zero, suc, ◌+◌, ◌*◌, ◌/◌, ◌≤◌, ◌≡◌, refl, sym, ap, ◌∙◌, ◌||◌, List, [], ◌∷◌, ◌++◌,
  append_assoc, append-nil, length, length-append, take, drop, get_last?, arith, leb, ◌==◌,
  Bool-cases, inl, inr,
}
use ethkit.Ethgas.{
  Bucket, insert_bucket, sort_by_value, up_to_jump, last_value, keep_at, trim_outliers,
}

up_to_jump_front :
    (last : ℕ) (bs : List Bucket) → (rest : List Bucket) × (bs ≡ up_to_jump last bs ++ rest)
unfolding up_to_jump
up_to_jump_front last [] = ([], refl)
up_to_jump_front last (b ∷ bs) = elim (Bool-cases (leb (2 * last) b.value)) [
  | inl t ↦ rw t (b ∷ bs, refl)
  | inr t ↦ let (rest, e) = up_to_jump_front b.value bs in rw t (rest, ap (λ l. b ∷ l) e)
]

take-drop : (n : ℕ) (bs : List Bucket) → bs ≡ take n bs ++ drop n bs
take-drop zero bs = refl
take-drop (suc n) [] = refl
take-drop (suc n) (b ∷ bs) = ap (λ l. b ∷ l) (take-drop n bs)

length-take : (n : ℕ) (bs : List Bucket) → n ≤ length bs → length (take n bs) ≡ n
length-take zero bs h = refl
length-take (suc n) [] h = absurd (omega arith)
length-take (suc n) (b ∷ bs) h = ap suc (length-take n bs (omega arith))

length-insert_bucket : (b : Bucket) (bs : List Bucket) → length (insert_bucket b bs) ≡ length bs + 1
unfolding insert_bucket
length-insert_bucket b [] = refl
length-insert_bucket b (x ∷ bs) = ground (arith, length-insert_bucket b bs)

length-sort_by_value : (bs : List Bucket) → length (sort_by_value bs) ≡ length bs
unfolding sort_by_value
length-sort_by_value [] = refl
length-sort_by_value (b ∷ bs) =
    omega (arith, length-insert_bucket b (sort_by_value bs), length-sort_by_value bs)

keep_at_front :
    (x : ℕ) (h : List Bucket)
    → x ≤ length h
    → (rest : List Bucket) × (h ≡ keep_at x h ++ rest) × (x ≤ length (keep_at x h))
unfolding keep_at
keep_at_front x h le = elim (Bool-cases (x == length h || x == 0)) [
  | inl t ↦ rw t ([], sym (append-nil h), le)
  | inr t ↦
      let last = last_value (get_last? (take x h)) in
      let (rest, e) = up_to_jump_front last (drop x h) in
      rw t (
        rest,
        take-drop x h
            ∙ ap (λ l. take x h ++ l) e
            ∙ sym (append_assoc (take x h) (up_to_jump last (drop x h)) rest),
        omega (arith, length-append (take x h) (up_to_jump last (drop x h)), length-take x h le),
      )
]

-- `trimOutliers` keeps a front part of the buckets in the order of their values, and at least three
-- quarters of them.
pub trim_outliers_keeps :
    (h : List Bucket)
    → (rest : List Bucket) × (sort_by_value h ≡ trim_outliers h ++ rest)
      × (length h * 3 / 4 ≤ length (trim_outliers h))
unfolding trim_outliers
trim_outliers_keeps h =
    keep_at_front (length h * 3 / 4) (sort_by_value h) (omega (arith, length-sort_by_value h))
