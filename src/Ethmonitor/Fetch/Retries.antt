-- ===== src/Ethmonitor/Fetch/Retries.antt =====
-- The retries end.
use ethkit.Prelude.{ℕ, zero, suc, ◌+◌, ◌≤◌, ◌≢◌, refl, [], ◌∷◌, leb, arith, Bool-cases, inl, inr}
use ethkit.Ethmonitor.Fetch.{
  Answer, payload, not_found, failed, Provider, Outcome, out_of_fuel, by_number_answer,
  fetch_by_number, by_hash_answer, fetch_by_hash,
}

by_number_answer_ends :
    (again : ℕ → Outcome) (errs : ℕ) (a : Answer)
    → again (suc errs) ≢ out_of_fuel
    → by_number_answer again errs a ≢ out_of_fuel
unfolding by_number_answer
by_number_answer_ends again errs (payload bs) h = λ e. cc
by_number_answer_ends again errs not_found h = λ e. cc
by_number_answer_ends again errs failed h = h

-- Whatever the provider answers, four rounds from the start are enough for the fetch by number, and
-- each error before takes one off.
pub fetch_by_number_ends :
    (n : ℕ) (p : Provider) (round errs : ℕ)
    → errs ≤ 3
    → 4 ≤ n + errs
    → fetch_by_number n p round errs ≢ out_of_fuel
unfolding fetch_by_number
fetch_by_number_ends zero p round errs few enough = absurd (omega arith)
fetch_by_number_ends (suc n) p round errs few enough = elim (Bool-cases (p.is_done round)) [
  | inl t ↦ rw t (λ e. cc)
  | inr t ↦ elim (Bool-cases (leb 3 errs)) [
    | inl u ↦ rw (t, u) (λ e. cc)
    | inr u ↦
        rw (t, u)
          (by_number_answer_ends (λ e. fetch_by_number n p (suc round) e) errs (p.answer round)
            (fetch_by_number_ends n p (suc round) (suc errs) (ground arith) (omega arith)))
  ]
]

by_hash_answer_ends :
    (again : ℕ → ℕ → Outcome) (misses errs : ℕ) (a : Answer)
    → a ≢ payload []
    → again (suc misses) errs ≢ out_of_fuel
    → again misses (suc errs) ≢ out_of_fuel
    → by_hash_answer again misses errs a ≢ out_of_fuel
unfolding by_hash_answer
by_hash_answer_ends again misses errs (payload []) full h k = absurd (full refl)
by_hash_answer_ends again misses errs (payload (b ∷ bs)) full h k = λ e. cc
by_hash_answer_ends again misses errs not_found full h k = h
by_hash_answer_ends again misses errs failed full h k = k

-- Where the provider never answers with an empty payload, four rounds from the start are enough for
-- the fetch by hash, and each answer without a block before takes one off.
pub fetch_by_hash_ends :
    (n : ℕ) (p : Provider) (round misses errs : ℕ)
    → ((r : ℕ) → p.answer r ≢ payload [])
    → misses + errs ≤ 3
    → 4 ≤ n + (misses + errs)
    → fetch_by_hash n p round misses errs ≢ out_of_fuel
unfolding fetch_by_hash
fetch_by_hash_ends zero p round misses errs full few enough = absurd (omega arith)
fetch_by_hash_ends (suc n) p round misses errs full few enough =
    elim (Bool-cases (p.is_done round)) [
      | inl t ↦ rw t (λ e. cc)
      | inr t ↦ elim (Bool-cases (leb 2 misses)) [
        | inl u ↦ rw (t, u) (λ e. cc)
        | inr u ↦ elim (Bool-cases (leb 2 errs)) [
          | inl v ↦ rw (t, u, v) (λ e. cc)
          | inr v ↦
              rw (t, u, v)
                (by_hash_answer_ends (λ m e. fetch_by_hash n p (suc round) m e) misses errs
                  (p.answer round) (full round)
                  (fetch_by_hash_ends n p (suc round) (suc misses) errs full (ground arith)
                    (omega arith))
                  (fetch_by_hash_ends n p (suc round) misses (suc errs) full (ground arith)
                    (omega arith)))
        ]
      ]
    ]
