-- ===== src/Ethmonitor/Fetch.antt =====
-- ethmonitor/ethmonitor.go, the retries of `fetchRawBlockByNumber` and of `fetchBlockByHash`. What the
-- context and the provider answer at each round is a `Provider`; the pauses have no part in the result.
-- The loops run on fuel.
pub mod Retries
use ethkit.Prelude.{
  ℕ, zero, suc, ◌+◌, Bool, true, false, Option, none, some, List, [], ◌∷◌, length, ltb, leb,
  if◌then◌else◌,
}

pub data Answer : Type 0 where
  payload : List ℕ → Answer
  not_found failed : Answer

pub record Provider : Type 0 where
  -- at each round, from 0
  pub is_done : ℕ → Bool
  pub answer : ℕ → Answer

pub data Outcome : Type 0 where
  got : List ℕ → Outcome
  missing context_done max_attempts out_of_fuel : Outcome

-- the body of a loop takes the rest of the loop as its first argument
by_number_answer : (ℕ → Outcome) → ℕ → Answer → Outcome
by_number_answer again errs (payload bs) = got bs
by_number_answer again errs not_found = missing
by_number_answer again errs failed = again (suc errs)

-- fetchRawBlockByNumber, from a round and the number of errors so far
unfoldable pub fetch_by_number : ℕ → Provider → ℕ → ℕ → Outcome
unfolding by_number_answer
fetch_by_number zero p round errs = out_of_fuel
fetch_by_number (suc n) p round errs =
    if p.is_done round
    then context_done
    else if leb 3 errs
    then max_attempts
    else by_number_answer (λ e. fetch_by_number n p (suc round) e) errs (p.answer round)

-- a payload that is empty starts the next round
by_hash_answer : (ℕ → ℕ → Outcome) → ℕ → ℕ → Answer → Outcome
by_hash_answer again misses errs (payload []) = again misses errs
by_hash_answer again misses errs (payload (b ∷ bs)) = got (b ∷ bs)
by_hash_answer again misses errs not_found = again (suc misses) errs
by_hash_answer again misses errs failed = again misses (suc errs)

-- the loop of `fetchBlockByHash`
unfoldable pub fetch_by_hash : ℕ → Provider → ℕ → ℕ → ℕ → Outcome
unfolding by_hash_answer
fetch_by_hash zero p round misses errs = out_of_fuel
fetch_by_hash (suc n) p round misses errs =
    if p.is_done round
    then context_done
    else if leb 2 misses
    then missing
    else if leb 2 errs
    then max_attempts
    else by_hash_answer (λ m e. fetch_by_hash n p (suc round) m e) misses errs (p.answer round)
