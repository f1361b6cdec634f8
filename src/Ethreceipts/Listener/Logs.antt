-- ===== src/Ethreceipts/Listener/Logs.antt =====
-- The logs of a transaction, and the size of a block's list of logs.
use ethkit.Prelude.{
  ℕ, ◌+◌, ◌^◌, ◌≤◌, ◌<◌, ◌≡◌, refl, sym, ap, ◌∙◌, Bool, true, false, List, [], ◌∷◌, ◌++◌,
  append_assoc, append-nil, All, arith, ltb, ◌==◌, u64, Bool-cases, inl, inr, if◌then◌else◌,
}
use ethkit.Ethmonitor.Types.{Log}
use ethkit.Ethreceipts.Listener.{
  Groups, add_log, group_from, group_logs_by_transaction, logs_of_txn, block_logs_count,
}

-- The specification: the logs of a transaction, in the order of the block.
abbrev pub if_of : Bool → Log → List Log
if_of true l = l ∷ []
if_of false l = []

abbrev pub logs_with : ℕ → List Log → List Log
logs_with hash [] = []
logs_with hash (l ∷ ls) = if_of (l.tx_hash == hash) l ++ logs_with hash ls

logs_of_txn-add_log :
    (hash : ℕ) (l : Log) (gs : Groups)
    → logs_of_txn hash (add_log l gs) ≡ logs_of_txn hash gs ++ if_of (l.tx_hash == hash) l
unfolding logs_of_txn add_log
logs_of_txn-add_log hash l [] = elim (Bool-cases (l.tx_hash == hash)) [
  | inl r ↦ rw r refl
  | inr r ↦ rw r refl
]
logs_of_txn-add_log hash l ((h, ls) ∷ gs) = elim (Bool-cases (h == l.tx_hash)) [
  | inl p ↦ elim (Bool-cases (h == hash)) [
    | inl q ↦ let r : (l.tx_hash == hash) ≡ true = ground arith in rw (p, logs_of_txn, q, r) refl
    | inr q ↦
        let r : (l.tx_hash == hash) ≡ false = ground arith in
        rw (p, logs_of_txn, q, r) (sym (append-nil (logs_of_txn hash gs)))
  ]
  | inr p ↦ elim (Bool-cases (h == hash)) [
    | inl q ↦
        let r : (l.tx_hash == hash) ≡ false = ground arith in
        rw (p, logs_of_txn, q, r) (sym (append-nil ls))
    | inr q ↦ rw (p, logs_of_txn, q) (logs_of_txn-add_log hash l gs)
  ]
]

logs_of_txn-group_from :
    (hash : ℕ) (ls : List Log) (gs : Groups)
    → logs_of_txn hash (group_from ls gs) ≡ logs_of_txn hash gs ++ logs_with hash ls
unfolding group_from
logs_of_txn-group_from hash [] gs = sym (append-nil (logs_of_txn hash gs))
logs_of_txn-group_from hash (l ∷ ls) gs =
    logs_of_txn-group_from hash ls (add_log l gs)
    ∙ ap (λ m. m ++ logs_with hash ls) (logs_of_txn-add_log hash l gs)
    ∙ append_assoc (logs_of_txn hash gs) (if_of (l.tx_hash == hash) l) (logs_with hash ls)

-- What the groups hold for a transaction are the logs with its hash, all of them and in order.
pub logs_of_txn-group_logs_by_transaction :
    (hash : ℕ) (ls : List Log) → logs_of_txn hash (group_logs_by_transaction ls) ≡ logs_with hash ls
unfolding group_logs_by_transaction logs_of_txn
logs_of_txn-group_logs_by_transaction hash ls = logs_of_txn-group_from hash ls []

larger : (a b : ℕ) → (a ≤ (if ltb a b then b else a)) × (b ≤ (if ltb a b then b else a))
larger a b = (ground arith, ground arith)

-- Where the indices are below the largest number of 64 bits, the count is at least the number of
-- transactions and above every log's index.
pub block_logs_count_lem :
    (count : ℕ) (ls : List Log)
    → All (λ l. l.tx_index + 1 < 2 ^ 64) ls
    → (count ≤ block_logs_count count ls) × All (λ l. l.tx_index < block_logs_count count ls) ls
unfolding block_logs_count
block_logs_count_lem count [] h = (omega arith, tt)
block_logs_count_lem count (l ∷ ls) (p, h) =
    let next = if ltb count (u64 (l.tx_index + 1)) then u64 (l.tx_index + 1) else count in
    let (grows, above) = block_logs_count_lem next ls h in
    let exact : u64 (l.tx_index + 1) ≡ l.tx_index + 1 = ground arith in
    let (kept, passed) = larger count (u64 (l.tx_index + 1)) in
    (omega (arith, kept, grows), (omega (arith, passed, grows, exact), above))
