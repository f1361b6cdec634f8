-- ===== src/Ethreceipts/Receipt/Match.antt =====
-- Which receipts a filter matches.
use ethkit.Prelude.{
  ℕ, ◌≡◌, ◌≢◌, ◌↔◌, refl, ap, Bool, true, false, Option, none, some, List, [], ◌∷◌, ◌++◌, ◌==◌, All,
  Bool-cases, inl, inr,
}
use ethkit.Ethmonitor.Types.{Log}
use ethkit.Ethreceipts.Filter.{
  Filter, FilterCond, has_contract, filter_log_contract, filter_logs, filter_log_topic,
}
use ethkit.Ethreceipts.Receipt.{
  Receipt, logs_of, first_topic, has_topic, match_receipt, match_hash, match_from, match_to,
  match_topic, match_logs,
}

-- A filter without any condition.
abbrev pub IsUnset : FilterCond → Type 0
IsUnset c =
    (c.txn_hash ≡ none)
    × ((c.from ≡ none) × ((c.to ≡ none) × ((c.log_topic ≡ none) × (c.logs ≡ none))))

-- a condition that is not set leaves the answer to the rest
asks_rest {ℓ κ} :
    {A : Type 0} {P : Type ℓ} {Q : Type κ} (o : Option A)
    → o ≡ none
    → (P ↔ Q)
    → P ↔ ((o ≡ none) × Q)
asks_rest o e (f, g) = (λ p. (e, f p), λ (u, q). g q)

match_logs_fails :
    (o : Option (List Log → Bool)) (r : Receipt) → (match_logs o r ≡ none) ↔ (o ≡ none)
unfolding match_logs
match_logs_fails none r = (λ e. refl, λ e. refl)
match_logs_fails (some test) r = (λ e. cc, λ e. cc)

match_topic_fails :
    (o : Option ℕ) (t : Option (List Log → Bool)) (r : Receipt)
    → (match_topic o t r ≡ none) ↔ ((o ≡ none) × (t ≡ none))
unfolding match_topic
match_topic_fails none t r = asks_rest {A = ℕ} none refl (match_logs_fails t r)
match_topic_fails (some a) t r = (λ e. cc, λ (e, p). cc)

match_to_fails :
    (o : Option ℕ) (c : FilterCond) (r : Receipt)
    → (match_to o c r ≡ none) ↔ ((o ≡ none) × ((c.log_topic ≡ none) × (c.logs ≡ none)))
unfolding match_to
match_to_fails none c r = asks_rest {A = ℕ} none refl (match_topic_fails c.log_topic c.logs r)
match_to_fails (some a) c r = (λ e. cc, λ (e, p). cc)

match_from_fails :
    (o : Option ℕ) (c : FilterCond) (r : Receipt)
    → (match_from o c r ≡ none)
      ↔ ((o ≡ none) × ((c.to ≡ none) × ((c.log_topic ≡ none) × (c.logs ≡ none))))
unfolding match_from
match_from_fails none c r = asks_rest {A = ℕ} none refl (match_to_fails c.to c r)
match_from_fails (some a) c r = (λ e. cc, λ (e, p). cc)

match_hash_fails :
    (o : Option ℕ) (c : FilterCond) (r : Receipt)
    → (match_hash o c r ≡ none) ↔ (
        (o ≡ none) × ((c.from ≡ none) × ((c.to ≡ none) × ((c.log_topic ≡ none) × (c.logs ≡ none)))))
unfolding match_hash
match_hash_fails none c r = asks_rest {A = ℕ} none refl (match_from_fails c.from c r)
match_hash_fails (some a) c r = (λ e. cc, λ (e, p). cc)

-- `Match` fails exactly for a filter without any condition.
pub match_receipt_fails : (f : Filter) (r : Receipt) → (match_receipt f r ≡ none) ↔ IsUnset f.cond
unfolding match_receipt
match_receipt_fails f r = match_hash_fails f.cond.txn_hash f.cond r

-- A log of the list passes the test, and no log before it does; or no log does.
abbrev pub FirstOf : (Log → Bool) → List Log → Type 0
FirstOf test logs =
    (before : List Log) × (l : Log) × (after : List Log) × (logs ≡ before ++ l ∷ after)
    × (test l ≡ true)
    × All (λ x. test x ≡ false) before

FirstOf-cons :
    (test : Log → Bool) (x : Log) (logs : List Log)
    → test x ≡ false
    → FirstOf test logs
    → FirstOf test (x ∷ logs)
FirstOf-cons test x logs e (before, l, after, shape, p, h) =
    (x ∷ before, l, after, ap (λ m. x ∷ m) shape, p, (e, h))

has_contract_lem :
    (contract : ℕ) (logs : List Log)
    → (has_contract contract logs ≡ true → FirstOf (λ l. l.address == contract) logs)
      × (has_contract contract logs ≡ false → All (λ l. (l.address == contract) ≡ false) logs)
unfolding has_contract
has_contract_lem contract [] = (λ e. cc, λ e. tt)
has_contract_lem contract (x ∷ logs) = elim (Bool-cases (x.address == contract)) [
  | inl t ↦ rw t (λ e. ([], x, logs, refl, t, tt), λ e. cc)
  | inr t ↦
      let (yes', no') = has_contract_lem contract logs in
      rw t (λ e. FirstOf-cons _ x logs t (yes' e), λ e. (refl, no' e))
]

has_topic_lem :
    (topic : ℕ) (logs : List Log)
    → (has_topic topic logs ≡ true → FirstOf (λ l. first_topic topic l.topics) logs)
      × (has_topic topic logs ≡ false → All (λ l. first_topic topic l.topics ≡ false) logs)
unfolding has_topic
has_topic_lem topic [] = (λ e. cc, λ e. tt)
has_topic_lem topic (x ∷ logs) = elim (Bool-cases (first_topic topic x.topics)) [
  | inl t ↦ rw t (λ e. ([], x, logs, refl, t, tt), λ e. cc)
  | inr t ↦
      let (yes', no') = has_topic_lem topic logs in
      rw t (λ e. FirstOf-cons _ x logs t (yes' e), λ e. (refl, no' e))
]

-- A contract filter matches a receipt exactly where one of its logs is from the contract, and never
-- fails.
pub match_log_contract_lem :
    (address contract : ℕ) (r : Receipt)
    → (match_receipt (filter_log_contract address contract) r ≡ some true
        → FirstOf (λ l. l.address == contract) (logs_of r))
      × (match_receipt (filter_log_contract address contract) r ≡ some false
          → All (λ l. (l.address == contract) ≡ false) (logs_of r))
      × (match_receipt (filter_log_contract address contract) r ≢ none)
unfolding match_receipt match_hash match_from match_to match_topic match_logs filter_log_contract
    filter_logs
match_log_contract_lem address contract r =
    let (found, missed) = has_contract_lem contract (logs_of r) in
    (λ e. found (cc), λ e. missed (cc), λ e. cc)

-- A topic filter matches a receipt exactly where the first topic of one of its logs is the topic, and
-- never fails.
pub match_log_topic_lem :
    (address topic : ℕ) (r : Receipt)
    → (match_receipt (filter_log_topic address topic) r ≡ some true
        → FirstOf (λ l. first_topic topic l.topics) (logs_of r))
      × (match_receipt (filter_log_topic address topic) r ≡ some false
          → All (λ l. first_topic topic l.topics ≡ false) (logs_of r))
      × (match_receipt (filter_log_topic address topic) r ≢ none)
unfolding match_receipt match_hash match_from match_to match_topic filter_log_topic
match_log_topic_lem address topic r =
    let (found, missed) = has_topic_lem topic (logs_of r) in
    (λ e. found (cc), λ e. missed (cc), λ e. cc)
