-- ===== src/Ethmonitor/Tests/PublishTests.antt =====
-- The theorems about logs, publishing and fetching at small data.
use ethkit.Prelude.{
  ℕ, zero, suc, ◌≡◌, ◌≢◌, refl, false, none, some, [], ◌∷◌, ◌==◌, if◌then◌else◌, arith,
}
use ethkit.Ethmonitor.Types.{Log}
use ethkit.Ethmonitor.Queue.{new_queue, enqueue, dequeue}
use ethkit.Ethmonitor.Queue.Runs.{Run, start}
use ethkit.Ethmonitor.Publish.{Publisher, nil_dereference, publish}
use ethkit.Ethmonitor.Publish.Runs.{feed_of, publish-Run}
use ethkit.Ethmonitor.Logs.{LogsWorld}
use ethkit.Ethmonitor.Fetch.{Provider, payload, failed, out_of_fuel, fetch_by_number, fetch_by_hash}
use ethkit.Ethmonitor.Fetch.Retries.{fetch_by_number_ends, fetch_by_hash_ends}
use ethkit.Ethmonitor.Tests.{first, second, third}

abbrev one_log : Log
one_log = record { address = 1; topics = []; payload = []; tx_hash = 1; tx_index = 0 }

abbrev pub node : LogsWorld
node = record {
  is_done = λ k. false;
  is_done_inside = λ k. false;
  filter_logs = λ h. some (some (one_log ∷ []), none);
  retain_payloads = false;
}

abbrev pub publisher : Publisher
publisher = record {
  queue = new_queue 4;
  subscribers = record { address = 1; sent = [] } ∷ [];
  published = [];
}

no_nil : (publish 0 none (first ∷ second ∷ []) publisher).1 ≢ some nil_dereference
unfolding publish new_queue enqueue dequeue
no_nil e = cc

-- The queue starts empty, and two ready blocks go through it.
publish-Run_example :
    Run 4 (first ∷ second ∷ []) (feed_of (publish 0 none (first ∷ second ∷ []) publisher).0)
publish-Run_example =
    publish-Run 0 none (first ∷ second ∷ []) publisher (λ e. absurd (omega (arith, e))) no_nil
      (start refl)

-- A head below the trail wraps around, and a head as high as the trail sets no limit.
nothing_held_back :
    (publish 200 (some third) (first ∷ []) publisher).0.published ≡ (first ∷ []) ∷ []
unfolding publish new_queue enqueue dequeue
nothing_held_back = refl

no_limit : (publish 102 (some third) (first ∷ []) publisher).0.published ≡ (first ∷ []) ∷ []
unfolding publish new_queue enqueue dequeue
no_limit = refl

-- Two errors, then a block.
abbrev flaky : Provider
flaky = record { is_done = λ r. false; answer = λ r. if r == 1 then payload (1 ∷ []) else failed }

full : (r : ℕ) → flaky.answer r ≢ payload []
full r = ground arith

fetch_by_number_ends_example : fetch_by_number 4 flaky 0 0 ≢ out_of_fuel
fetch_by_number_ends_example = fetch_by_number_ends 4 flaky 0 0 (omega arith) (omega arith)

fetch_by_hash_ends_example : fetch_by_hash 4 flaky 0 0 0 ≢ out_of_fuel
fetch_by_hash_ends_example = fetch_by_hash_ends 4 flaky 0 0 0 full (omega arith) (omega arith)

-- Empty payloads use up any fuel.
abbrev silent : Provider
silent = record { is_done = λ r. false; answer = λ r. payload [] }

endless : (n round : ℕ) → fetch_by_hash n silent round 0 0 ≡ out_of_fuel
unfolding fetch_by_hash
endless zero round = refl
endless (suc n) round = endless n (suc round)
