-- ===== src/Ethmonitor/Tests/BuildTests.antt =====
-- A reorg: the chain ends in `third`, and the block that comes follows `rival`.
use ethkit.Prelude.{◌≡◌, refl, false, none, some, [], get_last?, ◌==◌, arith, if◌then◌else◌}
use ethkit.Ethmonitor.Chain.{items, push, pop}
use ethkit.Ethmonitor.Chain.Invariant.{IsCanonical}
use ethkit.Ethmonitor.Build.{World, make_added, build_canonical_chain}
use ethkit.Ethmonitor.Build.Canonical.{build_canonical_chain-IsCanonical}
use ethkit.Ethmonitor.Build.Events.{Grows, build_canonical_chain-Grows}
use ethkit.Ethmonitor.Build.Outcome.{IsOrderly, build_canonical_chain-IsOrderly}
use ethkit.Ethmonitor.Build.Success.{build_canonical_chain_head}
use ethkit.Ethmonitor.Tests.{whole, eth, follower, three}

-- A provider that knows `rival`.
abbrev pub world : World
world = record {
  is_done = λ n. false;
  fetch = λ n hash. if hash == 4 then some (eth 4 2 102, none) else none;
  retain_payloads = false;
}

pub three-IsCanonical : IsCanonical three
three-IsCanonical = record { linked = omega arith; within = omega arith; room = omega arith }

build_canonical_chain-IsCanonical_example :
    IsCanonical (build_canonical_chain 4 world follower none [] three).chain
build_canonical_chain-IsCanonical_example =
    build_canonical_chain-IsCanonical 4 world follower none [] three three-IsCanonical

build_canonical_chain-IsOrderly_example :
    IsOrderly (build_canonical_chain 4 world follower none [] three).err
build_canonical_chain-IsOrderly_example =
    build_canonical_chain-IsOrderly 4 world follower none [] three (omega arith)

succeeds : (build_canonical_chain 4 world follower none [] three).err ≡ none
unfolding build_canonical_chain push pop make_added
succeeds = refl

build_canonical_chain_head_example :
    get_last? (items (build_canonical_chain 4 world follower none [] three).chain)
    ≡ some (make_added world follower none)
build_canonical_chain_head_example =
    build_canonical_chain_head 4 world follower none [] three three-IsCanonical succeeds

build_canonical_chain-Grows_example :
    Grows [] three (build_canonical_chain 4 world follower none [] three)
unfolding build_canonical_chain push pop make_added
build_canonical_chain-Grows_example = build_canonical_chain-Grows 4 world follower none [] three tt
