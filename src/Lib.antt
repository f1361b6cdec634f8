-- ===== src/Lib.antt =====
-- Verification of ethkit, an Ethereum development kit in Go.
--
-- The core of the kit is the monitor of package ethmonitor. It polls a node for new blocks, keeps
-- the canonical chain of the blocks that it has seen, and turns what it sees into events that add
-- or remove a block. The events wait in a queue until their logs are there, and are then sent to
-- the subscribers. Package ethreceipts subscribes to the monitor: it matches the receipts of the
-- blocks against the filters of its own subscribers, and sends a receipt again when its block is
-- final. Package ethgas suggests gas prices from the monitor's blocks. Package ethcoder has among
-- its encoders a parser of the signatures of methods and events, the tight packing of Solidity,
-- and a Merkle tree with proofs.
--
-- Which file models what:
--
-- - Ethmonitor/Types: what the monitor reads of the values of the vendored go-ethereum library.
-- - Ethmonitor/Block and Ethmonitor/Chain: ethmonitor/chain.go. `Block` and `Blocks` with their
--   methods, `Chain` with `push`, `pop` and the lookups; LatestFinalBlock and PurgeHistory of
--   ethmonitor/ethmonitor.go, which only read or set the chain's blocks, stand there too.
--   Chain/Invariant, Chain/Lookup and Chain/Bootstrap hold their lemmas, and Chain/Bootstrap the
--   function bootstrapBlocks of ethmonitor/bootstrap.go.
-- - Ethmonitor/Queue: the queue of ethmonitor/pubsub.go, with `enqueue` and `dequeue`.
-- - Ethmonitor/Replay: what a subscriber makes of a list of events; the specification of the
--   queue and of the chain's events.
-- - Ethmonitor/Build: buildCanonicalChain of ethmonitor/ethmonitor.go.
-- - Ethreceipts/Types, Ethreceipts/Filter and Ethreceipts/Receipt: ethreceipts/filterer.go and
--   ethreceipts/receipt.go.
-- - Ethreceipts/Finalizer: ethreceipts/finalizer.go.
-- - Ethreceipts/Subscriber: ethreceipts/subscription.go; a channel is the list of what was sent
--   on it.
-- - Ethreceipts/Listener: from ethreceipts/ethreceipts.go, processBlocks, groupLogsByTransaction,
--   blockLogsCount and the exhaust check of the listener's loop.
-- - Ethmonitor/Cycle: the loop of `monitor` of ethmonitor/ethmonitor.go, which ties these
--   together. Cycle/Shares holds what a change of shared blocks keeps, Cycle/Tracking the
--   invariant of the loop, and Cycle/Rounds its rounds.
-- - Ethmonitor/Logs, Ethmonitor/Publish and Ethmonitor/Fetch: from ethmonitor/ethmonitor.go,
--   addLogs and backfillChainLogs (Logs/Fills: what becomes of each block); publish, broadcast
--   and the subscriptions; the retry loops of fetchRawBlockByNumber and fetchBlockByHash.
-- - Ethgas: WithMin, gasPriceHistogram and trimOutliers of ethgas/ethgas.go. Ethgas/Percentile:
--   its percentileValue and samplePrices. Ethgas/Gauge: the constructors of the gauge,
--   ethgas/readers.go, and what `run` makes of a block's prices. Ethgas/Averages: ethgas/ema.go,
--   `update`, and the rounds of `run`.
-- - Util/Channel: util/channel.go, MakeUnboundedChan.
-- - Ethcoder/Bytes: byte strings and bytes.Compare.
-- - Ethcoder/Text: the functions of the packages strings and fmt that the coder calls, on ASCII
--   texts as lists of bytes.
-- - Ethcoder/AbiSig: ethcoder/abi_sig_parser.go, and `ABISignature` with String of
--   ethcoder/abi_sig.go. AbiSig/Tree has the data; Parens, Left, Tuple and Args make up
--   parseABISignatureArgs, Group is groupABISignatureTree, and Signature is ParseABISignature.
-- - Ethcoder/Pack: ethcoder/solidity_pack.go. Pack/Data has the values that are packed, and
--   Pack/Names the regular expressions of the names of types; Pack/Padding is about PadZeros, and
--   Pack/Words and Pack/Arrays about the elements of arrays.
-- - Ethcoder/Merkle: ethcoder/merkle_proof.go.
--
-- Numbers are natural numbers; where the source reads a 64-bit number, the wrap-around is written
-- out (`u64`). Hashes are numbers that are only compared. A nil pointer or slice is an `Option`;
-- an error is a constructor of the component's error type. Mutexes are left out: each operation
-- runs under one. Floats are a parameter with the operations that the source uses.
--
-- buildCanonicalChain recurs on fuel. Each level takes a block off the chain, so one level more
-- than the chain has blocks is enough. The recursion of parseABISignatureArgs is on fuel as well,
-- and a level more than its text has bytes is enough. The layers of a Merkle tree are made on
-- fuel too: each round halves the number of nodes, so as many rounds as nodes are enough. The
-- retries of the fetches are on fuel: four rounds are enough for both, for the fetch by hash only
-- where no answer is an empty payload.
--
-- Not modelled: the vendored go-ethereum, network access, timers, JSON, logging, the command line
-- tools and the tests.
pub mod Prelude
pub mod Ethcoder
pub mod Ethgas
pub mod Ethmonitor
pub mod Ethreceipts
pub mod Util
