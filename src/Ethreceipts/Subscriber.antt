-- ===== src/Ethreceipts/Subscriber.antt =====
-- ethreceipts/subscription.go: what a subscriber does with the receipts of a block. What is sent on
-- its channel is a list. Fetching a receipt and the latest block's number are the listener's; their
-- answers are a `Listener`.
pub mod Matching
pub mod Reports
pub mod Finality
use ethkit.Prelude.{
  ℕ, ◌+◌, Bool, true, false, ◌&&◌, ◌||◌, not, Option, none, some, List, [], ◌∷◌, ◌++◌, length, ltb,
  leb, ◌==◌, if◌then◌else◌,
}
use ethkit.Ethreceipts.Types.{TxReceipt}
use ethkit.Ethreceipts.Filter.{Filter, Wait}
use ethkit.Ethreceipts.Receipt.{Receipt, transaction_hash, block_number, match_receipt}
use ethkit.Ethreceipts.Finalizer as Finalizers
use ethkit.Ethreceipts.Finalizer.{Finalizer, FinalTxn, enqueue, dequeue}

pub record Listener : Type 0 where
  -- fetchTransactionReceipt by hash; `none` is an error
  pub fetch : ℕ → Option TxReceipt
  pub latest_block_num : ℕ
  pub num_blocks_to_finality : ℕ
  pub filter_max_wait_num_blocks : Wait
  -- `calc.Max` of github.com/goware/calc
  pub max : ℕ → ℕ → ℕ

pub data Err : Type 0 where
  filter_match fetch_failed : Err

pub record Subscriber : Type 0 where
  pub filters : List Filter
  pub finalizer : Finalizer
  pub sent : List Receipt

-- isBlockFinal; `none` is a nil number
unfoldable pub is_block_final : Listener → Option ℕ → Bool
is_block_final l none = false
is_block_final l (some n) = leb (n + l.num_blocks_to_finality) l.latest_block_num

abbrev pub add_filters : List Filter → Subscriber → Subscriber
add_filters fs s = record s { filters = s.filters ++ fs }

-- the first filter at that pointer is taken out
unfoldable pub remove_first : ℕ → List Filter → List Filter
remove_first address [] = []
remove_first address (f ∷ fs) = if f.address == address then fs else f ∷ remove_first address fs

abbrev pub remove_filter : Filter → Subscriber → Subscriber
remove_filter f s = record s { filters = remove_first f.address s.filters }

abbrev pub clear_filters : Subscriber → Subscriber
clear_filters s = record s { filters = [] }

abbrev pub send : Receipt → Subscriber → Subscriber
send r s = record s { sent = s.sent ++ r ∷ [] }

-- A receipt that is not reorged was fetched, and has a block number.
enqueue_at : Option ℕ → ℕ → Receipt → Subscriber → Subscriber
enqueue_at none filter_id r s = s
enqueue_at (some n) filter_id r s = record s { finalizer = enqueue filter_id r n s.finalizer }

-- the finality enqueue of `matchFilters`
enqueue_match : Filter → Receipt → Subscriber → Subscriber
unfolding enqueue_at
enqueue_match f r s =
    if not r.reorged && not r.final && f.options.finalize
    then enqueue_at (block_number r) f.options.id r s
    else s

-- LimitOne
limit_match : Filter → Receipt → Subscriber → Subscriber
limit_match f r s =
    if not r.reorged && f.options.limit_one && not (f.options.finalize && not r.final)
    then remove_filter f s
    else s

mark_final : Listener → Receipt → Receipt
unfolding is_block_final
mark_final l r = if is_block_final l (block_number r) then record r { final = true } else r

-- what follows the fetch
deliver : Listener → Filter → Receipt → Subscriber → Subscriber
unfolding enqueue_match limit_match mark_final
deliver l f r s = send (mark_final l r) (limit_match f r (enqueue_match f r s))

-- the subscriber, whether the filter counts as matched, and the error
abbrev pub Matched : Type 0
Matched = Subscriber × Bool × Option Err

-- the first argument is the fetched receipt
deliver_fetched : Option TxReceipt → Listener → Filter → Receipt → Subscriber → Matched
unfolding deliver
deliver_fetched none l f r s = (s, true, some fetch_failed)
deliver_fetched (some x) l f r s =
    (deliver l f (record r { receipt = some x; logs = x.logs }) s, true, none)

deliver_match : Bool → Listener → Filter → Receipt → Subscriber → Matched
unfolding deliver_fetched
deliver_match true l f r s = (deliver l f r s, true, none)
deliver_match false l f r s = deliver_fetched (l.fetch (transaction_hash r)) l f r s

match_result : Option Bool → Listener → Filter → Receipt → Subscriber → Matched
unfolding deliver_match
match_result none l f r s = (s, false, some filter_match)
match_result (some false) l f r s = (s, false, none)
match_result (some true) l f r s = deliver_match r.reorged l f (record r { filter = some f }) s

-- one round of the inner loop of `matchFilters`
match_one : Listener → Filter → Receipt → Subscriber → Matched
unfolding match_result match_receipt
match_one l f r s = match_result (match_receipt f r) l f r s

abbrev pub MatchedAll : Type 0
MatchedAll = Subscriber × List Bool × Option Err

-- an error ends the loop
or_next : Option Err → Bool → List Bool → Subscriber → MatchedAll → MatchedAll
or_next (some e) ok oks s rest = (s, ok ∷ oks, some e)
or_next none ok oks s (s', oks', e) = (s', ok ∷ oks', e)

-- the inner loop, over the filters; the Booleans are `oks`, one for each filter
match_each : Listener → List Filter → Receipt → Subscriber → List Bool → MatchedAll
unfolding match_one or_next
match_each l [] r s oks = (s, oks, none)
match_each l (f ∷ fs) r s [] = (s, [], none)
match_each l (f ∷ fs) r s (ok ∷ oks) =
    let (s', matched, e) = match_one l f r s in
    or_next e (ok || matched) oks s' (match_each l fs r s' oks)

or_later : MatchedAll → (Subscriber → List Bool → MatchedAll) → MatchedAll
or_later (s, oks, some e) next = (s, oks, some e)
or_later (s, oks, none) next = next s oks

-- the outer loop, over the receipts
match_all : Listener → List Filter → List Receipt → Subscriber → List Bool → MatchedAll
unfolding match_each or_later
match_all l fs [] s oks = (s, oks, none)
match_all l fs (r ∷ rs) s oks =
    or_later (match_each l fs r s oks) (λ s' oks'. match_all l fs rs s' oks')

pub all_false : List Filter → List Bool
all_false [] = []
all_false (f ∷ fs) = false ∷ all_false fs

unfoldable pub match_filters : Listener → List Filter → List Receipt → Subscriber → MatchedAll
unfolding match_all all_false
match_filters l fs rs s = match_all l fs rs s (all_false fs)

-- filters of a transaction and filters for one receipt are done
done_with : Filter → Bool
done_with f = elim f.cond.txn_hash [ none ↦ f.options.limit_one | some h ↦ true ]

remove_done : Option Filter → Subscriber → Subscriber
unfolding done_with
remove_done none s = s
remove_done (some f) s = if done_with f then remove_filter f s else s

-- one round of the loop of `finalizeReceipts`; the first argument is whether the receipt was reorged
dispatch_one : Bool → Receipt → Subscriber → Subscriber
unfolding remove_done
dispatch_one true r s = s
dispatch_one false r s = remove_done r.filter (send (record r { final = true }) s)

dispatch : List FinalTxn → Subscriber → Subscriber
unfolding dispatch_one
dispatch [] s = s
dispatch (x ∷ xs) s = dispatch xs (dispatch_one x.receipt.reorged x.receipt s)

unfoldable pub finalize_receipts : ℕ → Subscriber → Subscriber
unfolding dispatch
finalize_receipts block_num s =
    if Finalizers.len s.finalizer == 0
    then s
    else let (f, out) = dequeue block_num s.finalizer in dispatch out (record s { finalizer = f })
