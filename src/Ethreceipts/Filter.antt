-- ===== src/Ethreceipts/Filter.antt =====
-- ethreceipts/filterer.go: the filters' options and conditions, and the functions that build them.
use ethkit.Prelude.{ℕ, Bool, true, false, ◌||◌, Option, none, some, List, [], ◌∷◌, ◌==◌}
use ethkit.Ethmonitor.Types.{Log}

-- An `int`; `negative k` is -1 - k.
pub data Wait : Type 0 where
  negative : ℕ → Wait
  blocks : ℕ → Wait

pub record FilterOptions : Type 0 where
  pub id : ℕ
  pub finalize : Bool
  pub limit_one : Bool
  pub search_cache : Bool
  pub search_on_chain : Bool
  pub max_wait : Option Wait

pub record FilterCond : Type 0 where
  pub txn_hash : Option ℕ
  pub from : Option ℕ
  pub to : Option ℕ
  pub log_topic : Option ℕ
  pub logs : Option (List Log → Bool)

-- Filters are compared by pointer; `address` is the pointer. `exhausted` is whether the channel is
-- closed.
pub record Filter : Type 0 where
  pub address : ℕ
  pub options : FilterOptions
  pub cond : FilterCond
  pub start_block_num : ℕ
  pub last_match_block_num : ℕ
  pub exhausted : Bool

abbrev pub no_options : FilterOptions
no_options = record {
  id = 0;
  finalize = false;
  limit_one = false;
  search_cache = false;
  search_on_chain = false;
  max_wait = none;
}

abbrev pub no_cond : FilterCond
no_cond = record { txn_hash = none; from = none; to = none; log_topic = none; logs = none }

-- `&filter{...}`: a new filter at a fresh pointer
new_filter : ℕ → FilterOptions → FilterCond → Filter
new_filter address options cond = record {
  address = address;
  options = options;
  cond = cond;
  start_block_num = 0;
  last_match_block_num = 0;
  exhausted = false;
}

unfoldable pub filter_txn_hash : ℕ → ℕ → Filter
unfolding new_filter
filter_txn_hash address hash =
    new_filter address
      (record {
        id = 0;
        finalize = true;
        limit_one = true;
        search_cache = true;
        search_on_chain = true;
        max_wait = some (negative 0);
      })
      (record no_cond { txn_hash = some hash })

unfoldable pub filter_from : ℕ → ℕ → Filter
unfolding new_filter
filter_from address from = new_filter address no_options (record no_cond { from = some from })

unfoldable pub filter_to : ℕ → ℕ → Filter
unfolding new_filter
filter_to address to = new_filter address no_options (record no_cond { to = some to })

unfoldable pub filter_log_topic : ℕ → ℕ → Filter
unfolding new_filter
filter_log_topic address topic =
    new_filter address no_options (record no_cond { log_topic = some topic })

unfoldable pub filter_logs : ℕ → (List Log → Bool) → Filter
unfolding new_filter
filter_logs address test = new_filter address no_options (record no_cond { logs = some test })

unfoldable pub has_contract : ℕ → List Log → Bool
has_contract contract [] = false
has_contract contract (l ∷ logs) = l.address == contract || has_contract contract logs

unfoldable pub filter_log_contract : ℕ → ℕ → Filter
unfolding filter_logs has_contract
filter_log_contract address contract = filter_logs address (has_contract contract)

-- `ID`, `Finalize`, `LimitOne`, `SearchCache`, `SearchOnChain` and `MaxWait`
abbrev pub set_id : ℕ → Filter → Filter
set_id id f = record f { options = record (f.options) { id = id } }

abbrev pub set_finalize : Bool → Filter → Filter
set_finalize b f = record f { options = record (f.options) { finalize = b } }

abbrev pub set_limit_one : Bool → Filter → Filter
set_limit_one b f = record f { options = record (f.options) { limit_one = b } }

abbrev pub set_search_cache : Bool → Filter → Filter
set_search_cache b f = record f { options = record (f.options) { search_cache = b } }

abbrev pub set_search_on_chain : Bool → Filter → Filter
set_search_on_chain b f = record f { options = record (f.options) { search_on_chain = b } }

abbrev pub set_max_wait : Wait → Filter → Filter
set_max_wait w f = record f { options = record (f.options) { max_wait = some w } }
