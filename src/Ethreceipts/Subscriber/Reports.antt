-- ===== src/Ethreceipts/Subscriber/Reports.antt =====
-- Which filters `matchFilters` reports as matched.
use ethkit.Prelude.{
  ◌≡◌, refl, sym, ap, ap₂, ◌∙◌, Bool, true, false, ◌||◌, Option, none, some, List, [], ◌∷◌, map,
}
use ethkit.Ethreceipts.Types.{TxReceipt}
use ethkit.Ethreceipts.Filter.{Filter}
use ethkit.Ethreceipts.Receipt.{Receipt, match_receipt}
use ethkit.Ethreceipts.Subscriber.{
  Listener, Err, Subscriber, MatchedAll, deliver_fetched, deliver_match, match_result, match_one,
  or_next, match_each, or_later, match_all, all_false, match_filters,
}

-- The specification: a receipt that the filter matches.
abbrev pub is_match : Option Bool → Bool
is_match (some true) = true
is_match _ = false

abbrev pub any_match : Filter → List Receipt → Bool
any_match f [] = false
any_match f (r ∷ rs) = is_match (match_receipt f r) || any_match f rs

matched_fetched :
    (o : Option TxReceipt) (l : Listener) (f : Filter) (r : Receipt) (s : Subscriber)
    → (deliver_fetched o l f r s).1 ≡ true
unfolding deliver_fetched
matched_fetched none l f r s = refl
matched_fetched (some x) l f r s = refl

matched_deliver :
    (b : Bool) (l : Listener) (f : Filter) (r : Receipt) (s : Subscriber)
    → (deliver_match b l f r s).1 ≡ true
unfolding deliver_match
matched_deliver true l f r s = refl
matched_deliver false l f r s = matched_fetched _ l f r s

matched_result :
    (o : Option Bool) (l : Listener) (f : Filter) (r : Receipt) (s : Subscriber)
    → (match_result o l f r s).1 ≡ is_match o
unfolding match_result
matched_result none l f r s = refl
matched_result (some false) l f r s = refl
matched_result (some true) l f r s = matched_deliver r.reorged l f (record r { filter = some f }) s

-- the Booleans after one receipt, and after more
abbrev report : List Filter → Receipt → List Bool → List Bool
report [] r oks = oks
report (f ∷ fs) r [] = []
report (f ∷ fs) r (ok ∷ oks) = (ok || is_match (match_receipt f r)) ∷ report fs r oks

abbrev joined : List Filter → List Receipt → List Bool → List Bool
joined [] rs oks = oks
joined (f ∷ fs) rs [] = []
joined (f ∷ fs) rs (ok ∷ oks) = (ok || any_match f rs) ∷ joined fs rs oks

or-false : (b : Bool) → (b || false) ≡ b
or-false true = refl
or-false false = refl

or_assoc : (a b c : Bool) → ((a || b) || c) ≡ (a || (b || c))
or_assoc true b c = refl
or_assoc false b c = refl

joined-none : (fs : List Filter) (oks : List Bool) → joined fs [] oks ≡ oks
joined-none [] oks = refl
joined-none (f ∷ fs) [] = refl
joined-none (f ∷ fs) (ok ∷ oks) = ap₂ (λ x xs. x ∷ xs) (or-false ok) (joined-none fs oks)

joined-report :
    (fs : List Filter) (r : Receipt) (rs : List Receipt) (oks : List Bool)
    → joined fs rs (report fs r oks) ≡ joined fs (r ∷ rs) oks
joined-report [] r rs oks = refl
joined-report (f ∷ fs) r rs [] = refl
joined-report (f ∷ fs) r rs (ok ∷ oks) =
    ap₂ (λ x xs. x ∷ xs) (or_assoc ok (is_match (match_receipt f r)) (any_match f rs))
      (joined-report fs r rs oks)

joined-all_false :
    (fs : List Filter) (rs : List Receipt)
    → joined fs rs (all_false fs) ≡ map (λ f. any_match f rs) fs
unfolding all_false
joined-all_false [] rs = refl
joined-all_false (f ∷ fs) rs = ap (λ xs. any_match f rs ∷ xs) (joined-all_false fs rs)

or_next_report :
    (e : Option Err) (ok ok' : Bool) (oks oks' : List Bool) (s : Subscriber) (rest : MatchedAll)
    → ok ≡ ok'
    → (rest.2 ≡ none → rest.1 ≡ oks')
    → (or_next e ok oks s rest).2 ≡ none
    → (or_next e ok oks s rest).1 ≡ ok' ∷ oks'
unfolding or_next
or_next_report (some x) ok ok' oks oks' s rest same k e = cc
or_next_report none ok ok' oks oks' s (t, us, u) same k e = ap₂ (λ x xs. x ∷ xs) same (k e)

match_each-report :
    (l : Listener) (fs : List Filter) (r : Receipt) (s : Subscriber) (oks : List Bool)
    → (match_each l fs r s oks).2 ≡ none
    → (match_each l fs r s oks).1 ≡ report fs r oks
unfolding match_each match_one
match_each-report l [] r s oks e = refl
match_each-report l (f ∷ fs) r s [] e = refl
match_each-report l (f ∷ fs) r s (ok ∷ oks) e =
    let t = (match_one l f r s).0 in
    or_next_report _ _ (ok || is_match (match_receipt f r)) oks (report fs r oks) t
      (match_each l fs r t oks) (ap (λ b. ok || b) (matched_result (match_receipt f r) l f r s))
      (match_each-report l fs r t oks) e

or_later-report :
    (fs : List Filter) (r : Receipt) (rs : List Receipt) (oks : List Bool) (m : MatchedAll)
    (next : Subscriber → List Bool → MatchedAll)
    → (m.2 ≡ none → m.1 ≡ report fs r oks)
    → ((t : Subscriber) (us : List Bool) → (next t us).2 ≡ none → (next t us).1 ≡ joined fs rs us)
    → (or_later m next).2 ≡ none
    → (or_later m next).1 ≡ joined fs (r ∷ rs) oks
unfolding or_later
or_later-report fs r rs oks (t, us, some x) next h k e = cc
or_later-report fs r rs oks (t, us, none) next h k e =
    k t us e ∙ (ap (joined fs rs) (h refl) ∙ joined-report fs r rs oks)

match_all-joined :
    (l : Listener) (fs : List Filter) (rs : List Receipt) (s : Subscriber) (oks : List Bool)
    → (match_all l fs rs s oks).2 ≡ none
    → (match_all l fs rs s oks).1 ≡ joined fs rs oks
unfolding match_all
match_all-joined l fs [] s oks e = sym (joined-none fs oks)
match_all-joined l fs (r ∷ rs) s oks e =
    or_later-report fs r rs oks (match_each l fs r s oks) _ (match_each-report l fs r s oks)
      (λ t us. match_all-joined l fs rs t us) e

-- Where no match or fetch fails, `matchFilters` reports for each filter whether it matches one of the
-- receipts.
pub match_filters_reports :
    (l : Listener) (fs : List Filter) (rs : List Receipt) (s : Subscriber)
    → (match_filters l fs rs s).2 ≡ none
    → (match_filters l fs rs s).1 ≡ map (λ f. any_match f rs) fs
unfolding match_filters
match_filters_reports l fs rs s e =
    match_all-joined l fs rs s (all_false fs) e ∙ joined-all_false fs rs
