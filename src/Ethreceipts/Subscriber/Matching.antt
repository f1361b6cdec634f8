-- ===== src/Ethreceipts/Subscriber/Matching.antt =====
-- What `matchFilters` reports, and what it leaves alone where a block was reorged.
use ethkit.Prelude.{
  ◌≡◌, refl, sym, ap, ◌∙◌, subst, Bool, true, false, ◌&&◌, not, Option, none, some, List, [], ◌∷◌,
  All, if◌then◌else◌,
}
use ethkit.Ethreceipts.Filter.{Filter}
use ethkit.Ethreceipts.Receipt.{Receipt, match_receipt, block_number}
use ethkit.Ethreceipts.Subscriber.{
  Listener, Err, Subscriber, MatchedAll, remove_filter, enqueue_at, enqueue_match, limit_match,
  deliver, deliver_match, match_result, match_one, or_next, match_each, or_later, match_all,
  all_false, match_filters,
}

unless {ℓ} : {A : Type ℓ} (b : Bool) (x y : A) → b ≡ false → (if b then x else y) ≡ y
unless b x y e = λ i. if e i then x else y

-- Filters and finalizer are those of before.
abbrev pub SameState : Subscriber → Subscriber → Type 0
SameState s t = (t.filters ≡ s.filters) × (t.finalizer ≡ s.finalizer)

SameState-deliver :
    (l : Listener) (f : Filter) (r : Receipt) (s : Subscriber)
    → r.reorged ≡ true
    → SameState s (deliver l f r s)
unfolding deliver enqueue_match limit_match
SameState-deliver l f r s e =
    let entered : enqueue_match f r s ≡ s =
      unless _ (enqueue_at (block_number r) f.options.id r s) s
        (λ i. not (e i) && not r.final && f.options.finalize) in
    let limited : limit_match f r (enqueue_match f r s) ≡ enqueue_match f r s =
      unless _ (remove_filter f (enqueue_match f r s)) (enqueue_match f r s)
        (λ i. not (e i) && f.options.limit_one && not (f.options.finalize && not r.final)) in
    (ap (λ t. t.filters) (limited ∙ entered), ap (λ t. t.finalizer) (limited ∙ entered))

SameState-match_result :
    (o : Option Bool) (l : Listener) (f : Filter) (r : Receipt) (s : Subscriber)
    → r.reorged ≡ true
    → SameState s (match_result o l f r s).0
unfolding match_result deliver_match
SameState-match_result none l f r s e = (refl, refl)
SameState-match_result (some false) l f r s e = (refl, refl)
SameState-match_result (some true) l f r s e =
    subst (λ b. SameState s (deliver_match b l f (record r { filter = some f }) s).0) (sym e)
      (SameState-deliver l f (record r { filter = some f }) s e)

trans_state : (a b c : Subscriber) → SameState a b → SameState b c → SameState a c
trans_state a b c (p, q) (p', q') = (p' ∙ p, q' ∙ q)

or_next_state :
    (e : Option Err) (ok : Bool) (oks : List Bool) (s t : Subscriber) (rest : MatchedAll)
    → SameState s t
    → SameState t rest.0
    → SameState s (or_next e ok oks t rest).0
unfolding or_next
or_next_state none ok oks s t (u, oks', e) h k = trans_state s t u h k
or_next_state (some x) ok oks s t rest h k = h

SameState-match_each :
    (l : Listener) (fs : List Filter) (r : Receipt) (s : Subscriber) (oks : List Bool)
    → r.reorged ≡ true
    → SameState s (match_each l fs r s oks).0
unfolding match_each match_one
SameState-match_each l [] r s oks e = (refl, refl)
SameState-match_each l (f ∷ fs) r s [] e = (refl, refl)
SameState-match_each l (f ∷ fs) r s (ok ∷ oks) e =
    or_next_state _ _ oks s (match_one l f r s).0 (match_each l fs r (match_one l f r s).0 oks)
      (SameState-match_result (match_receipt f r) l f r s e)
      (SameState-match_each l fs r (match_one l f r s).0 oks e)

or_later_state :
    (m : MatchedAll) (next : Subscriber → List Bool → MatchedAll) (s : Subscriber)
    → SameState s m.0
    → ((t : Subscriber) (oks : List Bool) → SameState t (next t oks).0)
    → SameState s (or_later m next).0
unfolding or_later
or_later_state (t, oks, none) next s h k = trans_state s t (next t oks).0 h (k t oks)
or_later_state (t, oks, some e) next s h k = h

SameState-match_all :
    (l : Listener) (fs : List Filter) (rs : List Receipt) (s : Subscriber) (oks : List Bool)
    → All (λ r. r.reorged ≡ true) rs
    → SameState s (match_all l fs rs s oks).0
unfolding match_all
SameState-match_all l fs [] s oks h = (refl, refl)
SameState-match_all l fs (r ∷ rs) s oks (e, h) =
    or_later_state (match_each l fs r s oks) _ s (SameState-match_each l fs r s oks e)
      (λ t oks'. SameState-match_all l fs rs t oks' h)

-- The receipts of a reorged block neither enter the finalizer nor take a filter off, whatever they
-- match and whether or not an error ends the matching.
pub match_filters_reorged :
    (l : Listener) (fs : List Filter) (rs : List Receipt) (s : Subscriber)
    → All (λ r. r.reorged ≡ true) rs
    → ((match_filters l fs rs s).0.filters ≡ s.filters)
      × ((match_filters l fs rs s).0.finalizer ≡ s.finalizer)
unfolding match_filters
match_filters_reorged l fs rs s h = SameState-match_all l fs rs s (all_false fs) h
