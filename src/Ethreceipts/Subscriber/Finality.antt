-- ===== src/Ethreceipts/Subscriber/Finality.antt =====
-- What `finalizeReceipts` sends.
use ethkit.Prelude.{
  ℕ, ◌≡◌, refl, sym, ap, ◌∙◌, Bool, true, false, Option, none, some, List, [], ◌∷◌, ◌++◌,
  append_assoc, append-nil, length, drop, ◌==◌, ==_iff, Bool-cases, inl, inr, arith,
}
use ethkit.Ethreceipts.Filter.{Filter}
use ethkit.Ethreceipts.Receipt.{Receipt}
use ethkit.Ethreceipts.Finalizer as Finalizers
use ethkit.Ethreceipts.Finalizer.{FinalTxn, Finalizer, finals, dequeue}
use ethkit.Ethreceipts.Subscriber.{
  Subscriber, done_with, remove_done, send, dispatch_one, dispatch, finalize_receipts,
}

-- The specification: the receipts of the entries, final, without those that were reorged.
abbrev pub unless_reorged : Bool → Receipt → List Receipt
unless_reorged true r = []
unless_reorged false r = record r { final = true } ∷ []

abbrev pub finalized : List FinalTxn → List Receipt
finalized [] = []
finalized (x ∷ xs) = unless_reorged x.receipt.reorged x.receipt ++ finalized xs

length-eq-zero : (xs : List FinalTxn) → length xs ≡ 0 → xs ≡ []
length-eq-zero [] e = refl
length-eq-zero (x ∷ xs) e = absurd (omega (arith, e))

dequeue-empty :
    (current : ℕ) (f : Finalizer)
    → f.queue ≡ []
    → ((dequeue current f).1 ≡ []) × ((dequeue current f).0 ≡ f)
unfolding dequeue finals
dequeue-empty current f e = (
  ap (finals current f.num_blocks_to_finality) e,
  ap (λ q. record f { queue = drop (length (finals current f.num_blocks_to_finality q)) q }) e
      ∙ ap (λ q. record f { queue = q }) (sym e),
)

remove_done_keeps :
    (o : Option Filter) (s : Subscriber)
    → ((remove_done o s).sent ≡ s.sent) × ((remove_done o s).finalizer ≡ s.finalizer)
unfolding remove_done
remove_done_keeps none s = (refl, refl)
remove_done_keeps (some f) s = elim (Bool-cases (done_with f)) [
  | inl t ↦ rw t (refl, refl)
  | inr t ↦ rw t (refl, refl)
]

dispatch_one_sends :
    (b : Bool) (r : Receipt) (s : Subscriber)
    → ((dispatch_one b r s).sent ≡ s.sent ++ unless_reorged b r)
      × ((dispatch_one b r s).finalizer ≡ s.finalizer)
unfolding dispatch_one
dispatch_one_sends true r s = (sym (append-nil s.sent), refl)
dispatch_one_sends false r s = remove_done_keeps r.filter (send (record r { final = true }) s)

dispatch_sends :
    (xs : List FinalTxn) (s : Subscriber)
    → ((dispatch xs s).sent ≡ s.sent ++ finalized xs) × ((dispatch xs s).finalizer ≡ s.finalizer)
unfolding dispatch
dispatch_sends [] s = (sym (append-nil s.sent), refl)
dispatch_sends (x ∷ xs) s =
    let (sent, kept) = dispatch_one_sends x.receipt.reorged x.receipt s in
    let (sent_later, kept_later) = dispatch_sends xs (dispatch_one x.receipt.reorged x.receipt s) in
    (
      sent_later
          ∙ (ap (λ l. l ++ finalized xs) sent
              ∙ append_assoc s.sent (unless_reorged x.receipt.reorged x.receipt) (finalized xs)),
      kept_later ∙ kept,
    )

-- `finalizeReceipts` sends the receipts that the finalizer hands out for the block, marked as final,
-- without those that were reorged, and the finalizer is as its `dequeue` leaves it.
pub finalize_receipts_sends :
    (block_num : ℕ) (s : Subscriber)
    → ((finalize_receipts block_num s).sent ≡ s.sent ++ finalized (dequeue block_num s.finalizer).1)
      × ((finalize_receipts block_num s).finalizer ≡ (dequeue block_num s.finalizer).0)
unfolding finalize_receipts
finalize_receipts_sends block_num s = elim (Bool-cases (Finalizers.len s.finalizer == 0)) [
  | inl t ↦
      let nothing : s.finalizer.queue ≡ [] = length-eq-zero s.finalizer.queue ((==_iff _ _).0 t) in
      let (out, left) = dequeue-empty block_num s.finalizer nothing in
      rw t (sym (append-nil s.sent) ∙ ap (λ o. s.sent ++ finalized o) (sym out), sym left)
  | inr t ↦
      let (sent, kept) =
        dispatch_sends (dequeue block_num s.finalizer).1
          (record s { finalizer = (dequeue block_num s.finalizer).0 }) in
      rw t (sent, kept)
]
