-- ===== src/Ethmonitor/Queue/Order.antt =====
-- In the queue every removal stands before every addition.
use ethkit.Prelude.{
  ℕ, ◌≡◌, refl, sym, ap, ◌∙◌, subst, Option, none, some, List, [], ◌∷◌, ◌++◌, append_assoc,
  append-nil, get_last?, drop_last, get_last?-eq-some, get_last?-snoc, drop_last-snoc, snoc-cases,
  arith, All, All-append, All-suffix, All-prefix, ◌==◌, Bool-cases, Option-cases, inl, inr,
}
use ethkit.Ethmonitor.Block.{Event, added, removed, unknown, Block}
use ethkit.Ethmonitor.Queue.{
  Queue, put_removal, put_removed, put_event, put, put_next, put_all, enqueue, dequeue,
}
use ethkit.Ethmonitor.Queue.Batches.{dequeue_batch}

abbrev pub IsAdded : Block → Type 0
IsAdded e = e.event ≡ added

abbrev pub IsRemoved : Block → Type 0
IsRemoved e = e.event ≡ removed

pub record RemovalsFirst (q : List Block) : Type 0 where
  pub removals : List Block
  pub additions : List Block
  pub split : q ≡ removals ++ additions
  pub are_removed : All IsRemoved removals
  pub are_added : All IsAdded additions

add_last :
    (e : Block) (q : List Block) → e.event ≡ added → RemovalsFirst q → RemovalsFirst (q ++ e ∷ [])
add_last e q p r = record {
  removals = r.removals;
  additions = r.additions ++ e ∷ [];
  split = ap (λ l. l ++ e ∷ []) r.split ∙ append_assoc r.removals r.additions (e ∷ []);
  are_removed = r.are_removed;
  are_added = All-append IsAdded r.additions (e ∷ []) r.are_added (p, tt);
}

-- A queue that is empty or ends in a removal holds removals only.
only_removals :
    (q : List Block)
    → RemovalsFirst q
    → ((last : Block) → get_last? q ≡ some last → last.event ≡ added → ⊥)
    → All IsRemoved q
only_removals q r never = elim (snoc-cases r.additions) [
  | inl e ↦
      subst (All IsRemoved) (sym (r.split ∙ (ap (λ l. r.removals ++ l) e ∙ append-nil r.removals)))
        r.are_removed
  | inr (ys, y, e) ↦
      let shape : q ≡ (r.removals ++ ys) ++ y ∷ [] =
        r.split ∙ (ap (λ l. r.removals ++ l) e ∙ sym (append_assoc r.removals ys (y ∷ []))) in
      absurd (
        never y (ap get_last? shape ∙ get_last?-snoc (r.removals ++ ys) y)
          (All-suffix IsAdded ys (y ∷ []) (subst (All IsAdded) e r.are_added)).0)
]

remove_last :
    (e : Block) (q : List Block) → e.event ≡ removed → All IsRemoved q → RemovalsFirst (q ++ e ∷ [])
remove_last e q p all = record {
  removals = q ++ e ∷ [];
  additions = [];
  split = sym (append-nil (q ++ e ∷ []));
  are_removed = All-append IsRemoved q (e ∷ []) all (p, tt);
  are_added = tt;
}

-- Taking the last addition off.
undo_last :
    (q0 : List Block) (last : Block)
    → last.event ≡ added
    → RemovalsFirst (q0 ++ last ∷ [])
    → RemovalsFirst q0
undo_last q0 last p r = elim (snoc-cases r.additions) [
  | inl e ↦
      let all : All IsRemoved (q0 ++ last ∷ []) =
        subst (All IsRemoved)
          (sym (r.split ∙ (ap (λ l. r.removals ++ l) e ∙ append-nil r.removals))) r.are_removed in
      record {
        removals = q0;
        additions = [];
        split = sym (append-nil q0);
        are_removed = All-prefix IsRemoved q0 (last ∷ []) all;
        are_added = tt;
      }
  | inr (ys, y, e) ↦
      let shape : q0 ++ last ∷ [] ≡ (r.removals ++ ys) ++ y ∷ [] =
        r.split ∙ (ap (λ l. r.removals ++ l) e ∙ sym (append_assoc r.removals ys (y ∷ []))) in
      record {
        removals = r.removals;
        additions = ys;
        split =
            sym (drop_last-snoc q0 last)
            ∙ (ap drop_last shape ∙ drop_last-snoc (r.removals ++ ys) y);
        are_removed = r.are_removed;
        are_added = All-prefix IsAdded ys (y ∷ []) (subst (All IsAdded) e r.are_added);
      }
]

module _ (e : Block) (q : List Block) (r : RemovalsFirst q) where
  put_removal-RemovalsFirst :
      (ev : Event) (last : Block)
      → e.event ≡ removed
      → last.event ≡ ev
      → get_last? q ≡ some last
      → RemovalsFirst (put_removal ev last e q).0
  unfolding put_removal
  put_removal-RemovalsFirst added last er la l = elim (Bool-cases (e.hash == last.hash)) [
    | inr t ↦ rw t r
    | inl t ↦
        let (q0, split) = get_last?-eq-some q last l in
        let rest : drop_last q ≡ q0 = ap drop_last split ∙ drop_last-snoc q0 last in
        rw (t, rest) (undo_last q0 last la (subst RemovalsFirst split r))
  ]
  put_removal-RemovalsFirst removed last er la l =
      remove_last e q er (only_removals q r (λ y f g. ground arith))
  put_removal-RemovalsFirst (unknown n) last er la l = r

  put_removed-RemovalsFirst :
      (o : Option Block) → e.event ≡ removed → get_last? q ≡ o → RemovalsFirst (put_removed o e q).0
  unfolding put_removed
  put_removed-RemovalsFirst none er l =
      remove_last e q er (only_removals q r (λ y f g. ground arith))
  put_removed-RemovalsFirst (some last) er l = put_removal-RemovalsFirst last.event last er refl l

  put_event-RemovalsFirst : (ev : Event) → e.event ≡ ev → RemovalsFirst (put_event ev e q).0
  unfolding put_event
  put_event-RemovalsFirst added ee = add_last e q ee r
  put_event-RemovalsFirst removed ee = put_removed-RemovalsFirst (get_last? q) ee refl
  put_event-RemovalsFirst (unknown n) ee = r

  put-RemovalsFirst : RemovalsFirst (put e q).0
  unfolding put
  put-RemovalsFirst = put_event-RemovalsFirst e.event refl

put_all-RemovalsFirst : (es q : List Block) → RemovalsFirst q → RemovalsFirst (put_all es q).0
unfolding put_all put_next
put_all-RemovalsFirst [] q r = r
put_all-RemovalsFirst (e ∷ es) q r = elim (Option-cases (put e q).1) [
  | inl fine ↦ rw (fine, put_next) (put_all-RemovalsFirst es (put e q).0 (put-RemovalsFirst e q r))
  | inr (x, bad) ↦ rw (bad, put_next) (put-RemovalsFirst e q r)
]

-- Where the removals stand in front of the additions in a queue, they still do after `enqueue`,
-- whatever events it is given, and whether it accepts or refuses them.
pub enqueue-RemovalsFirst :
    (es : List Block) (q : Queue) → RemovalsFirst q.events → RemovalsFirst (enqueue es q).0.events
unfolding enqueue
enqueue-RemovalsFirst es q r = put_all-RemovalsFirst es q.events r

rest_added :
    (rs as' front : List Block) (last : Block) (rest : List Block)
    → rs ++ as' ≡ front ++ last ∷ rest
    → All IsRemoved rs
    → All IsAdded as'
    → last.event ≡ added
    → All IsAdded rest
rest_added [] as' front last rest e r a p =
    (All-suffix IsAdded front (last ∷ rest) (subst (All IsAdded) e a)).1
rest_added (r ∷ rs) as' [] last rest e (q, h) a p =
    let same : r ≡ last = cc in absurd (ground arith)
rest_added (r ∷ rs) as' (f ∷ front) last rest e (q, h) a p =
    rest_added rs as' front last rest (cc) h a p

-- Where the removals stand in front of the additions in a queue, only additions wait after a batch
-- has left.
pub dequeue_leaves_additions :
    (max_num : ℕ) (q : Queue) (out : List Block)
    → RemovalsFirst q.events
    → (dequeue max_num q).1 ≡ some out
    → All IsAdded (dequeue max_num q).0.events
dequeue_leaves_additions max_num q out r h =
    let (split, due, ends, stops) = dequeue_batch max_num q out h in
    let (front, last, shape, p) = ends in
    let rest = (dequeue max_num q).0.events in
    let whole : r.removals ++ r.additions ≡ front ++ last ∷ rest =
      sym r.split ∙ (split ∙ (ap (λ l. l ++ rest) shape ∙ append_assoc front (last ∷ []) rest)) in
    rest_added r.removals r.additions front last rest whole r.are_removed r.are_added p
