-- ===== src/Ethmonitor/Queue/Batches.antt =====
-- What `dequeue` hands out, and the order of removals and additions in the queue.
use ethkit.Prelude.{
  ℕ, ◌≤◌, ◌≡◌, refl, ap, ◌∙◌, subst, Bool, true, false, ◌&&◌, not, Option, none, some, List, [],
  ◌∷◌, ◌++◌, append-nil, get_last?, get_last?-eq-some, get_last?-snoc, arith, length, drop,
  drop-length-append, ltb, All, Bool-cases, ◌⊎◌, inl, inr, if◌then◌else◌,
}
use ethkit.Ethmonitor.Block.{Event, added, removed, unknown, Block, event_eq, number_u64}
use ethkit.Ethmonitor.Queue.{Queue, collect, ready, hand_out, dequeue}

-- May leave the queue now: its data is complete, and it is not past the limit, where one is set.
abbrev pub IsDue : ℕ → Block → Type 0
IsDue max_num e = (e.ok ≡ true) × ((max_num ≡ 0) ⊎ (number_u64 e ≤ max_num))

-- The list ends in an added block.
abbrev pub EndsAdded : List Block → Type 0
EndsAdded es =
    (front : List Block) × (last : Block) × (es ≡ front ++ last ∷ []) × (last.event ≡ added)

-- What `ready` leaves: nothing, or a first event that is not due.
abbrev pub Stops : ℕ → List Block → Type 0
Stops max_num [] = Unit
Stops max_num (e ∷ es) = ¬ IsDue max_num e

-- `out` is a due front of `es`, as long as it can be.
abbrev IsDueFront : ℕ → List Block → List Block → Type 0
IsDueFront max_num es out =
    All (IsDue max_num) out × ((rest : List Block) × (es ≡ out ++ rest) × Stops max_num rest)

collect_lem :
    (max_num : ℕ) (ok past : Bool) (e : Block) (es out : List Block)
    → e.ok ≡ ok
    → (ltb 0 max_num && ltb max_num (number_u64 e)) ≡ past
    → IsDueFront max_num es out
    → IsDueFront max_num (e ∷ es) (collect ok past e out)
unfolding collect
collect_lem max_num false past e es out p q f = (tt, (e ∷ es, refl, λ d. ground arith))
collect_lem max_num true true e es out p q f = (tt, (e ∷ es, refl, λ d. ground arith))
collect_lem max_num true false e es out p q (due, (rest, split, stops)) =
    (((p, ground arith), due), (rest, ap (λ l. e ∷ l) split, stops))

ready_lem : (max_num : ℕ) (es : List Block) → IsDueFront max_num es (ready max_num es)
unfolding ready
ready_lem max_num [] = (tt, ([], refl, tt))
ready_lem max_num (e ∷ es) =
    collect_lem max_num e.ok _ e es (ready max_num es) refl refl (ready_lem max_num es)

event_eq_added : (e : Event) → event_eq e added ≡ true → e ≡ added
event_eq_added added h = refl
event_eq_added removed h = cc
event_eq_added (unknown n) h = cc

hand_out-some :
    (o : Option Block) (events : List Block) (q : Queue) (out : List Block)
    → (hand_out o events q).1 ≡ some out
    → (last : Block) × (o ≡ some last)
      × (last.event ≡ added)
      × (out ≡ events)
      × ((hand_out o events q).0.events ≡ drop (length events) q.events)
unfolding hand_out
hand_out-some none events q out h = cc
hand_out-some (some last) events q out h = elim (Bool-cases (event_eq last.event added)) [
  | inl e ↦
      let got : out ≡ events = ground arith in
      rw e (last, refl, event_eq_added last.event e, got, refl)
  | inr e ↦ cc (rw e at h)
]

-- A batch is the front of the queue and is taken off it; each of its events is due, the last one adds
-- a block, and the first event that stays is not due.
pub dequeue_batch :
    (max_num : ℕ) (q : Queue) (out : List Block)
    → (dequeue max_num q).1 ≡ some out
    → (q.events ≡ out ++ (dequeue max_num q).0.events)
      × All (IsDue max_num) out
      × EndsAdded out
      × Stops max_num (dequeue max_num q).0.events
unfolding dequeue
dequeue_batch max_num q out h =
    let es = ready max_num q.events in
    let (last, ends, is_added, got, left) = hand_out-some (get_last? es) es q out h in
    let (due, found) = ready_lem max_num q.events in
    let (rest, split, stops) = found in
    let (front, shape) = get_last?-eq-some es last ends in
    let remains : (hand_out (get_last? es) es q).0.events ≡ rest =
      left ∙ (ap (drop (length es)) split ∙ drop-length-append es rest) in
    rw (got, remains) (split, due, (front, last, shape, is_added), stops)

hand_out-none :
    (o : Option Block) (events : List Block) (q : Queue)
    → (hand_out o events q).1 ≡ none
    → (hand_out o events q).0 ≡ q
unfolding hand_out
hand_out-none none events q h = refl
hand_out-none (some last) events q h = ground arith

-- Without a batch the queue stays as it was.
pub dequeue_nothing :
    (max_num : ℕ) (q : Queue) → (dequeue max_num q).1 ≡ none → (dequeue max_num q).0 ≡ q
unfolding dequeue
dequeue_nothing max_num q h = hand_out-none _ _ q h

ready-All : (max_num : ℕ) (es : List Block) → All (IsDue max_num) es → ready max_num es ≡ es
unfolding ready collect
ready-All max_num [] h = refl
ready-All max_num (e ∷ es) (d, h) =
    let inside : (ltb 0 max_num && ltb max_num (number_u64 e)) ≡ false = ground arith in
    λ i. collect (d.0 i) (inside i) e (ready-All max_num es h i)

hand_out_added :
    (last : Block) (events : List Block) (q : Queue)
    → last.event ≡ added
    → hand_out (some last) events q
      ≡ (record q { events = drop (length events) q.events }, some events)
unfolding hand_out
hand_out_added last events q h = λ i.
    if not (event_eq (h i) added)
    then (q, none)
    else (record q { events = drop (length events) q.events }, some events)

-- A queue whose events are all due, and which ends in an added block, is handed out whole.
pub dequeue-All :
    (max_num : ℕ) (q : Queue)
    → All (IsDue max_num) q.events
    → EndsAdded q.events
    → dequeue max_num q ≡ (record q { events = [] }, some q.events)
unfolding dequeue hand_out
dequeue-All max_num q h (front, last, shape, is_added) =
    let all = ready-All max_num q.events h in
    let ends : get_last? (ready max_num q.events) ≡ some last =
      ap get_last? (all ∙ shape) ∙ get_last?-snoc front last in
    let none_left : drop (length q.events) q.events ≡ [] =
      subst (λ l. drop (length q.events) l ≡ []) (append-nil q.events)
        (drop-length-append q.events []) in
    rw (ends, all) (hand_out_added last q.events q is_added ∙ rw none_left)
