-- ===== src/Ethmonitor/Queue/Delivery.antt =====
-- The events that leave the queue, with those that wait in it, mean the same to a subscriber as the
-- events that went in.
use ethkit.Prelude.{
  ℕ, ◌≡◌, refl, true, Option, none, some, List, [], ◌∷◌, ◌++◌, append_assoc, append-nil, get_last?,
  get_last?-eq-some, drop_last-snoc, length, ◌≤◌, ◌↔◌, arith, ◌==◌,
}
use ethkit.Ethmonitor.Block.{Event, added, removed, unknown, Block}
use ethkit.Ethmonitor.Replay.{undo, effect, play, play_split, play_join}
use ethkit.Ethmonitor.Queue.{
  Err, queue_full, check_cap, Queue, put_removal, put_removed, put_event, put, put_next, put_all,
  enqueue,
}

append_keeps :
    (e : Block) (q es : List Block) (s t : List ℕ)
    → play (q ++ e ∷ es) s ≡ some t
    → play ((q ++ e ∷ []) ++ es) s ≡ some t
append_keeps e q es s t h = rw append_assoc h

undo_last :
    (e last : Block) (es : List Block) (m t : List ℕ)
    → e.event ≡ removed
    → last.event ≡ added
    → play (last ∷ e ∷ es) m ≡ some t
    → ((e.hash == last.hash) ≡ true) × (play es m ≡ some t)
unfolding play effect undo
undo_last e last es m t er la k = ground arith

-- A removal of the block just added takes it off, and the two events are dropped together.
cancel_keeps :
    (e last : Block) (q es : List Block) (s t : List ℕ)
    → e.event ≡ removed
    → last.event ≡ added
    → play (q ++ last ∷ e ∷ es) s ≡ some t
    → ((e.hash == last.hash) ≡ true) × (play (q ++ es) s ≡ some t)
cancel_keeps e last q es s t er la h =
    let (m, before, after) = play_split q (last ∷ e ∷ es) s t h in
    let (same, rest) = undo_last e last es m t er la after in
    (same, play_join q es s m t before rest)

not_unknown :
    (e : Block) (n : ℕ) (q es : List Block) (s t : List ℕ)
    → e.event ≡ unknown n
    → play (q ++ e ∷ es) s ≡ some t
    → ⊥
unfolding play effect
not_unknown e n q es s t eu h = let (m, before, after) = play_split q (e ∷ es) s t h in ground arith

module _ (e : Block) (q es : List Block) (s t : List ℕ)
    (plays : play (q ++ e ∷ es) s ≡ some t) where
  put_removal_keeps :
      (ev : Event) (last : Block) (q0 : List Block)
      → e.event ≡ removed
      → last.event ≡ ev
      → q ≡ q0 ++ last ∷ []
      → ((put_removal ev last e q).1 ≡ none) × (play ((put_removal ev last e q).0 ++ es) s ≡ some t)
  unfolding put_removal
  put_removal_keeps added last q0 er la split =
      let h : play (q0 ++ last ∷ e ∷ es) s ≡ some t = rw (split, append_assoc) at plays in
      let (same, rest) = cancel_keeps e last q0 es s t er la h in
      rw (same, split, drop_last-snoc) (refl, rest)
  put_removal_keeps removed last q0 er la split = (refl, append_keeps e q es s t plays)
  put_removal_keeps (unknown n) last q0 er la split =
      absurd (not_unknown last n q0 (e ∷ es) s t la (rw (split, append_assoc) at plays))

  put_removed_keeps :
      (o : Option Block)
      → e.event ≡ removed
      → get_last? q ≡ o
      → ((put_removed o e q).1 ≡ none) × (play ((put_removed o e q).0 ++ es) s ≡ some t)
  unfolding put_removed
  put_removed_keeps none er l = (refl, append_keeps e q es s t plays)
  put_removed_keeps (some last) er l =
      let (q0, split) = get_last?-eq-some q last l in
      put_removal_keeps last.event last q0 er refl split

  put_event_keeps :
      (ev : Event)
      → e.event ≡ ev
      → ((put_event ev e q).1 ≡ none) × (play ((put_event ev e q).0 ++ es) s ≡ some t)
  unfolding put_event
  put_event_keeps added ee = (refl, append_keeps e q es s t plays)
  put_event_keeps removed ee = put_removed_keeps (get_last? q) ee refl
  put_event_keeps (unknown n) ee = absurd (not_unknown e n q es s t ee plays)

  put_keeps : ((put e q).1 ≡ none) × (play ((put e q).0 ++ es) s ≡ some t)
  unfolding put
  put_keeps = put_event_keeps e.event refl

put_all_keeps :
    (es q : List Block) (s t : List ℕ)
    → play (q ++ es) s ≡ some t
    → ((put_all es q).1 ≡ none) × (play (put_all es q).0 s ≡ some t)
unfolding put_all put_next
put_all_keeps [] q s t h = (refl, rw append-nil at h)
put_all_keeps (e ∷ es) q s t h =
    let (fine, now) = put_keeps e q es s t h in
    rw (fine, put_next) (put_all_keeps es (put e q).0 s t now)

-- Where the queued and the new events make sense one after the other, `enqueue` refuses none of the
-- new ones: its only error is the full queue, which is reported exactly where the capacity is
-- passed, and what is queued then means the same.
pub enqueue-play :
    (es : List Block) (q : Queue) (s t : List ℕ)
    → play (q.events ++ es) s ≡ some t
    → (play (enqueue es q).0.events s ≡ some t)
      × (((enqueue es q).1 ≡ none) ↔ (length (enqueue es q).0.events ≤ q.cap))
      × ((x : Err) → (enqueue es q).1 ≡ some x → x ≡ queue_full)
unfolding enqueue check_cap
enqueue-play es q s t h =
    let (fine, now) = put_all_keeps es q.events s t h in
    (
      now,
      rw (fine, check_cap) (λ e. ground arith, λ e. ground arith),
      rw (fine, check_cap) (λ x e. ground arith),
    )
