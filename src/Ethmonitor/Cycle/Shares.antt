-- ===== src/Ethmonitor/Cycle/Shares.antt =====
-- Changes of logs and readiness leave which blocks there are, and their events.
use ethkit.Prelude.{
  ℕ, suc, ◌+◌, ◌≡◌, u64, subst, refl, sym, ap, ap₂, ◌∙◌, Bool, true, List, [], ◌∷◌, ◌++◌, map,
  reverse, length, some, get_last?, Bool-cases, inl, inr,
}
use ethkit.Ethmonitor.Block.{Block, Event}
use ethkit.Ethmonitor.Types.{EthBlock}
use ethkit.Ethmonitor.Replay.{play}
use ethkit.Ethmonitor.Queue.Runs.{SameEvents, SameEvents-play}
use ethkit.Ethmonitor.Chain.Invariant.{Linked}
use ethkit.Ethmonitor.Build.Events.{hashes}
use ethkit.Ethmonitor.Logs.{LogsWorld, add_logs}
use ethkit.Ethmonitor.Logs.Keeps.{identity, identity-add_logs_one}
use ethkit.Ethmonitor.Cycle.{shared, clear_logs}

-- The same blocks with the same events, one by one.
abbrev pub SameBlocks : List Block → List Block → Type 0
SameBlocks [] [] = Unit
SameBlocks (a ∷ as') (b ∷ bs) = (identity a ≡ identity b) × SameBlocks as' bs
SameBlocks _ _ = ⊥

pub SameBlocks-map :
    (f : Block → Block) (xs : List Block)
    → ((b : Block) → identity (f b) ≡ identity b)
    → SameBlocks xs (map f xs)
SameBlocks-map f [] h = tt
SameBlocks-map f (x ∷ xs) h = (sym (h x), SameBlocks-map f xs h)

pub SameBlocks-of_map : (xs ys : List Block) → map identity xs ≡ map identity ys → SameBlocks xs ys
SameBlocks-of_map [] [] e = tt
SameBlocks-of_map [] (y ∷ ys) e = cc
SameBlocks-of_map (x ∷ xs) [] e = cc
SameBlocks-of_map (x ∷ xs) (y ∷ ys) e = (cc, SameBlocks-of_map xs ys (cc))

pub SameBlocks-refl : (xs : List Block) → SameBlocks xs xs
SameBlocks-refl [] = tt
SameBlocks-refl (x ∷ xs) = (refl, SameBlocks-refl xs)

pub SameBlocks-trans :
    (xs ys zs : List Block) → SameBlocks xs ys → SameBlocks ys zs → SameBlocks xs zs
SameBlocks-trans [] [] [] h k = tt
SameBlocks-trans [] [] (z ∷ zs) h k = absurd k
SameBlocks-trans [] (y ∷ ys) zs h k = absurd h
SameBlocks-trans (x ∷ xs) [] zs h k = absurd h
SameBlocks-trans (x ∷ xs) (y ∷ ys) [] h k = absurd k
SameBlocks-trans (x ∷ xs) (y ∷ ys) (z ∷ zs) (p, h) (q, k) = (p ∙ q, SameBlocks-trans xs ys zs h k)

pub SameBlocks-SameEvents : (xs ys : List Block) → SameBlocks xs ys → SameEvents xs ys
SameBlocks-SameEvents [] [] h = tt
SameBlocks-SameEvents [] (y ∷ ys) h = absurd h
SameBlocks-SameEvents (x ∷ xs) [] h = absurd h
SameBlocks-SameEvents (x ∷ xs) (y ∷ ys) (p, h) =
    (ap (λ i. i.0.hash) p, ap (λ i. i.1) p, SameBlocks-SameEvents xs ys h)

pub SameBlocks-play : (xs ys : List Block) (s : List ℕ) → SameBlocks xs ys → play xs s ≡ play ys s
SameBlocks-play xs ys s h = SameEvents-play xs ys s (SameBlocks-SameEvents xs ys h)

map_hash-eq :
    (xs ys : List Block)
    → SameBlocks xs ys
    → map (λ (b : Block). b.hash) xs ≡ map (λ (b : Block). b.hash) ys
map_hash-eq [] [] h = refl
map_hash-eq [] (y ∷ ys) h = absurd h
map_hash-eq (x ∷ xs) [] h = absurd h
map_hash-eq (x ∷ xs) (y ∷ ys) (p, h) =
    ap₂ (λ a as'. a ∷ as') (ap (λ i. i.0.hash) p) (map_hash-eq xs ys h)

pub SameBlocks-hashes : (xs ys : List Block) → SameBlocks xs ys → hashes xs ≡ hashes ys
SameBlocks-hashes xs ys h = ap reverse (map_hash-eq xs ys h)

pub SameBlocks-length : (xs ys : List Block) → SameBlocks xs ys → length xs ≡ length ys
SameBlocks-length [] [] h = refl
SameBlocks-length [] (y ∷ ys) h = absurd h
SameBlocks-length (x ∷ xs) [] h = absurd h
SameBlocks-length (x ∷ xs) (y ∷ ys) (p, h) = ap suc (SameBlocks-length xs ys h)

pub SameBlocks-append :
    (raw xs ys : List Block) → SameBlocks xs ys → SameBlocks (raw ++ xs) (raw ++ ys)
SameBlocks-append [] xs ys h = h
SameBlocks-append (r ∷ raw) xs ys h = (refl, SameBlocks-append raw xs ys h)

abbrev FollowsIdentity : EthBlock × Event → EthBlock × Event → Type 0
FollowsIdentity a b = (b.0.parent_hash ≡ a.0.hash) × (u64 b.0.number ≡ u64 (u64 a.0.number + 1))

pub Linked-SameBlocks : (xs ys : List Block) → SameBlocks xs ys → Linked xs → Linked ys
Linked-SameBlocks [] [] h l = tt
Linked-SameBlocks [] (y ∷ ys) h l = absurd h
Linked-SameBlocks (x ∷ xs) [] h l = absurd h
Linked-SameBlocks (x ∷ []) (y ∷ []) h l = tt
Linked-SameBlocks (x ∷ []) (y ∷ y' ∷ ys) (p, h) l = absurd h
Linked-SameBlocks (x ∷ x' ∷ xs) (y ∷ []) (p, h) l = absurd h
Linked-SameBlocks (x ∷ x' ∷ xs) (y ∷ y' ∷ ys) (p, h) (f, l) = (
  subst (λ a. FollowsIdentity a (identity y')) p
      (subst (λ b. FollowsIdentity (identity x) b) h.0 f),
  Linked-SameBlocks (x' ∷ xs) (y' ∷ ys) h l,
)

pub SameBlocks-get_last? :
    (xs ys : List Block) (top : Block)
    → SameBlocks xs ys
    → get_last? xs ≡ some top
    → (top' : Block) × (get_last? ys ≡ some top')
SameBlocks-get_last? [] ys top h e = cc
SameBlocks-get_last? (x ∷ xs) [] top h e = absurd h
SameBlocks-get_last? (x ∷ []) (y ∷ []) top h e = (y, refl)
SameBlocks-get_last? (x ∷ []) (y ∷ y' ∷ ys) top (p, h) e = absurd h
SameBlocks-get_last? (x ∷ x' ∷ xs) (y ∷ []) top (p, h) e = absurd h
SameBlocks-get_last? (x ∷ x' ∷ xs) (y ∷ y' ∷ ys) top (p, h) e =
    SameBlocks-get_last? (x' ∷ xs) (y' ∷ ys) top h e

pub SameBlocks-add_logs : (w : LogsWorld) (bs : List Block) → SameBlocks bs (add_logs w bs)
unfolding add_logs
SameBlocks-add_logs w [] = tt
SameBlocks-add_logs w (b ∷ bs) = elim (Bool-cases (w.is_done (length (b ∷ bs)))) [
  | inl t ↦ rw t (SameBlocks-refl (b ∷ bs))
  | inr t ↦ rw t (sym (identity-add_logs_one w b), SameBlocks-add_logs w bs)
]

pub SameBlocks-clear_logs : (bs : List Block) → SameBlocks bs (map clear_logs bs)
unfolding clear_logs
SameBlocks-clear_logs bs = SameBlocks-map clear_logs bs (λ b. refl)

module _ (is_same : Block → Block → Bool)
    (agree : (a b : Block) → is_same a b ≡ true → identity a ≡ identity b) where
  identity-shared : (us : List Block) (b : Block) → identity (shared is_same us b) ≡ identity b
  unfolding shared
  identity-shared [] b = refl
  identity-shared (u ∷ us) b = elim (Bool-cases (is_same u b)) [
    | inl t ↦ rw t (agree u b t)
    | inr t ↦ rw t (identity-shared us b)
  ]

  pub SameBlocks-shared : (us bs : List Block) → SameBlocks bs (map (shared is_same us) bs)
  SameBlocks-shared us bs = SameBlocks-map (shared is_same us) bs (identity-shared us)
