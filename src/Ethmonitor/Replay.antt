-- ===== src/Ethmonitor/Replay.antt =====
-- What a subscriber makes of the monitor's events: a stack of block hashes, newest first, on which
-- an added block is pushed and from which a removed block, which must be the newest, is taken.
use ethkit.Prelude.{
  ℕ, ◌≡◌, refl, Option, none, some, List, [], ◌∷◌, ◌++◌, ◌==◌, ◌>>=◌, >>=-eq-some, if◌then◌else◌,
}
use ethkit.Ethmonitor.Block.{Event, added, removed, unknown, Block}

-- `none`: the block to remove is not the newest.
unfoldable pub undo : ℕ → List ℕ → Option (List ℕ)
undo hash [] = none
undo hash (top ∷ rest) = if top == hash then some rest else none

unfoldable pub effect : Event → ℕ → List ℕ → Option (List ℕ)
unfolding undo
effect added hash stack = some (hash ∷ stack)
effect removed hash stack = undo hash stack
effect (unknown n) hash stack = none

unfoldable pub play : List Block → List ℕ → Option (List ℕ)
play [] stack = some stack
play (b ∷ bs) stack = effect b.event b.hash stack >>= play bs

pub play-append :
    (xs ys : List Block) (stack : List ℕ) → play (xs ++ ys) stack ≡ (play xs stack >>= play ys)
unfolding play
play-append [] ys stack = refl
play-append (x ∷ xs) ys stack = step (effect x.event x.hash stack) (play-append xs ys)
  where
    step :
        (o : Option (List ℕ))
        → ((s : List ℕ) → play (xs ++ ys) s ≡ (play xs s >>= play ys))
        → (o >>= play (xs ++ ys)) ≡ (o >>= play xs >>= play ys)
    step none h = refl
    step (some s) h = h s

-- A stream that plays to an end passes through the end of its first part.
pub play_split :
    (xs ys : List Block) (stack end : List ℕ)
    → play (xs ++ ys) stack ≡ some end
    → (middle : List ℕ) × (play xs stack ≡ some middle) × (play ys middle ≡ some end)
play_split xs ys stack end h = >>=-eq-some (play xs stack) (play ys) end (rw play-append at h)

pub play_join :
    (xs ys : List Block) (stack middle end : List ℕ)
    → play xs stack ≡ some middle
    → play ys middle ≡ some end
    → play (xs ++ ys) stack ≡ some end
play_join xs ys stack middle end h k = rw (play-append xs ys stack) (rw h k)
