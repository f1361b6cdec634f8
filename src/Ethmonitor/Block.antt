-- ===== src/Ethmonitor/Block.antt =====
-- ethmonitor/chain.go: events, blocks and lists of blocks (`Blocks`).
-- A loop that runs from the last element down to the first is `find_back`.
use ethkit.Prelude.{
  ℕ, Bool, true, false, ◌&&◌, not, Option, none, some, List, [], ◌∷◌, map, get_last?, u64, ◌==◌,
  if◌then◌else◌,
}
use ethkit.Ethmonitor.Types.{EthBlock, Log}

-- `type Event uint32`; every value but the two named ones is `unknown`.
pub data Event : Type 0 where
  added removed : Event
  unknown : ℕ → Event

abbrev pub event_eq : Event → Event → Bool
event_eq added added = true
event_eq removed removed = true
event_eq (unknown m) (unknown n) = m == n
event_eq _ _ = false

-- A nil slice is `none`.
pub record Block : Type 0 where
  pub block : EthBlock
  pub open block use *
  pub event : Event
  pub logs : Option (List Log)
  pub ok : Bool
  pub block_payload : Option (List ℕ)
  pub logs_payload : Option (List ℕ)

-- `NumberU64()` of the library: the number's low 64 bits.
abbrev pub number_u64 : Block → ℕ
number_u64 b = u64 b.number

unfoldable pub first_found {ℓ} : {A : Type ℓ} → Option A → Bool → A → Option A
first_found (some y) t x = some y
first_found none t x = if t then some x else none

-- `for i := len(b) - 1; i >= 0; i-- { if test(b[i]) { return b[i] } }; return nil`
unfoldable pub find_back {ℓ} : {A : Type ℓ} → (A → Bool) → List A → Option A
unfolding first_found
find_back test [] = none
find_back test (x ∷ xs) = first_found (find_back test xs) (test x) x

unfoldable pub latest_block : List Block → Option Block
unfolding find_back
latest_block bs = find_back (λ b. event_eq b.event added) bs

abbrev pub head : List Block → Option Block
head bs = get_last? bs

abbrev pub tail : List Block → Option Block
tail [] = none
tail (b ∷ bs) = some b

unfoldable pub is_ok : List Block → Bool
is_ok [] = true
is_ok (b ∷ bs) = if not b.ok then false else is_ok bs

unfoldable pub reorg : List Block → Bool
reorg [] = false
reorg (b ∷ bs) = if event_eq b.event removed then true else reorg bs

-- the test of `FindBlock`; its optional argument is an `Option`
abbrev pub event_fits : Option Event → Event → Bool
event_fits none e = true
event_fits (some opt) e = event_eq e opt

unfoldable pub find_block : List Block → ℕ → Option Event → Option Block
unfolding find_back
find_block bs hash opt = find_back (λ b. b.hash == hash && event_fits opt b.event) bs

same_place : Option Block → EthBlock → Bool
same_place none b = false
same_place (some a) b =
    if a.parent_hash == b.parent_hash && number_u64 a == u64 b.number then true else false

unfoldable pub event_exists : List Block → EthBlock → Event → Bool
unfolding same_place find_block
event_exists bs b e = same_place (find_block bs b.hash (some e)) b

overwrite {ℓ} : {A : Type ℓ} → List A → List A → List A
overwrite [] src = []
overwrite (d ∷ dst) [] = d ∷ dst
overwrite (d ∷ dst) (s ∷ src) = s ∷ overwrite dst src

-- The builtin `copy(dst, src)`: as many elements as both hold, so none into a nil slice.
unfoldable pub copy_slice {ℓ} : {A : Type ℓ} → Option (List A) → List A → Option (List A)
unfolding overwrite
copy_slice none src = none
copy_slice (some dst) src = some (overwrite dst src)

-- `var dst []T; if src != nil { copy(dst, src) }`
unfoldable pub copy_into_nil {ℓ} : {A : Type ℓ} → Option (List A) → Option (List A)
unfolding copy_slice
copy_into_nil none = none
copy_into_nil (some src) = copy_slice none src

unfoldable pub copy : List Block → List Block
unfolding copy_into_nil
copy bs =
    map
      (λ b. record {
        block = b.block;
        event = b.event;
        logs = copy_into_nil b.logs;
        ok = b.ok;
        block_payload = copy_into_nil b.block_payload;
        logs_payload = copy_into_nil b.logs_payload;
      })
      bs

-- `IsBlockEq`; a nil pointer is `none`
unfoldable pub is_block_eq : Option EthBlock → Option EthBlock → Bool
is_block_eq (some a) (some b) =
    a.hash == b.hash && u64 a.number == u64 b.number && a.parent_hash == b.parent_hash
is_block_eq _ _ = false
