-- ===== src/Util/Channel.antt =====
-- util/channel.go, `MakeUnboundedChan`: the loop that passes on what comes in on `ch` to `sendCh`. What
-- the loop waits for is an event, and one round of it is a step. The warnings of a long buffer are
-- left out.
pub mod Runs
use ethkit.Prelude.{Bool, true, false, Option, none, some, List, [], ◌∷◌, ◌++◌, ◌>>=◌}

pub record Relay {ℓ} (V : Type ℓ) : Type ℓ where
  pub buffer : List V
  -- what was sent on `sendCh`, and whether it was closed, with which the loop ends
  pub sent : List V
  pub is_closed : Bool

-- `receive` is the operation `message, ok := <-ch` that goes through, `none` with `ok` false; `send`
-- is that on `sendCh`.
pub data Event {ℓ} (V : Type ℓ) : Type ℓ where
  receive : Option V → Event V
  send : Event V

abbrev pub new_relay {ℓ} : {V : Type ℓ} → Relay V
new_relay = record { buffer = []; sent = []; is_closed = false }

keep_message {ℓ} : {V : Type ℓ} → V → Relay V → Relay V
keep_message message r = record r { buffer = r.buffer ++ message ∷ [] }

-- with an empty buffer the loop waits for `ch` alone
step_empty {ℓ} : {V : Type ℓ} → Event V → Relay V → Option (Relay V)
unfolding keep_message
step_empty (receive (some message)) r = some (keep_message message r)
step_empty (receive none) r = some (record r { is_closed = true })
step_empty send r = none

-- the `select`
step_select {ℓ} : {V : Type ℓ} → V → List V → Event V → Relay V → Option (Relay V)
unfolding keep_message
step_select first rest (receive (some message)) r = some (keep_message message r)
step_select first rest (receive none) r = some r
step_select first rest send r = some (record r { buffer = rest; sent = r.sent ++ first ∷ [] })

step_open {ℓ} : {V : Type ℓ} → List V → Event V → Relay V → Option (Relay V)
unfolding step_empty step_select
step_open [] e r = step_empty e r
step_open (first ∷ rest) e r = step_select first rest e r

-- One round; `none` where the loop has ended, or does not wait for the event.
unfoldable pub step {ℓ} : {V : Type ℓ} → Event V → Relay V → Option (Relay V)
unfolding step_open
step e r = elim r.is_closed [ true ↦ none | false ↦ step_open r.buffer e r ]

unfoldable pub run {ℓ} : {V : Type ℓ} → List (Event V) → Relay V → Option (Relay V)
unfolding step
run [] r = some r
run (e ∷ es) r = step e r >>= run es
