-- ===== src/Util/Tests.antt =====
-- A run of the channel.
use ethkit.Prelude.{ℕ, ◌≡◌, ◌⊎◌, refl, true, false, none, some, List, [], ◌∷◌, ◌++◌}
use ethkit.Util.Channel.{Event, receive, send, new_relay, run}
use ethkit.Util.Channel.Runs.{received, sends, run-fifo}

-- Two messages come in, one goes out, and a third comes in.
abbrev three : List (Event ℕ)
three = receive (some 5) ∷ receive (some 6) ∷ send ∷ receive (some 7) ∷ []

run-fifo_example :
    (5 ∷ 6 ∷ 7 ∷ [] ≡ received three)
    × ((false ≡ true) × (5 ∷ [] ≡ received three)
        ⊎ (run (three ++ (sends (6 ∷ 7 ∷ []) ++ receive none ∷ [])) new_relay
            ≡ some (record { buffer = []; sent = received three; is_closed = true })))
unfolding run
run-fifo_example =
    run-fifo three (record { buffer = 6 ∷ 7 ∷ []; sent = 5 ∷ []; is_closed = false }) refl
