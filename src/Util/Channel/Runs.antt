-- ===== src/Util/Channel/Runs.antt =====
-- Runs of the loop: nothing is lost, and the order is kept.
use mathlib.Core.Option.{some_inj}
use ethkit.Prelude.{
  ◌≡◌, refl, sym, ap, ◌∙◌, Bool, true, false, none, some, List, [], ◌∷◌, ◌++◌, append-nil,
  append_assoc, ◌⊎◌, inl, inr, Bool-cases, Option-cases,
}
use ethkit.Util.Channel.{Relay, Event, receive, send, new_relay, step, run}

-- the messages that were received, in order
unfoldable pub received {ℓ} : {V : Type ℓ} → List (Event V) → List V
received [] = []
received (receive (some m) ∷ es) = m ∷ received es
received (receive none ∷ es) = received es
received (send ∷ es) = received es

-- a send for each message that waits
unfoldable pub sends {ℓ} : {V : Type ℓ} → List V → List (Event V)
sends [] = []
sends (m ∷ ms) = send ∷ sends ms

-- what has gone out or waits
abbrev held {ℓ} : {V : Type ℓ} → Relay V → List V
held r = r.sent ++ r.buffer

-- where the loop has ended nothing waits
abbrev IsDrained {ℓ} : {V : Type ℓ} → Relay V → Type ℓ
IsDrained r = r.is_closed ≡ true → r.buffer ≡ []

step-held {ℓ} :
    {V : Type ℓ} (e : Event V) (buffer sent : List V) (closed : Bool) (s : Relay V)
    → step e (record { buffer = buffer; sent = sent; is_closed = closed }) ≡ some s
    → (held s ≡ (sent ++ buffer) ++ received (e ∷ [])) × IsDrained s
unfolding step received
step-held e buffer sent true s h = cc
step-held (receive (some m)) [] sent false s h =
    let e = some_inj.0 h in rw (← e) (sym (append_assoc sent [] (m ∷ [])), λ c. cc)
step-held (receive none) [] sent false s h =
    let e = some_inj.0 h in rw (← e) (sym (append-nil (sent ++ [])), λ c. refl)
step-held send [] sent false s h = cc
step-held (receive (some m)) (b ∷ bs) sent false s h =
    let e = some_inj.0 h in rw (← e) (sym (append_assoc sent (b ∷ bs) (m ∷ [])), λ c. cc)
step-held (receive none) (b ∷ bs) sent false s h =
    let e = some_inj.0 h in rw (← e) (sym (append-nil (sent ++ b ∷ bs)), λ c. cc)
step-held send (b ∷ bs) sent false s h =
    let e = some_inj.0 h in
    rw (← e) (append_assoc sent (b ∷ []) bs ∙ sym (append-nil (sent ++ b ∷ bs)), λ c. cc)

received-append {ℓ} :
    {V : Type ℓ} (e : Event V) (es : List (Event V))
    → received (e ∷ es) ≡ received (e ∷ []) ++ received es
unfolding received
received-append (receive (some m)) es = refl
received-append (receive none) es = refl
received-append send es = refl

run-held {ℓ} :
    {V : Type ℓ} (es : List (Event V)) (r s : Relay V)
    → run es r ≡ some s
    → IsDrained r
    → (held s ≡ held r ++ received es) × IsDrained s
unfolding run received
run-held [] r s h d = let e = some_inj.0 h in rw (← e) (sym (append-nil (held r)), d)
run-held (e ∷ es) r s h d = elim (Option-cases (step e r)) [
  | inl u ↦ cc (rw u at h)
  | inr (t, u) ↦
      let (one, d') = step-held e r.buffer r.sent r.is_closed t u in
      let (all, d'') = run-held es t s (rw u at h) d' in
      (
        all
            ∙ ap (λ x. x ++ received es) one
            ∙ append_assoc (held r) (received (e ∷ [])) (received es)
            ∙ ap (λ x. held r ++ x) (sym (received-append e es)),
        d'',
      )
]

run-append {ℓ} :
    {V : Type ℓ} (es fs : List (Event V)) (r s : Relay V)
    → run es r ≡ some s
    → run (es ++ fs) r ≡ run fs s
unfolding run
run-append [] fs r s h = ap (run fs) (some_inj.0 h)
run-append (e ∷ es) fs r s h = elim (Option-cases (step e r)) [
  | inl u ↦ cc (rw u at h)
  | inr (t, u) ↦ rw u (run-append es fs t s (rw u at h))
]

-- The messages that wait go out one by one, and then the loop can end.
run-sends {ℓ} :
    {V : Type ℓ} (buffer sent : List V)
    → run
        (sends buffer ++ receive none ∷ [])
        (record { buffer = buffer; sent = sent; is_closed = false })
      ≡ some (record { buffer = []; sent = sent ++ buffer; is_closed = true })
unfolding run step sends
run-sends [] sent =
    ap (λ x. some (record { buffer = []; sent = x; is_closed = true })) (sym (append-nil sent))
run-sends (b ∷ bs) sent =
    run-sends bs (sent ++ b ∷ [])
    ∙ ap (λ x. some (record { buffer = []; sent = x; is_closed = true }))
        (append_assoc sent (b ∷ []) bs)

-- After any run of the loop: what was sent, and then what waits, are the messages that came in, in
-- their order. Where the loop has ended, all of them were sent; where it has not, it can go on and
-- end with all of them sent, by as many sends as messages wait.
pub run-fifo {ℓ} :
    {V : Type ℓ} (es : List (Event V)) (r : Relay V)
    → run es new_relay ≡ some r
    → (r.sent ++ r.buffer ≡ received es)
      × ((r.is_closed ≡ true) × (r.sent ≡ received es)
          ⊎ (run (es ++ (sends r.buffer ++ receive none ∷ [])) new_relay
              ≡ some (record { buffer = []; sent = received es; is_closed = true })))
run-fifo es r h =
    let (all, d) = run-held es new_relay r h (λ c. cc) in
    (
      all,
      elim (Bool-cases r.is_closed) [
        | inl c ↦ inl (c, sym (append-nil r.sent) ∙ ap (λ x. r.sent ++ x) (sym (d c)) ∙ all)
        | inr c ↦ inr (
            run-append es (sends r.buffer ++ receive none ∷ []) new_relay r h
            ∙ ap
                (λ b.
                  run (sends r.buffer ++ receive none ∷ [])
                    (record { buffer = r.buffer; sent = r.sent; is_closed = b }))
                c
            ∙ run-sends r.buffer r.sent
            ∙ ap (λ x. some (record { buffer = []; sent = x; is_closed = true })) all)
      ],
    )
