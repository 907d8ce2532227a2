-- ===== src/AuthState/Gate.antt =====
-- Nothing goes through the gate before its peer is authenticated.
use tuntom.Base.{
  ==_iff, Bool, Bool-cases, List, [], arith, false, if◌then◌else◌, inl, inr, refl, some, subst, sym,
  true, ℕ, ◌==◌, ◌∙◌, ◌∷◌, ◌≡◌, ◌≢◌,
}
use mathlib.Core.Option.{some-injective}
use tuntom.AuthState.{
  AuthState, server, State, opened, need_challenge, pending, verifying, waiting_result,
  authenticated, rejected, Event, challenge_sent, challenge_received, response_sent,
  response_received, verdict, ok_received, failed_received, create, allows_data, step, run,
  send_challenge, receive_response,
}

-- The first list, its members in their order and others between them, is in the second.
pub data InOrder : List Event → List Event → Type 0 where
  done : {es : List Event} → InOrder [] es
  here : {e : Event} {es fs : List Event} → InOrder es fs → InOrder (e ∷ es) (e ∷ fs)
  later : {e : Event} {es fs : List Event} → InOrder es fs → InOrder es (e ∷ fs)

-- What a server in a state still waits for.
Waits : State → ℕ → List Event → Type 0
Waits opened id es = Unit
Waits need_challenge id es =
    (n : ℕ) × (n ≢ 0) × InOrder (challenge_sent n ∷ response_received n ∷ verdict true ∷ []) es
Waits pending id es = InOrder (response_received id ∷ verdict true ∷ []) es
Waits verifying id es = InOrder (verdict true ∷ []) es
Waits waiting_result id es = ⊥
Waits authenticated id es = Unit
Waits rejected id es = ⊥

abbrev at : State → ℕ → AuthState
at state id = record { role = server; state = state; id = id }

still_closed : false ≡ true → ⊥
still_closed h = cc

challenge_step :
    (id n : ℕ)
    → step (at need_challenge id) (challenge_sent n)
      ≡ (if n == 0 then at need_challenge id else at pending n)
unfolding step send_challenge
challenge_step id n = elim (Bool-cases (n == 0)) [
  | inl e ↦ rw (e, step, send_challenge) refl
  | inr e ↦ rw (e, step, send_challenge) refl
]

response_step :
    (id n : ℕ)
    → step (at pending id) (response_received n)
      ≡ (if n == id then at verifying id else at pending id)
unfolding step receive_response
response_step id n = elim (Bool-cases (n == id)) [ inl e ↦ ground arith | inr e ↦ ground arith ]

-- What a run comes to from the state that a step leads to.
moved :
    (es : List Event) (s t : AuthState)
    → s ≡ t
    → allows_data (run s es) ≡ true
    → allows_data (run t es) ≡ true
moved es s t e = subst (λ u. allows_data (run u es) ≡ true) e

challenge_lem :
    (id n : ℕ) (es : List Event)
    → allows_data (run (step (at need_challenge id) (challenge_sent n)) es) ≡ true
    → ((s : State) (m : ℕ) → allows_data (run (at s m) es) ≡ true → Waits s m es)
    → Waits need_challenge id (challenge_sent n ∷ es)
unfolding Waits
challenge_lem id n es h rest = elim (Bool-cases (n == 0)) [
  | inl zero_id ↦
      let (m, positive, order) =
        rest need_challenge id (moved es _ _ (challenge_step id n ∙ simp zero_id refl) h) in
      (m, positive, later order)
  | inr some_id ↦ (
    n,
    (λ e. absurd (ground (arith, some_id, e))),
    here (rest pending n (moved es _ _ (challenge_step id n ∙ simp some_id refl) h)),
  )
]

response_lem :
    (id n : ℕ) (es : List Event)
    → allows_data (run (step (at pending id) (response_received n)) es) ≡ true
    → ((s : State) (m : ℕ) → allows_data (run (at s m) es) ≡ true → Waits s m es)
    → Waits pending id (response_received n ∷ es)
unfolding Waits
response_lem id n es h rest = elim (Bool-cases (n == id)) [
  | inl same ↦
      subst (λ m. InOrder (response_received id ∷ verdict true ∷ []) (response_received m ∷ es))
        (sym ((==_iff n id).0 same))
        (here (rest verifying id (moved es _ _ (response_step id n ∙ simp same refl) h)))
  | inr other ↦ later (rest pending id (moved es _ _ (response_step id n ∙ simp other refl) h))
]

verdict_lem :
    (id : ℕ) (allow : Bool) (es : List Event)
    → allows_data (run (step (at verifying id) (verdict allow)) es) ≡ true
    → ((s : State) (m : ℕ) → allows_data (run (at s m) es) ≡ true → Waits s m es)
    → Waits verifying id (verdict allow ∷ es)
unfolding step Waits
verdict_lem id true es h rest = here done
verdict_lem id false es h rest = absurd (rest rejected id h)

later_challenge :
    (id : ℕ) (e : Event) (es : List Event)
    → Waits need_challenge id es
    → Waits need_challenge id (e ∷ es)
unfolding Waits
later_challenge id e es (n, positive, order) = (n, positive, later order)

-- What the gate waits for comes, if it opens.
waits_lem :
    (s : State) (id : ℕ) (es : List Event) → allows_data (run (at s id) es) ≡ true → Waits s id es
unfolding run step Waits
waits_lem opened id es h = tt
waits_lem authenticated id es h = tt
waits_lem need_challenge id [] h = absurd (still_closed h)
waits_lem need_challenge id ((challenge_sent n) ∷ es) h =
    challenge_lem id n es h (λ s m. waits_lem s m es)
waits_lem need_challenge id ((challenge_received n) ∷ es) h =
    later_challenge id (challenge_received n) es (waits_lem need_challenge id es h)
waits_lem need_challenge id ((response_sent n) ∷ es) h =
    later_challenge id (response_sent n) es (waits_lem need_challenge id es h)
waits_lem need_challenge id ((response_received n) ∷ es) h =
    later_challenge id (response_received n) es (waits_lem need_challenge id es h)
waits_lem need_challenge id ((verdict allow) ∷ es) h =
    later_challenge id (verdict allow) es (waits_lem need_challenge id es h)
waits_lem need_challenge id ((ok_received n) ∷ es) h =
    later_challenge id (ok_received n) es (waits_lem need_challenge id es h)
waits_lem need_challenge id ((failed_received n) ∷ es) h =
    later_challenge id (failed_received n) es (waits_lem need_challenge id es h)
waits_lem pending id [] h = absurd (still_closed h)
waits_lem pending id ((challenge_sent n) ∷ es) h = later (waits_lem pending id es h)
waits_lem pending id ((challenge_received n) ∷ es) h = later (waits_lem pending id es h)
waits_lem pending id ((response_sent n) ∷ es) h = later (waits_lem pending id es h)
waits_lem pending id ((response_received n) ∷ es) h =
    response_lem id n es h (λ s m. waits_lem s m es)
waits_lem pending id ((verdict allow) ∷ es) h = later (waits_lem pending id es h)
waits_lem pending id ((ok_received n) ∷ es) h = later (waits_lem pending id es h)
waits_lem pending id ((failed_received n) ∷ es) h = later (waits_lem pending id es h)
waits_lem verifying id [] h = absurd (still_closed h)
waits_lem verifying id ((challenge_sent n) ∷ es) h = later (waits_lem verifying id es h)
waits_lem verifying id ((challenge_received n) ∷ es) h = later (waits_lem verifying id es h)
waits_lem verifying id ((response_sent n) ∷ es) h = later (waits_lem verifying id es h)
waits_lem verifying id ((response_received n) ∷ es) h = later (waits_lem verifying id es h)
waits_lem verifying id ((verdict allow) ∷ es) h =
    verdict_lem id allow es h (λ s m. waits_lem s m es)
waits_lem verifying id ((ok_received n) ∷ es) h = later (waits_lem verifying id es h)
waits_lem verifying id ((failed_received n) ∷ es) h = later (waits_lem verifying id es h)
waits_lem waiting_result id [] h = absurd (still_closed h)
waits_lem waiting_result id ((challenge_sent n) ∷ es) h = waits_lem waiting_result id es h
waits_lem waiting_result id ((challenge_received n) ∷ es) h = waits_lem waiting_result id es h
waits_lem waiting_result id ((response_sent n) ∷ es) h = waits_lem waiting_result id es h
waits_lem waiting_result id ((response_received n) ∷ es) h = waits_lem waiting_result id es h
waits_lem waiting_result id ((verdict allow) ∷ es) h = waits_lem waiting_result id es h
waits_lem waiting_result id ((ok_received n) ∷ es) h = waits_lem waiting_result id es h
waits_lem waiting_result id ((failed_received n) ∷ es) h = waits_lem waiting_result id es h
waits_lem rejected id [] h = absurd (still_closed h)
waits_lem rejected id ((challenge_sent n) ∷ es) h = waits_lem rejected id es h
waits_lem rejected id ((challenge_received n) ∷ es) h = waits_lem rejected id es h
waits_lem rejected id ((response_sent n) ∷ es) h = waits_lem rejected id es h
waits_lem rejected id ((response_received n) ∷ es) h = waits_lem rejected id es h
waits_lem rejected id ((verdict allow) ∷ es) h = waits_lem rejected id es h
waits_lem rejected id ((ok_received n) ∷ es) h = waits_lem rejected id es h
waits_lem rejected id ((failed_received n) ∷ es) h = waits_lem rejected id es h

-- A server that requires authentication lets data through only after a challenge of its own with an
-- identifier that is not 0, a response to that identifier, and a verdict that allows it, in this order.
pub gate_lem :
    (s : AuthState) (es : List Event)
    → create server true ≡ some s
    → allows_data (run s es) ≡ true
    → (n : ℕ) × (n ≢ 0) × InOrder (challenge_sent n ∷ response_received n ∷ verdict true ∷ []) es
unfolding create Waits
gate_lem s es made h =
    waits_lem need_challenge 0 es
      (subst (λ t. allows_data (run t es) ≡ true) (sym (some-injective _ _ made)) h)
