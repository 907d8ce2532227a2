-- ===== src/AuthState/Tests.antt =====
-- A server that authenticates its peer, and the theorem at it.
use tuntom.Base.{List, [], refl, some, true, ℕ, ◌∷◌, ◌≡◌, ◌≢◌}
use tuntom.AuthState.{
  AuthState, server, need_challenge, Event, challenge_sent, response_received, verdict, create, run,
  allows_data,
}
use tuntom.AuthState.Gate.{InOrder, gate_lem}

abbrev start : AuthState
start = record { role = server; state = need_challenge; id = 0 }

abbrev calls : List Event
calls = challenge_sent 5 ∷ response_received 4 ∷ response_received 5 ∷ verdict true ∷ []

create_runs : create server true ≡ some start
unfolding create
create_runs = refl

data_allowed : allows_data (run start calls) ≡ true
unfolding run
data_allowed = refl

gate_lem_example :
    (n : ℕ) × (n ≢ 0) × InOrder (challenge_sent n ∷ response_received n ∷ verdict true ∷ []) calls
gate_lem_example = gate_lem start calls create_runs data_allowed
