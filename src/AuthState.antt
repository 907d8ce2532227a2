-- ===== src/AuthState.antt =====
-- src/v5_auth_state.hpp: the AUTH gate of a session. The state `open` of the source is `opened` here.
pub mod Gate
mod Tests
use tuntom.Base.{
  Bool, List, Option, [], false, if◌then◌else◌, none, not, some, true, ℕ, ◌&&◌, ◌==◌, ◌||◌, ◌∷◌,
}

pub data Role : Type 0 where
  client server : Role

pub data State : Type 0 where
  opened need_challenge pending verifying waiting_result authenticated rejected : State

pub record AuthState : Type 0 where
  pub role : Role
  pub state : State
  pub id : ℕ

abbrev pub is_server : Role → Bool
is_server server = true
is_server client = false

-- `none` is the exception for a client that is required to authenticate.
unfoldable pub create : Role → Bool → Option AuthState
create client true = none
create client false = some (record { role = client; state = opened; id = 0 })
create server true = some (record { role = server; state = need_challenge; id = 0 })
create server false = some (record { role = server; state = opened; id = 0 })

abbrev pub allows_data : AuthState → Bool
allows_data s = elim s.state [
  | opened ↦ true
  | need_challenge ↦ false
  | pending ↦ false
  | verifying ↦ false
  | waiting_result ↦ false
  | authenticated ↦ true
  | rejected ↦ false
]

abbrev pub is_need_challenge : State → Bool
is_need_challenge need_challenge = true
is_need_challenge _ = false

abbrev pub is_pending : State → Bool
is_pending pending = true
is_pending _ = false

abbrev pub is_opened : State → Bool
is_opened opened = true
is_opened _ = false

abbrev pub is_verifying : State → Bool
is_verifying verifying = true
is_verifying _ = false

abbrev pub is_waiting_result : State → Bool
is_waiting_result waiting_result = true
is_waiting_result _ = false

unfoldable pub send_challenge : AuthState → ℕ → Bool × AuthState
send_challenge s id =
    if not (is_server s.role) || not (is_need_challenge s.state) || id == 0
    then (false, s)
    else (true, record s { id = id; state = pending })

unfoldable pub receive_challenge : AuthState → ℕ → Bool × AuthState
receive_challenge s id =
    if is_server s.role || (not (is_opened s.state) && not (is_pending s.state)) || id == 0
    then (false, s)
    else if is_pending s.state && s.id == id
    then (true, s)
    else if not (is_opened s.state)
    then (false, s)
    else (true, record s { id = id; state = pending })

unfoldable pub send_response : AuthState → ℕ → Bool × AuthState
send_response s id =
    if is_server s.role || not (is_pending s.state) || not (id == s.id)
    then (false, s)
    else (true, record s { state = waiting_result })

unfoldable pub receive_response : AuthState → ℕ → Bool × AuthState
receive_response s id =
    if not (is_server s.role) || not (is_pending s.state) || not (id == s.id)
    then (false, s)
    else (true, record s { state = verifying })

unfoldable pub verified : AuthState → Bool → Bool × AuthState
verified s allow =
    if not (is_server s.role) || not (is_verifying s.state)
    then (false, s)
    else (true, record s { state = if allow then authenticated else rejected })

unfoldable pub receive_ok : AuthState → ℕ → Bool × AuthState
receive_ok s id =
    if is_server s.role || not (is_waiting_result s.state) || not (id == s.id)
    then (false, s)
    else (true, record s { state = authenticated })

unfoldable pub receive_failed : AuthState → ℕ → Bool × AuthState
receive_failed s id =
    if is_server s.role || not (is_waiting_result s.state) || not (id == s.id)
    then (false, s)
    else (true, record s { state = rejected })

-- The calls of the session, one at a time.
pub data Event : Type 0 where
  challenge_sent challenge_received response_sent response_received : ℕ → Event
  verdict : Bool → Event
  ok_received failed_received : ℕ → Event

unfoldable pub step : AuthState → Event → AuthState
unfolding send_challenge receive_challenge send_response receive_response verified receive_ok
    receive_failed
step s (challenge_sent id) = (send_challenge s id).1
step s (challenge_received id) = (receive_challenge s id).1
step s (response_sent id) = (send_response s id).1
step s (response_received id) = (receive_response s id).1
step s (verdict allow) = (verified s allow).1
step s (ok_received id) = (receive_ok s id).1
step s (failed_received id) = (receive_failed s id).1

unfoldable pub run : AuthState → List Event → AuthState
unfolding step
run s [] = s
run s (e ∷ rest) = run (step s e) rest

unfoldable pub terminal_failure : AuthState → Bool
terminal_failure s = elim s.state [
  | opened ↦ false
  | need_challenge ↦ false
  | pending ↦ false
  | verifying ↦ false
  | waiting_result ↦ false
  | authenticated ↦ false
  | rejected ↦ true
]

unfoldable pub challenged : AuthState → Bool
challenged s = not (s.id == 0)
