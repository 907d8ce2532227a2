-- ===== src/Session.antt =====
-- src/session.hpp: the V5 session protocol, from the handshake's packets to the keys of a session. Times
-- are nanoseconds of the monotonic clock; a wall clock before 1970 counts as 0, as at each of its uses.
-- The reassembler of a session is handed to the caller.
pub mod Derive
pub mod Client
pub mod Server
pub mod Receive
pub mod Nonces
pub mod Freshness
pub mod Traces
pub mod Wires
pub mod Agreement
pub mod Draws
pub mod Handshake
pub mod Confirm
pub mod Generations
pub mod Delivery
mod Tests
use tuntom.Base.{
  Bool, List, Option, [], false, if◌then◌else◌, leb, ltb, none, not, replicate, some, true, ℕ, ◌%◌,
  ◌&&◌, ◌+◌, ◌==◌, ◌||◌,
}
use tuntom.Replay.{Window}
use tuntom.Ascon.{Ascon}
use tuntom.KeySchedule.{X25519, derive_direction_key}
use tuntom.ProtocolV5.{ProtocolV5}

abbrev pub retry_interval : ℕ
retry_interval = 1000000000

abbrev pub response_resend_interval : ℕ
response_resend_interval = 200000000

abbrev pub pending_lifetime : ℕ
pending_lifetime = 5000000000

abbrev pub old_lifetime : ℕ
old_lifetime = 3000000000

abbrev pub rekey_interval : ℕ
rekey_interval = 120000000000

abbrev pub idle_restart : ℕ
idle_restart = 20000000000

abbrev pub nonce_capacity : ℕ
nonce_capacity = 65536

pub record Session : Type 0 where
  pub codec : ProtocolV5
  pub replay : Window
  pub hint : ℕ
  pub created : ℕ
  pub next_counter : ℕ
  pub exchange : ℕ
  pub init_wire : List ℕ
  pub response_wire : List ℕ

pub record Counters : Type 0 where
  pub handshake_started : ℕ
  pub handshake_completed : ℕ
  pub rekey_started : ℕ
  pub rekey_completed : ℕ
  pub handshake_retries : ℕ
  pub handshake_timeouts : ℕ
  pub handshake_suite_mismatch : ℕ
  pub handshake_dh_rejected : ℕ
  pub handshake_random_errors : ℕ

-- An entry of `nonce_expiry_`.
pub record Expiry : Type 0 where
  pub time : ℕ
  pub nonce : List ℕ

-- What is fixed when the protocol is made; `encrypting` holds with PFS too.
pub record Config : Type 0 where
  pub ascon : Ascon
  pub x25519 : X25519
  pub id : ℕ
  pub master : List ℕ
  pub server : Bool
  pub encrypting : Bool
  pub pfs : Bool
  pub init_window : ℕ

pub record State : Type 0 where
  pub counters : Counters
  pub last_completed : ℕ
  pub client_secret : List ℕ
  pub transmit_generation : ℕ
  pub active : Option Session
  pub previous : Option Session
  pub pending : Option Session
  pub previous_until : ℕ
  pub pending_until : ℕ
  pub last_received : ℕ
  pub response_resend_after : ℕ
  pub random_retry_after : ℕ
  pub flight_started : ℕ
  pub last_retry : ℕ
  pub waiting_ack : Bool
  pub begin_retry : Bool
  pub client_exchange : ℕ
  pub client_init : List ℕ
  pub flight : List ℕ
  pub seen_nonces : List (List ℕ)
  pub nonce_expiry : List Expiry
  pub wall_high_water : ℕ

-- What `random_bytes` answers to the calls of one operation, `none` where it fails.
pub record Random : Type 0 where
  pub id : Option (List ℕ)
  pub nonce : Option (List ℕ)
  pub secret : Option (List ℕ)

-- The constructor's test of the window.
unfoldable pub valid_window : ℕ → Bool
valid_window w = not (ltb w 2 || ltb 86400 w || not (w % 2 == 0))

abbrev pub fresh : State
fresh = record {
  counters = record {
    handshake_started = 0;
    handshake_completed = 0;
    rekey_started = 0;
    rekey_completed = 0;
    handshake_retries = 0;
    handshake_timeouts = 0;
    handshake_suite_mismatch = 0;
    handshake_dh_rejected = 0;
    handshake_random_errors = 0;
  };
  last_completed = 0;
  client_secret = replicate 32 0;
  transmit_generation = 0;
  active = none;
  previous = none;
  pending = none;
  previous_until = 0;
  pending_until = 0;
  last_received = 0;
  response_resend_after = 0;
  random_retry_after = 0;
  flight_started = 0;
  last_retry = 0;
  waiting_ack = false;
  begin_retry = false;
  client_exchange = 0;
  client_init = [];
  flight = [];
  seen_nonces = [];
  nonce_expiry = [];
  wall_high_water = 0;
}

abbrev pub is_some {ℓ} : {A : Type ℓ} → Option A → Bool
is_some none = false
is_some (some a) = true

-- `handshake_`, the codec of INIT and RESPONSE under the master key.
unfoldable pub handshake_codec : Config → ProtocolV5
handshake_codec k = record {
  tunnel_id = k.id;
  tx_key = derive_direction_key k.ascon k.master k.id (not k.server);
  rx_key = derive_direction_key k.ascon k.master k.id k.server;
  encrypting = false;
}

unfoldable pub suite : Config → ℕ
suite k = if k.pfs then 2 else if k.encrypting then 1 else 0

-- The counter that may still be sent with the active keys.
abbrev pub counter_limit : Config → ℕ
counter_limit k = if k.encrypting then 0xffffffff else 0xffffffffffff

unfoldable pub ready : Config → State → Bool
ready k s = elim s.active [
  | none ↦ false
  | some session ↦ leb session.next_counter (counter_limit k)
]

unfoldable pub active_exchange : State → ℕ
active_exchange s = elim s.active [ none ↦ 0 | some session ↦ session.exchange ]

unfoldable pub started : State → State
started s = record s {
  counters = record s.counters {
    handshake_started = s.counters.handshake_started + 1;
    rekey_started =
        if s.counters.handshake_completed == 0
        then s.counters.rekey_started
        else s.counters.rekey_started + 1;
  };
}

unfoldable pub completed : State → ℕ → State
completed s now = record s {
  counters = record s.counters {
    handshake_completed = s.counters.handshake_completed + 1;
    rekey_completed =
        if s.counters.handshake_completed == 0
        then s.counters.rekey_completed
        else s.counters.rekey_completed + 1;
  };
  last_completed = now;
}

unfoldable pub count_timeout : State → State
count_timeout s = record s {
  counters = record s.counters { handshake_timeouts = s.counters.handshake_timeouts + 1 };
}

unfoldable pub count_retry : State → State
count_retry s = record s {
  counters = record s.counters { handshake_retries = s.counters.handshake_retries + 1 };
}

unfoldable pub count_mismatch : State → State
count_mismatch s = record s {
  counters = record s.counters {
    handshake_suite_mismatch = s.counters.handshake_suite_mismatch + 1;
  };
}

unfoldable pub count_dh_rejected : State → State
count_dh_rejected s = record s {
  counters = record s.counters { handshake_dh_rejected = s.counters.handshake_dh_rejected + 1 };
}

unfoldable pub random_failed : State → ℕ → State
random_failed s now = record s {
  counters = record s.counters { handshake_random_errors = s.counters.handshake_random_errors + 1 };
  random_retry_after = now + retry_interval;
}

unfoldable pub expire_previous : State → ℕ → State
expire_previous s now =
    if is_some s.previous && leb s.previous_until now then record s { previous = none } else s

unfoldable pub expire_pending : State → ℕ → State
expire_pending s now =
    if is_some s.pending && leb s.pending_until now
    then record (count_timeout s) { pending = none }
    else s
