-- ===== src/Session/Client.antt =====
-- src/session.hpp: `begin`, `tick` and `restart`, the timers of a handshake.
use tuntom.Base.{
  Bool, List, Option, [], false, if◌then◌else◌, leb, length, ltb, none, not, replicate, some, true,
  ℕ, ◌&&◌, ◌++◌, ◌+◌, ◌-◌, ◌==◌, ◌||◌,
}
use tuntom.Packet.{init}
use tuntom.Wire.{store_be64, load_be64}
use tuntom.ProtocolV5.{encode_into}
use tuntom.Session.{
  Config, State, Random, retry_interval, pending_lifetime, rekey_interval, idle_restart,
  handshake_codec, ready, started, count_timeout, count_retry, random_failed, expire_previous,
  expire_pending,
}
use tuntom.Session.Derive.{control, bytes_of, key_offer}

-- The payload of an INIT: a nonce, the time, the suite, and the key of the exchange with PFS.
unfoldable pub init_payload : Config → List ℕ → ℕ → List ℕ → List ℕ
init_payload k nonce wall secret = nonce ++ (store_be64 wall ++ key_offer k secret)

unfoldable pub init_wire_of : Config → ℕ → List ℕ → ℕ → List ℕ → List ℕ
init_wire_of k exchange nonce wall secret = bytes_of (
    encode_into k.ascon (handshake_codec k)
      (record (control k init exchange) { payload = init_payload k nonce wall secret }))

-- `begin` once its random bytes are there.
unfoldable pub publish_init : State → ℕ → ℕ → List ℕ → List ℕ → State × List ℕ
publish_init s now exchange secret encoded = (
  started (record s {
    previous = none;
    pending = none;
    waiting_ack = false;
    client_secret = secret;
    client_init = encoded;
    client_exchange = exchange;
    flight = encoded;
    flight_started = now;
    last_retry = now;
    begin_retry = false;
  }),
  encoded,
)

-- Without PFS the secret stays zero and no random bytes are asked for.
unfoldable pub begin_secret : Config → Random → Option (List ℕ)
begin_secret k random = if k.pfs then random.secret else some (replicate 32 0)

-- `random_id`: 0 where the random bytes fail.
unfoldable pub random_id : Random → ℕ
random_id random = elim random.id [ none ↦ 0 | some bytes ↦ load_be64 bytes ]

unfoldable pub begin : Config → State → ℕ → ℕ → Random → State × List ℕ
begin k s now wall random =
    if k.server
    then (s, [])
    else (let t : State = record s { begin_retry = true } in
        if ltb now s.random_retry_after
        then (t, [])
        else if random_id random == 0
        then (random_failed t now, [])
        else elim random.nonce [
          | none ↦ (random_failed t now, [])
          | some nonce ↦ elim (begin_secret k random) [
            | none ↦ (random_failed t now, [])
            | some secret ↦
                publish_init t now (random_id random) secret
                  (init_wire_of k (random_id random) nonce wall secret)
          ]
        ])

-- The flight has run out: an unconfirmed candidate goes back to the session before it.
unfoldable pub abandon_flight : State → State
abandon_flight s =
    let t : State = count_timeout s in
    record t {
      active = if s.waiting_ack then s.previous else s.active;
      previous = if s.waiting_ack then none else s.previous;
      transmit_generation =
          if s.waiting_ack then s.transmit_generation + 1 else s.transmit_generation;
      waiting_ack = false;
      flight = [];
      client_init = [];
      client_secret = replicate 32 0;
    }

-- The session is too old, silent or used up, or an attempt is due again.
unfoldable pub is_due : Config → State → ℕ → Bool
is_due k s now =
    s.begin_retry
    || not (ready k s)
    || leb idle_restart (now - s.last_received)
    || k.pfs && (elim s.active [
      | none ↦ false
      | some session ↦ leb rekey_interval (now - session.created)
    ])

unfoldable pub tick_client : Config → State → ℕ → ℕ → Random → State × List ℕ
tick_client k s now wall random =
    if not (length s.flight == 0)
    then (if leb pending_lifetime (now - s.flight_started)
        then begin k (abandon_flight s) now wall random
        else if leb retry_interval (now - s.last_retry)
        then (record (count_retry s) { last_retry = now }, s.flight)
        else (s, []))
    else if is_due k s now
    then begin k s now wall random
    else (s, [])

unfoldable pub tick : Config → State → ℕ → ℕ → Random → State × List ℕ
tick k s now wall random =
    let t : State = expire_pending (expire_previous s now) now in
    if k.server then (t, []) else tick_client k t now wall random

-- No session and no flight; queued ciphertext is void.
unfoldable pub clear_sessions : State → State
clear_sessions s = record s {
  active = none;
  previous = none;
  pending = none;
  waiting_ack = false;
  flight = [];
  client_init = [];
  client_secret = replicate 32 0;
  transmit_generation = s.transmit_generation + 1;
}

unfoldable pub restart : Config → State → ℕ → ℕ → Random → State × List ℕ
restart k s now wall random =
    if k.server then (s, []) else begin k (clear_sessions s) now wall random
