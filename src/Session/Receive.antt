-- ===== src/Session/Receive.antt =====
-- src/session.hpp: `receive`, the handling of every datagram.
use tuntom.Base.{
  Bool, List, Option, [], bytes_equal, drop, false, get_or, if◌then◌else◌, leb, length, ltb, none,
  not, replicate, some, take, true, ℕ, ◌%◌, ◌&&◌, ◌+◌, ◌-◌, ◌/◌, ◌==◌, ◌^◌, ◌||◌,
}
use tuntom.Packet.{
  Packet, PacketType, init, response, confirm, confirm_ack, info, control_challenge, auth_challenge,
  auth_response, auth_ok, auth_failed, relocate, config, relocate_bind, relocate_ok,
}
use tuntom.Wire.{load_be16, load_be64}
use tuntom.KeySchedule.{shared, commitment}
use tuntom.ProtocolV5.{protocol_header_v5_size, type_of}
use tuntom.ProtocolV5.Decode.{decode_with_scratch}
use tuntom.Replay.{accept}
use tuntom.Session.{
  Session, Config, State, Random, pending_lifetime, old_lifetime, handshake_codec, suite, completed,
  count_retry, count_mismatch, count_dh_rejected, expire_previous, expire_pending,
}
use tuntom.Session.Derive.{derive, confirmation}
use tuntom.Session.Server.{
  Slot, active_slot, pending_slot, previous_slot, Received, nothing, receive_init,
}

-- The client takes the keys of a response and confirms them.
unfoldable pub adopt : Config → State → List ℕ → List ℕ → ℕ → State × List ℕ
adopt k s wire dh now =
    let candidate : Session = derive k s.client_init wire s.client_exchange dh now in
    (
      record s {
        client_secret = replicate 32 0;
        previous = s.active;
        previous_until = now + old_lifetime;
        active = some candidate;
        transmit_generation = s.transmit_generation + 1;
        waiting_ack = true;
        flight = confirmation k candidate confirm;
        flight_started = now;
        last_retry = now;
      },
      confirmation k candidate confirm,
    )

-- A response again, while the ACK is awaited: CONFIRM is sent again, and nothing is reset.
unfoldable pub repeat_confirm : State → List ℕ → Received → State × Received
repeat_confirm s wire result = elim s.active [
  | none ↦ (s, result)
  | some session ↦
      if bytes_equal session.response_wire wire
      then (count_retry s, record result { reply = s.flight })
      else (s, result)
]

unfoldable pub receive_response : Config → State → List ℕ → Packet → ℕ → State × Received
receive_response k s wire packet now =
    let result : Received = record nothing { carries_control = true } in
    if length s.client_init == 0
      || not (packet.message_id == s.client_exchange)
      || not (bytes_equal (commitment k.ascon k.master k.id s.client_init) (take 32 packet.payload))
    then (s, nothing)
    else if s.waiting_ack
    then repeat_confirm s wire result
    else if k.pfs
    then elim (shared k.x25519 s.client_secret (take 32 (drop 68 packet.payload))) [
      | none ↦ (count_dh_rejected s, result)
      | some dh ↦ let (t, reply) = adopt k s wire dh now in (t, record result { reply = reply })
    ]
    else (
      (adopt k s wire (replicate 32 0) now).0,
      record result { reply = (adopt k s wire (replicate 32 0) now).1 },
    )

-- INIT or RESPONSE, of a suite that must be the configured one.
unfoldable pub receive_handshake :
    Config → State → List ℕ → Bool → ℕ → ℕ → Random → State × Received
receive_handshake k s wire is_init now wall random =
    elim (decode_with_scratch k.ascon (handshake_codec k) wire) [
      | none ↦ (s, nothing)
      | some packet ↦
          if not (load_be16 (drop (if is_init then 40 else 64) packet.payload) == suite k)
          then (count_mismatch s, nothing)
          else if k.server
          then receive_init k s wire packet now wall random
          else receive_response k s wire packet now
    ]

-- A session that knows the hint and decodes the datagram.
unfoldable pub try_session : Config → List ℕ → ℕ → Option Session → Option Packet
try_session k wire hint candidate = elim candidate [
  | none ↦ none
  | some session ↦
      if session.hint == hint then decode_with_scratch k.ascon session.codec wire else none
]

-- The first of the active, the pending and the previous session that takes the datagram.
pub record Match : Type 0 where
  pub slot : Slot
  pub packet : Packet

unfoldable pub match_session : Config → State → List ℕ → Option Match
match_session k s wire =
    let hint = load_be64 (drop 1 wire) / 2 ^ 48 in
    elim (try_session k wire hint s.active) [
      | some packet ↦ some (record { slot = active_slot; packet = packet })
      | none ↦ elim (try_session k wire hint s.pending) [
        | some packet ↦ some (record { slot = pending_slot; packet = packet })
        | none ↦ elim (try_session k wire hint s.previous) [
          | some packet ↦ some (record { slot = previous_slot; packet = packet })
          | none ↦ none
        ]
      ]
    ]

abbrev pub session_at : State → Slot → Option Session
session_at s active_slot = s.active
session_at s pending_slot = s.pending
session_at s previous_slot = s.previous

unfoldable pub store_session : State → Slot → Session → State
store_session s active_slot session = record s { active = some session }
store_session s pending_slot session = record s { pending = some session }
store_session s previous_slot session = record s { previous = some session }

-- The pending session becomes the active one.
unfoldable pub activate : State → ℕ → State
activate s now =
    completed
      (record s {
        previous = s.active;
        previous_until = now + old_lifetime;
        active = s.pending;
        pending = none;
        transmit_generation = s.transmit_generation + 1;
      })
      now

unfoldable pub receive_confirm : Config → State → Slot → Session → Packet → ℕ → State × Received
receive_confirm k s slot session packet now =
    let result : Received = record nothing { carries_control = true } in
    let ack = confirmation k session confirm_ack in
    if not k.server || not (packet.message_id == session.exchange)
    then (s, nothing)
    else elim slot [
      | active_slot ↦ (count_retry s, record result { reply = ack })
      | pending_slot ↦
          (activate s now, record result { reply = ack; activated = true; update_peer = true })
      | previous_slot ↦ (s, result)
    ]

-- The end of the handshake, on the client.
unfoldable pub finish : State → ℕ → State
finish s now =
    completed (record s { waiting_ack = false; flight = []; client_init = []; last_received = now })
      now

abbrev pub is_active : Slot → Bool
is_active active_slot = true
is_active _ = false

abbrev pub is_pending : Slot → Bool
is_pending pending_slot = true
is_pending _ = false

unfoldable pub receive_ack : Config → State → Slot → Session → Packet → ℕ → State × Received
receive_ack k s slot session packet now =
    let result : Received = record nothing { carries_control = true } in
    if k.server || not (is_active slot) || not (packet.message_id == session.exchange)
    then (s, nothing)
    else if not s.waiting_ack
    then (s, result)
    else (finish s now, record result { activated = true })

-- What belongs to the current session only.
abbrev pub is_metadata : PacketType → Bool
is_metadata info = true
is_metadata PacketType.control = true
is_metadata control_challenge = true
is_metadata auth_challenge = true
is_metadata auth_response = true
is_metadata auth_ok = true
is_metadata auth_failed = true
is_metadata relocate = true
is_metadata config = true
is_metadata relocate_bind = true
is_metadata relocate_ok = true
is_metadata _ = false

-- Data: never before CONFIRM, and each counter once.
unfoldable pub receive_data : Config → State → Slot → Session → Packet → ℕ → State × Received
receive_data k s slot session packet now =
    let (window, is_new) = accept session.replay (packet.sequence % 2 ^ 48) in
    let t : State = store_session s slot (record session { replay = window }) in
    if is_pending slot || is_metadata packet.type && not (is_active slot)
    then (s, nothing)
    else if not is_new
    then (t, record nothing { replay_drop = true })
    else if is_active slot
    then (
      record t { last_received = now },
      record nothing { carries_data = true; update_peer = k.server; session = some slot },
    )
    else (t, record nothing { carries_data = true; session = some slot })

unfoldable pub receive_matched : Config → State → Slot → Session → Packet → ℕ → State × Received
receive_matched k s slot session packet now = elim packet.type [
  | confirm ↦ receive_confirm k s slot session packet now
  | confirm_ack ↦ receive_ack k s slot session packet now
  | other ↦ receive_data k s slot session packet now
]

unfoldable pub receive_session : Config → State → List ℕ → ℕ → State × Received
receive_session k s wire now = elim (match_session k s wire) [
  | none ↦ (s, nothing)
  | some m ↦ elim (session_at s m.slot) [
    | none ↦ (s, nothing)
    | some session ↦ receive_matched k s m.slot session m.packet now
  ]
]

-- The client's flight has run out, which the next `tick` will see.
unfoldable pub flight_expired : Config → State → ℕ → Bool
flight_expired k s now =
    not k.server && not (length s.flight == 0) && leb pending_lifetime (now - s.flight_started)

abbrev pub ends_flight : Option PacketType → Bool
ends_flight (some response) = true
ends_flight (some confirm_ack) = true
ends_flight _ = false

unfoldable pub receive_typed :
    Config → State → List ℕ → Option PacketType → ℕ → ℕ → Random → State × Received
receive_typed k s wire (some init) now wall random =
    if k.server then receive_handshake k s wire true now wall random else (s, nothing)
receive_typed k s wire (some response) now wall random =
    if k.server then (s, nothing) else receive_handshake k s wire false now wall random
receive_typed k s wire type now wall random = receive_session k s wire now

unfoldable pub receive : Config → State → List ℕ → ℕ → ℕ → Random → State × Received
receive k s wire now wall random =
    let t : State = expire_pending (expire_previous s now) now in
    let type = type_of (get_or wire 0 0 % 0x20) in
    if ltb (length wire) protocol_header_v5_size || flight_expired k t now && ends_flight type
    then (t, nothing)
    else receive_typed k t wire type now wall random
