-- ===== src/Session/Server.antt =====
-- src/session.hpp: what `receive` does with an INIT, on the server.
use tuntom.Base.{
  Bool, List, Option, [], bytes_equal, drop, false, if◌then◌else◌, leb, length, ltb, max, min, none,
  not, replicate, some, take, true, ℕ, ◌&&◌, ◌*◌, ◌++◌, ◌+◌, ◌-◌, ◌/◌, ◌||◌, ◌∷◌,
}
use tuntom.Packet.{Packet, response}
use tuntom.Wire.{load_be64}
use tuntom.KeySchedule.{shared, commitment}
use tuntom.ProtocolV5.{encode_into}
use tuntom.Session.{
  Config, State, Random, Expiry, response_resend_interval, pending_lifetime, nonce_capacity,
  is_some, handshake_codec, started, count_retry, count_dh_rejected, random_failed,
}
use tuntom.Session.Derive.{derive, control, bytes_of, key_offer}

-- Which session a packet belongs to, the pointer of `Received`.
pub data Slot : Type 0 where
  active_slot pending_slot previous_slot : Slot

pub record Received : Type 0 where
  pub carries_data : Bool
  pub carries_control : Bool
  pub replay_drop : Bool
  pub activated : Bool
  pub update_peer : Bool
  pub timestamp_rejected : Bool
  pub clock_warning : Bool
  pub nonce_full : Bool
  -- the clock offset: its size, and whether it is negative
  pub clock_offset : ℕ
  pub clock_behind : Bool
  pub session : Option Slot
  pub reply : List ℕ

abbrev pub nothing : Received
nothing = record {
  carries_data = false;
  carries_control = false;
  replay_drop = false;
  activated = false;
  update_peer = false;
  timestamp_rejected = false;
  clock_warning = false;
  nonce_full = false;
  clock_offset = 0;
  clock_behind = false;
  session = none;
  reply = [];
}

unfoldable pub member : List ℕ → List (List ℕ) → Bool
member nonce [] = false
member nonce (x ∷ xs) = bytes_equal x nonce || member nonce xs

unfoldable pub erase_nonce : List ℕ → List (List ℕ) → List (List ℕ)
erase_nonce nonce [] = []
erase_nonce nonce (x ∷ xs) =
    let rest = erase_nonce nonce xs in if bytes_equal x nonce then rest else x ∷ rest

-- The loop over the entries whose time has passed; the entries are in the order of their times.
unfoldable pub expire_entries : ℕ → List (List ℕ) → List Expiry → List (List ℕ) × List Expiry
expire_entries current seen [] = (seen, [])
expire_entries current seen (e ∷ es) =
    if ltb e.time current
    then expire_entries current (erase_nonce e.nonce seen) es
    else (seen, e ∷ es)

unfoldable pub expire_nonces : State → State
expire_nonces s =
    let (seen, left) = expire_entries s.wall_high_water s.seen_nonces s.nonce_expiry in
    record s { seen_nonces = seen; nonce_expiry = left }

-- `nonce_expiry_.emplace`: behind the entries whose time is not later.
unfoldable pub emplace : List Expiry → Expiry → List Expiry
emplace [] entry = entry ∷ []
emplace (e ∷ es) entry =
    let rest = emplace es entry in if ltb entry.time e.time then entry ∷ e ∷ es else e ∷ rest

unfoldable pub reserve : State → ℕ → List ℕ → State
reserve s time nonce = record s {
  seen_nonces = nonce ∷ s.seen_nonces;
  nonce_expiry = emplace s.nonce_expiry (record { time = time; nonce = nonce });
}

unfoldable pub response_payload : Config → List ℕ → List ℕ → List ℕ → List ℕ
response_payload k init nonce secret =
    commitment k.ascon k.master k.id init ++ (nonce ++ key_offer k secret)

unfoldable pub response_wire_of : Config → ℕ → List ℕ → List ℕ → List ℕ → List ℕ
response_wire_of k exchange init nonce secret = bytes_of (
    encode_into k.ascon (handshake_codec k)
      (record (control k response exchange) { payload = response_payload k init nonce secret }))

-- The candidate of an INIT, and the reply that offers it.
unfoldable pub offer : Config → State → List ℕ → ℕ → List ℕ → List ℕ → List ℕ → ℕ → State × List ℕ
offer k s init exchange nonce secret dh now =
    let wire = response_wire_of k exchange init nonce secret in
    (
      started (record s {
        previous = none;
        pending = some (derive k init wire exchange dh now);
        pending_until = now + pending_lifetime;
        response_resend_after = now;
      }),
      wire,
    )

-- `s` holds the reservation of the nonce, which the destructor of `NonceReservation` takes back where
-- random bytes fail: `before` is the state without it.
unfoldable pub respond :
    Config → State → State → List ℕ → Packet → ℕ → Random → Received → State × Received
respond k before s init packet now random result = elim random.nonce [
  | none ↦ (random_failed before now, result)
  | some nonce ↦
      if k.pfs
      then elim random.secret [
        | none ↦ (random_failed before now, result)
        | some secret ↦ elim (shared k.x25519 secret (take 32 (drop 44 packet.payload))) [
          | none ↦ (count_dh_rejected s, result)
          | some dh ↦
              let (t, wire) = offer k s init packet.message_id nonce secret dh now in
              (t, record result { reply = wire })
        ]
      ]
      else (
        (offer k s init packet.message_id nonce (replicate 32 0) (replicate 32 0) now).0,
        record result {
          reply = (offer k s init packet.message_id nonce (replicate 32 0) (replicate 32 0) now).1;
        },
      )
]

-- A nonce that was seen: only the INIT that still waits for CONFIRM has its RESPONSE sent again.
unfoldable pub resend : State → List ℕ → ℕ → Received → State × Received
resend s init now result = elim s.pending [
  | none ↦ (s, record result { replay_drop = true })
  | some candidate ↦
      if bytes_equal candidate.init_wire init
      then (if ltb now s.response_resend_after then (s, result) else (
        count_retry (record s { response_resend_after = now + response_resend_interval }),
        record result { reply = candidate.response_wire },
      ))
      else (s, record result { replay_drop = true })
]

-- An INIT whose time is in the window, once the old nonces are gone.
unfoldable pub receive_fresh :
    Config → State → List ℕ → Packet → ℕ → Random → Received → State × Received
receive_fresh k s init packet now random result =
    let nonce = take 32 packet.payload in
    let reserved : State =
      reserve s (load_be64 (drop 32 packet.payload) + k.init_window / 2) nonce in
    if member nonce s.seen_nonces
    then resend s init now result
    else if leb nonce_capacity (length s.seen_nonces)
    then (s, record result { nonce_full = true })
    else if not (is_some s.pending) && ltb now s.random_retry_after
    then (s, result)
    else if is_some s.pending
    then (reserved, result)
    else respond k s reserved init packet now random result

abbrev pub max_offset : ℕ
max_offset = 0x7fffffffffffffff

abbrev pub distance : ℕ → ℕ → ℕ
distance stamp current = if ltb current stamp then stamp - current else current - stamp

unfoldable pub advance_wall : State → ℕ → State
advance_wall s wall = record s { wall_high_water = max s.wall_high_water wall }

-- The verdict on the time that an INIT names.
unfoldable pub judge_time : Config → ℕ → ℕ → Received
judge_time k stamp current =
    let half = k.init_window / 2 in
    record nothing {
      carries_control = true;
      clock_offset = min (distance stamp current) max_offset;
      clock_behind = ltb stamp current;
      timestamp_rejected = ltb half (distance stamp current);
      clock_warning = leb ((half * 4 + 4) / 5) (distance stamp current);
    }

unfoldable pub receive_init : Config → State → List ℕ → Packet → ℕ → ℕ → Random → State × Received
receive_init k s init packet now wall random =
    let t : State = advance_wall s wall in
    let result = judge_time k (load_be64 (drop 32 packet.payload)) t.wall_high_water in
    if result.timestamp_rejected
    then (t, result)
    else receive_fresh k (expire_nonces t) init packet now random result
