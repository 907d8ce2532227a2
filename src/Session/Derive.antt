-- ===== src/Session/Derive.antt =====
-- src/session.hpp: the keys of a session, and what is encoded with them.
use tuntom.Base.{
  List, Option, Result, [], err, if◌then◌else◌, none, ok, some, ℕ, ◌*◌, ◌++◌, ◌+◌, ◌^◌,
}
use tuntom.Packet.{Packet, PacketType, protocol_version_v5}
use tuntom.Wire.{load_be16, store_be16}
use tuntom.Replay.{empty}
use tuntom.KeySchedule.{derive_keys}
use tuntom.ProtocolV5.{encode_into}
use tuntom.Session.{Session, Config, State, suite, ready}

unfoldable pub derive : Config → List ℕ → List ℕ → ℕ → List ℕ → ℕ → Session
derive k init response exchange dh now =
    let keys = derive_keys k.ascon k.master k.id k.pfs (init ++ response) dh in
    record {
      codec = record {
        tunnel_id = k.id;
        tx_key = if k.server then keys.s2c else keys.c2s;
        rx_key = if k.server then keys.c2s else keys.s2c;
        encrypting = k.encrypting;
      };
      replay = empty;
      hint = load_be16 keys.hint;
      created = now;
      next_counter = 1;
      exchange = exchange;
      init_wire = init;
      response_wire = response;
    }

unfoldable pub control : Config → PacketType → ℕ → Packet
control k type exchange = record {
  type = type;
  tunnel_id = k.id;
  protocol_version = protocol_version_v5;
  sequence = 0;
  message_id = exchange;
  fragment_offset = 0;
  original_length = 0;
  payload = [];
}

-- The bytes of an encoding. `encode_into` throws for sizes above the limits and for an encrypted
-- handshake, neither of which the packets of this file have.
abbrev pub bytes_of : {E : Type 0} → Result E (List ℕ) → List ℕ
bytes_of (ok b) = b
bytes_of (err e) = []

-- The end of the payload of INIT and RESPONSE: the suite, the size of the key of the exchange, the key.
unfoldable pub key_offer : Config → List ℕ → List ℕ
key_offer k secret =
    store_be16 (suite k)
    ++ (if k.pfs then store_be16 32 ++ k.x25519.public_key secret else store_be16 0)

unfoldable pub confirmation : Config → Session → PacketType → List ℕ
confirmation k session type = bytes_of (
    encode_into k.ascon session.codec
      (record (control k type session.exchange) { sequence = session.hint * 2 ^ 48 }))

-- `encode_into` of the protocol: the sequence is the hint above the counter of 48 bits, so `|` is `+`.
-- An exception of the codec comes after the counter has been taken.
unfoldable pub encode : Config → State → Packet → State × Option (List ℕ)
encode k s packet = elim s.active [
  | none ↦ (s, none)
  | some session ↦
      if ready k s
      then (
        record s { active = some (record session { next_counter = session.next_counter + 1 }) },
        elim (encode_into k.ascon session.codec
            (record packet { sequence = session.hint * 2 ^ 48 + session.next_counter })) [
              | ok b ↦ some b
              | err e ↦ none
            ],
      )
      else (s, none)
]
