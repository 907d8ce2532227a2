-- ===== src/ProtocolV5.antt =====
-- src/protocol.hpp: the V5 codec. An encoded packet is its metadata, a tag of 16 bytes and the payload,
-- encrypted or not.
pub mod Decode
pub mod Layout
pub mod Roundtrip
pub mod Canonical
pub mod Exact
mod Tests
use tuntom.Base.{
  Bool, List, Option, Result, [], err, false, get_or, if◌then◌else◌, length, ltb, none, not, ok,
  replicate, some, true, ℕ, ◌&&◌, ◌++◌, ◌+◌, ◌==◌, ◌||◌, ◌∷◌,
}
use tuntom.Packet.{
  PacketType, hello, keepalive, user_data, ping, pong, mtu_probe, mtu_reply, init, response,
  confirm, confirm_ack, ipc, info, control, control_challenge, auth_challenge, auth_response,
  auth_ok, auth_failed, relocate, config, relocate_bind, relocate_ok, Packet, protocol_version_v5,
  max_ip_packet_size, max_ipc_packet_size, min_transport_mtu, is_ipc,
}
use tuntom.Wire.{store_be16, store_be32, store_be64}
use tuntom.Ascon.{Ascon}

abbrev pub protocol_header_v5_size : ℕ
protocol_header_v5_size = 25

-- The values of `PacketType`.
unfoldable pub type_byte : PacketType → ℕ
type_byte hello = 1
type_byte keepalive = 2
type_byte user_data = 3
type_byte ping = 4
type_byte pong = 5
type_byte mtu_probe = 6
type_byte mtu_reply = 7
type_byte init = 8
type_byte response = 9
type_byte confirm = 10
type_byte confirm_ack = 11
type_byte ipc = 12
type_byte info = 13
type_byte control = 14
type_byte control_challenge = 15
type_byte auth_challenge = 16
type_byte auth_response = 17
type_byte auth_ok = 18
type_byte auth_failed = 19
type_byte relocate = 20
type_byte config = 21
type_byte relocate_bind = 22
type_byte relocate_ok = 23

-- The types by their values.
abbrev pub packet_types : List (Option PacketType)
packet_types =
    none
    ∷ some hello
    ∷ some keepalive
    ∷ some user_data
    ∷ some ping
    ∷ some pong
    ∷ some mtu_probe
    ∷ some mtu_reply
    ∷ some init
    ∷ some response
    ∷ some confirm
    ∷ some confirm_ack
    ∷ some ipc
    ∷ some info
    ∷ some control
    ∷ some control_challenge
    ∷ some auth_challenge
    ∷ some auth_response
    ∷ some auth_ok
    ∷ some auth_failed
    ∷ some relocate
    ∷ some config
    ∷ some relocate_bind
    ∷ some relocate_ok
    ∷ []

-- The type with a value, `static_cast<PacketType>`; a value without a name has no metadata size.
unfoldable pub type_of : ℕ → Option PacketType
type_of n = get_or packet_types n none

abbrev pub is_carrier : PacketType → Bool
is_carrier user_data = true
is_carrier ipc = true
is_carrier _ = false

abbrev pub is_handshake : PacketType → Bool
is_handshake init = true
is_handshake response = true
is_handshake _ = false

unfoldable pub fragmented : Packet → Bool
fragmented p =
    is_carrier p.type
    && (not (p.fragment_offset == 0) || not (p.original_length == length p.payload))

unfoldable pub metadata_size : PacketType → Bool → ℕ
metadata_size user_data fragment = if fragment then 21 else 9
metadata_size ipc fragment = if fragment then 25 else 9
metadata_size ping fragment = 17
metadata_size pong fragment = 17
metadata_size confirm fragment = 17
metadata_size confirm_ack fragment = 17
metadata_size mtu_probe fragment = 19
metadata_size mtu_reply fragment = 19
metadata_size init fragment = 18
metadata_size response fragment = 18
metadata_size _ fragment = 9

unfoldable pub header_size : Packet → ℕ
header_size p = metadata_size p.type (fragmented p) + 16

abbrev pub size_limit : PacketType → ℕ
size_limit type = if is_ipc type then max_ipc_packet_size else max_ip_packet_size

-- `tx_aead_` and `rx_aead_` are made of the keys.
pub record ProtocolV5 : Type 0 where
  pub tunnel_id : ℕ
  pub tx_key : List ℕ
  pub rx_key : List ℕ
  pub encrypting : Bool

pub data EncodeError : Type 0 where
  invalid_metadata handshake_encrypted : EncodeError

-- The flags of the first byte stand above the type's five bits, so `|` is `+`.
unfoldable pub first_byte : Bool → Packet → ℕ
first_byte encrypting p =
    type_byte p.type + (if encrypting then 0x80 else 0) + (if fragmented p then 0x40 else 0)

-- The bytes of the metadata from the tenth on.
unfoldable pub metadata_fields : Packet → List ℕ
metadata_fields p =
    if is_handshake p.type
    then protocol_version_v5 ∷ store_be64 p.message_id
    else if ltb 9 (metadata_size p.type (fragmented p))
    then store_be64 p.message_id
      ++ (if fragmented p
          then (if is_ipc p.type
              then store_be32 p.fragment_offset ++ store_be32 p.original_length
              else store_be16 p.fragment_offset ++ store_be16 p.original_length)
          else if metadata_size p.type (fragmented p) == 19
          then store_be16 p.original_length
          else [])
    else []

unfoldable pub metadata : Bool → Packet → List ℕ
metadata encrypting p = first_byte encrypting p ∷ (store_be64 p.sequence ++ metadata_fields p)

-- Eight zero bytes, then the sequence.
unfoldable pub nonce_of : List ℕ → List ℕ
nonce_of sequence = replicate 8 0 ++ sequence

-- The tag and the payload as they are sent.
unfoldable pub seal : Ascon → ProtocolV5 → Packet → List ℕ
seal ascon c p =
    let meta = metadata c.encrypting p in
    let sealed = ascon.encrypt c.tx_key (nonce_of (store_be64 p.sequence)) meta p.payload in
    if c.encrypting
    then sealed.1 ++ sealed.0
    else ascon.mac c.tx_key c.tunnel_id (meta ++ p.payload) ++ p.payload

unfoldable pub encode_into : Ascon → ProtocolV5 → Packet → Result EncodeError (List ℕ)
encode_into ascon c p =
    let limit = size_limit p.type in
    if metadata_size p.type (fragmented p) == 0
      || ltb limit p.fragment_offset
      || ltb limit p.original_length
      || ltb limit (length p.payload)
    then err invalid_metadata
    else if is_handshake p.type && c.encrypting
    then err handshake_encrypted
    else ok (metadata c.encrypting p ++ seal ascon c p)
