-- ===== src/ProtocolV5/Decode.antt =====
-- src/protocol.hpp: the decoder of the V5 codec, `ProtocolV5::decode_with_scratch`.
use tuntom.Base.{
  Bool, List, Option, bytes_equal, drop, false, get_or, if◌then◌else◌, leb, length, ltb, none, not,
  some, take, true, ℕ, ◌%◌, ◌&&◌, ◌++◌, ◌+◌, ◌-◌, ◌/◌, ◌==◌, ◌^◌, ◌||◌,
}
use tuntom.Packet.{
  PacketType, hello, keepalive, user_data, ping, pong, mtu_probe, mtu_reply, init, response,
  confirm, confirm_ack, ipc, info, control, control_challenge, auth_challenge, auth_response,
  auth_ok, auth_failed, relocate, config, relocate_bind, relocate_ok, Packet, protocol_version_v5,
  max_ip_packet_size, min_transport_mtu, is_ipc,
}
use tuntom.Wire.{load_be16, load_be32, load_be64}
use tuntom.Ascon.{Ascon}
use tuntom.Info
use tuntom.ProtocolV5.{
  ProtocolV5, protocol_header_v5_size, type_of, is_carrier, is_handshake, metadata_size, size_limit,
  nonce_of,
}

-- The payload of a datagram, if its tag fits the metadata, tag and payload found there.
unfoldable pub unseal : Ascon → ProtocolV5 → List ℕ → ℕ → Option (List ℕ)
unseal ascon c b meta =
    let tag = take 16 (drop meta b) in
    let body = drop (meta + 16) b in
    if c.encrypting
    then ascon.decrypt c.rx_key (nonce_of (take 8 (drop 1 b))) (take meta b) body tag
    else if bytes_equal tag (ascon.mac c.rx_key c.tunnel_id (take meta b ++ body))
    then some body
    else none

unfoldable pub read_packet : ProtocolV5 → List ℕ → PacketType → Bool → List ℕ → Packet
read_packet c b type fragment payload =
    let meta = metadata_size type fragment in
    let sequence = load_be64 (drop 1 b) in
    record {
      type = type;
      tunnel_id = c.tunnel_id;
      protocol_version = protocol_version_v5;
      sequence = sequence;
      message_id =
          if is_handshake type
          then load_be64 (drop 10 b)
          else if ltb 9 meta
          then load_be64 (drop 9 b)
          else if is_carrier type
          then sequence
          else 0;
      fragment_offset =
          if not (is_handshake type) && ltb 9 meta && fragment
          then (if is_ipc type then load_be32 (drop 17 b) else load_be16 (drop 17 b))
          else 0;
      original_length =
          if is_handshake type
          then 0
          else if ltb 9 meta
          then (if fragment
              then (if is_ipc type then load_be32 (drop 21 b) else load_be16 (drop 19 b))
              else if meta == 19
              then load_be16 (drop 17 b)
              else 0)
          else if is_carrier type
          then length payload
          else 0;
      payload = payload;
    }

-- The limit of a fragment, and that its metadata is needed.
unfoldable pub canonical_fragment : Packet → Bool
canonical_fragment p =
    leb p.original_length (size_limit p.type)
    && not (p.fragment_offset == 0 && p.original_length == length p.payload)

unfoldable pub accepted_handshake : ℕ → Packet → Bool
accepted_handshake expected p =
    let suite = load_be16 (drop (expected - 4) p.payload) in
    let dh_size = load_be16 (drop (expected - 2) p.payload) in
    p.sequence == 0
    && not (p.message_id == 0)
    && p.fragment_offset == 0
    && p.original_length == 0
    && leb expected (length p.payload)
    && leb suite 2
    && dh_size == (if suite == 2 then 32 else 0)
    && length p.payload == expected + dh_size

accepted_carrier : Packet → Bool
accepted_carrier p =
    not (p.message_id == 0)
    && not (p.original_length == 0)
    && not (length p.payload == 0)
    && leb (p.fragment_offset + length p.payload) p.original_length

accepted_confirm : Packet → Bool
accepted_confirm p =
    not (p.message_id == 0)
    && p.fragment_offset == 0
    && p.original_length == 0
    && length p.payload == 0
    && p.sequence % 2 ^ 48 == 0

accepted_echo : Packet → Bool
accepted_echo p =
    not (p.message_id == 0)
    && p.fragment_offset == 0
    && p.original_length == 0
    && length p.payload == 0

accepted_probe : Packet → Bool
accepted_probe p =
    not (p.message_id == 0)
    && p.fragment_offset == 0
    && leb min_transport_mtu p.original_length
    && leb p.original_length max_ip_packet_size

is_some : Option (List Info.Field) → Bool
is_some none = false
is_some (some fields) = true

-- The conditions on the packet of each type.
unfoldable pub accepted : PacketType → Packet → Bool
unfolding accepted_handshake accepted_carrier accepted_confirm accepted_echo accepted_probe is_some
accepted init p = accepted_handshake 44 p
accepted response p = accepted_handshake 68 p
accepted control p = leb 32 (length p.payload)
accepted control_challenge p = leb 32 (length p.payload)
accepted info p = is_some (Info.decode p.payload)
accepted auth_challenge p = not (length p.payload == 0)
accepted auth_response p = not (length p.payload == 0)
accepted auth_ok p = not (length p.payload == 0)
accepted auth_failed p = not (length p.payload == 0)
accepted relocate p = not (length p.payload == 0)
accepted config p = not (length p.payload == 0)
accepted relocate_bind p = not (length p.payload == 0)
accepted relocate_ok p = not (length p.payload == 0)
accepted confirm p = accepted_confirm p
accepted confirm_ack p = accepted_confirm p
accepted user_data p = accepted_carrier p
accepted ipc p = accepted_carrier p
accepted ping p = accepted_echo p
accepted pong p = accepted_echo p
accepted mtu_probe p = accepted_probe p
accepted mtu_reply p = accepted_probe p && length p.payload == 0
accepted hello p =
    p.message_id == 0 && p.fragment_offset == 0 && p.original_length == 0 && length p.payload == 0
accepted keepalive p =
    p.message_id == 0 && p.fragment_offset == 0 && p.original_length == 0 && length p.payload == 0

unfoldable pub check_packet : Packet → Bool → Option Packet
check_packet p fragment =
    if (if fragment then canonical_fragment p else true) && accepted p.type p then some p else none

-- The tests before the tag is verified.
unfoldable pub admissible : ProtocolV5 → List ℕ → PacketType → Bool → Bool
admissible c b type fragment =
    let meta = metadata_size type fragment in
    not (fragment && not (is_carrier type))
    && not (meta == 0)
    && leb (meta + 16) (length b)
    && leb (length b - (meta + 16)) (size_limit type)
    && not (is_handshake type && (c.encrypting || not (get_or b 9 0 == protocol_version_v5)))

unfoldable pub decode_typed : Ascon → ProtocolV5 → List ℕ → PacketType → Bool → Option Packet
decode_typed ascon c b type fragment =
    if not (admissible c b type fragment)
    then none
    else elim (unseal ascon c b (metadata_size type fragment)) [
      | none ↦ none
      | some payload ↦ check_packet (read_packet c b type fragment payload) fragment
    ]

bool_equal : Bool → Bool → Bool
bool_equal true b = b
bool_equal false b = not b

-- `data[0]` has the flags 0x80 (encrypted), 0x40 (fragment) and 0x20 (reserved) above the type.
unfoldable pub decode_with_scratch : Ascon → ProtocolV5 → List ℕ → Option Packet
unfolding bool_equal
decode_with_scratch ascon c b =
    let first = get_or b 0 0 in
    if ltb (length b) protocol_header_v5_size
      || not (bool_equal (first / 0x80 % 2 == 1) c.encrypting)
      || first / 0x20 % 2 == 1
    then none
    else elim (type_of (first % 0x20)) [
      | none ↦ none
      | some type ↦ decode_typed ascon c b type (first / 0x40 % 2 == 1)
    ]
