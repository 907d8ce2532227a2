-- ===== src/Packet.antt =====
-- src/packet_types.hpp and the limits of src/protocol_constants.hpp.
use tuntom.Base.{Bool, List, false, true, ℕ, ◌+◌}

pub data PacketType : Type 0 where
  hello keepalive user_data ping pong mtu_probe mtu_reply init response confirm : PacketType
  confirm_ack ipc info control control_challenge : PacketType
  auth_challenge auth_response auth_ok auth_failed : PacketType
  relocate config relocate_bind relocate_ok : PacketType

-- `tunnel_id` and `protocol_version` are set by the codec from its context.
pub record Packet : Type 0 where
  pub type : PacketType
  pub tunnel_id : ℕ
  pub protocol_version : ℕ
  pub sequence : ℕ
  pub message_id : ℕ
  pub fragment_offset : ℕ
  pub original_length : ℕ
  pub payload : List ℕ

abbrev pub protocol_version_v5 : ℕ
protocol_version_v5 = 5

abbrev pub max_ip_packet_size : ℕ
max_ip_packet_size = 65535

abbrev pub max_ipc_packet_size : ℕ
max_ipc_packet_size = 65535 + 72 + 32

abbrev pub min_transport_mtu : ℕ
min_transport_mtu = 500

abbrev pub max_fragments_per_packet : ℕ
max_fragments_per_packet = 64

abbrev pub max_ipc_fragments_per_packet : ℕ
max_ipc_fragments_per_packet = 256

abbrev pub is_ipc : PacketType → Bool
is_ipc ipc = true
is_ipc _ = false
