-- ===== src/Fragmentation.antt =====
-- src/fragmentation.hpp, and the loop of `Tunnel::send_data` (src/tunnel.hpp) that cuts a packet.
pub mod Plan
pub mod Cut
mod Tests
use tuntom.Base.{
  Bool, List, Option, Result, [], drop, err, if◌then◌else◌, leb, length, ltb, none, ok, some, suc,
  take, zero, ℕ, ◌%◌, ◌+◌, ◌-◌, ◌/◌, ◌==◌, ◌^◌, ◌||◌, ◌∷◌,
}
use tuntom.Packet.{
  PacketType, Packet, max_fragments_per_packet, max_ip_packet_size, protocol_version_v5,
}

pub data Error : Type 0 where
  invalid_parameters too_many_fragments : Error

pub record FragmentPlan : Type 0 where
  pub count : ℕ
  pub base_size : ℕ
  pub larger_fragments : ℕ

-- `size_t` arithmetic: the sum wraps, and the 1 is taken off a positive sum.
unfoldable pub make_fragment_plan : ℕ → ℕ → ℕ → Result Error FragmentPlan
make_fragment_plan packet_size maximum limit =
    if packet_size == 0 || maximum == 0
    then err invalid_parameters
    else (let count = ((packet_size + maximum - 1) % 2 ^ 64) / maximum in
        if ltb limit count
        then err too_many_fragments
        else ok (record {
          count = count;
          base_size = packet_size / count;
          larger_fragments = packet_size % count;
        }))

abbrev pub extension : ℕ
extension = 37 - 25

unfoldable pub make_v5_fragment_plan : ℕ → ℕ → Result Error FragmentPlan
unfolding make_fragment_plan
make_v5_fragment_plan packet_size fragment_payload =
    if fragment_payload == 0
      || ltb max_ip_packet_size fragment_payload
      || ltb max_ip_packet_size packet_size
    then err invalid_parameters
    else make_fragment_plan packet_size
        (if leb packet_size (fragment_payload + extension)
          then fragment_payload + extension
          else fragment_payload)
        max_fragments_per_packet

-- The size of the fragment at an index.
unfoldable pub fragment_size : FragmentPlan → ℕ → ℕ
fragment_size plan index = plan.base_size + (if ltb index plan.larger_fragments then 1 else 0)

-- `for (index = 0; index < plan.count; ++index)`: the rounds left, the index and the offset.
unfoldable pub cut : FragmentPlan → Packet → ℕ → ℕ → ℕ → ℕ → List Packet
unfolding fragment_size
cut plan logical message_id zero index offset = []
cut plan logical message_id (suc rounds) index offset =
    record logical {
      protocol_version = protocol_version_v5;
      message_id = message_id;
      fragment_offset = offset;
      original_length = length logical.payload;
      payload = take (fragment_size plan index) (drop offset logical.payload);
    }
    ∷ cut plan logical message_id rounds (index + 1) (offset + fragment_size plan index)

unfoldable pub fragments : FragmentPlan → Packet → ℕ → List Packet
unfolding cut
fragments plan logical message_id = cut plan logical message_id plan.count 0 0

-- `Tunnel::maximum_fragment_payload`: the outer IP header, whether the tunnel is a relay, and the
-- transport MTU; `none` is the exception.
unfoldable pub maximum_fragment_payload : ℕ → Bool → ℕ → Option ℕ
maximum_fragment_payload outer_header relay_mode active_transport_mtu =
    let overhead = outer_header + 8 + 37 + (if relay_mode then 4 else 0) in
    if leb active_transport_mtu overhead then none else some (active_transport_mtu - overhead)
