-- ===== src/Pmtud.antt =====
-- The search for the largest transport MTU of `Tunnel` (src/tunnel.hpp).
-- The codec and the UDP socket stand for what they answer to the search: `encode` gives the datagram of
-- the n-th probe, `send` what `UdpEndpoint::send` returns for it, negative as `none`.
pub mod Probe
pub mod Converge
pub mod Settle
pub mod Respond
mod Tests
use tuntom.Base.{
  Bool, List, Option, [], false, if◌then◌else◌, leb, ltb, max, none, not, replicate, some, suc,
  true, zero, ℕ, ◌%◌, ◌&&◌, ◌*◌, ◌+◌, ◌-◌, ◌/◌, ◌==◌, ◌^◌, ◌||◌, ◌∷◌,
}
use tuntom.Packet.{Packet, PacketType, mtu_probe, mtu_reply, protocol_version_v5, min_transport_mtu}

abbrev pub udp_header_size : ℕ
udp_header_size = 8

abbrev pub protocol_probe_v5_size : ℕ
protocol_probe_v5_size = 35

abbrev pub pmtud_upper_mtu : ℕ
pmtud_upper_mtu = 1500

-- `pmtud_probe_timeout_seconds` in the nanoseconds of the clock.
abbrev pub pmtud_probe_timeout : ℕ
pmtud_probe_timeout = 2 * 1000000000

pub record Stats : Type 0 where
  pub probes_sent : ℕ
  pub probes_ok : ℕ
  pub probes_lost : ℕ
  pub udp_send_errors : ℕ
  pub udp_tx_packets : ℕ
  pub udp_tx_bytes : ℕ

pub record Search : Type 0 where
  pub started : Bool
  pub probe_pending : Bool
  pub probe_id : ℕ
  pub probe_size : ℕ
  pub probe_sent_at : ℕ
  pub known_good : ℕ
  pub known_bad : ℕ
  pub active_mtu : ℕ
  pub last_message_id : ℕ
  pub stats : Stats

-- What the search uses of the session, the socket, the options and the clock. `next_id` is
-- `SequenceGenerator::next` at what the clock reads for the n-th probe.
pub record Link : Type 0 where
  pub ready : Bool
  pub transport_mtu : ℕ
  pub outer_header : ℕ
  pub tunnel_id : ℕ
  pub next_id : ℕ → ℕ → ℕ
  pub encode : ℕ → Packet → List ℕ
  pub send : ℕ → List ℕ → Option ℕ
  pub clock : ℕ → ℕ

unfoldable pub pmtud_upper_bound : Link → ℕ
pmtud_upper_bound link = max pmtud_upper_mtu link.transport_mtu

unfoldable pub overhead : Link → ℕ
overhead link = link.outer_header + udp_header_size + protocol_probe_v5_size

unfoldable pub probe_packet : Link → ℕ → ℕ → Packet
unfolding overhead
probe_packet link id target = record {
  type = mtu_probe;
  tunnel_id = link.tunnel_id;
  protocol_version = protocol_version_v5;
  sequence = 0;
  message_id = id;
  fragment_offset = 0;
  original_length = target % 2 ^ 32;
  payload = replicate (target - overhead link) 0;
}

-- What `advance_pmtud_search` decides: `none` where the search is complete.
unfoldable pub candidate : Link → Search → Option ℕ
candidate link s =
    if leb (pmtud_upper_bound link) s.known_good
      || (not (s.known_bad == 0) && leb s.known_bad (s.known_good + 1))
    then none
    else (let middle =
          if s.known_bad == 0
          then pmtud_upper_bound link
          else s.known_good + (s.known_bad - s.known_good) / 2 in
        some (if leb middle s.known_good then s.known_good + 1 else middle))

unfoldable pub probe_failed : Search → ℕ → Search
probe_failed s target = record s {
  known_bad = target;
  stats = record s.stats { udp_send_errors = s.stats.udp_send_errors + 1 };
}

unfoldable pub probe_sent : Link → Search → ℕ → ℕ → ℕ → Search
probe_sent link s id target sent = record s {
  probe_pending = true;
  probe_id = id;
  probe_size = target;
  probe_sent_at = link.clock s.stats.probes_sent;
  stats = record s.stats {
    udp_tx_packets = s.stats.udp_tx_packets + 1;
    udp_tx_bytes = (s.stats.udp_tx_bytes + sent) % 2 ^ 64;
  };
}

-- The state once the packet has its identifier, and once `send` has been called.
unfoldable pub take_id : Link → Search → Search
take_id link s = record s { last_message_id = link.next_id s.stats.probes_sent s.last_message_id }

unfoldable pub count_probe : Search → Search
count_probe s = record s { stats = record s.stats { probes_sent = s.stats.probes_sent + 1 } }

-- `send_mtu_probe`. A probe that cannot be sent makes its size the known bad one, and the search
-- goes on below it, `advance_pmtud_search` calling `send_mtu_probe` again: as many times as the fuel
-- says, `none` where it runs out.
unfoldable pub send_mtu_probe : ℕ → Link → Search → ℕ → Option Search
unfolding candidate probe_failed probe_sent take_id count_probe overhead
send_mtu_probe zero link s target = none
send_mtu_probe (suc fuel) link s target =
    let named = take_id link s in
    let encoded =
      link.encode s.stats.probes_sent (probe_packet link named.last_message_id target) in
    let failed = probe_failed (count_probe named) target in
    if not link.ready
    then some s
    else if s.probe_pending
    then some s
    else if leb target (overhead link)
    then some s
    else elim encoded [
      | [] ↦ some named
      | b ∷ bs ↦ elim (link.send s.stats.probes_sent (b ∷ bs)) [
        | some sent ↦ some (probe_sent link (count_probe named) named.last_message_id target sent)
        | none ↦ elim (candidate link failed) [
          | none ↦ some failed
          | some next ↦ send_mtu_probe fuel link failed next
        ]
      ]
    ]

unfoldable pub advance_pmtud_search : ℕ → Link → Search → Option Search
unfolding send_mtu_probe
advance_pmtud_search fuel link s =
    let next = candidate link s in
    if s.probe_pending
    then some s
    else elim next [ none ↦ some s | some target ↦ send_mtu_probe fuel link s target ]

unfoldable pub clamp : ℕ → ℕ → ℕ → ℕ
clamp v low high = if ltb v low then low else if ltb high v then high else v

unfoldable pub start_pmtud : ℕ → Link → Search → Option Search
unfolding clamp
start_pmtud fuel link s =
    if s.started
    then some s
    else send_mtu_probe fuel link
        (record s {
          started = true;
          known_good = min_transport_mtu;
          known_bad = 0;
          active_mtu = min_transport_mtu;
        })
        (clamp link.transport_mtu (min_transport_mtu + 1) (pmtud_upper_bound link))

unfoldable pub restart_pmtud : ℕ → Link → Search → Option Search
unfolding start_pmtud
restart_pmtud fuel link s = start_pmtud fuel link (record s {
  started = false;
  probe_pending = false;
  probe_id = 0;
  probe_size = 0;
  known_good = min_transport_mtu;
  known_bad = 0;
  active_mtu = min_transport_mtu;
})

unfoldable pub confirm : Search → Search
confirm s =
    let good = max s.known_good s.probe_size in
    record s {
      probe_pending = false;
      known_good = good;
      active_mtu = good;
      stats = record s.stats { probes_ok = s.stats.probes_ok + 1 };
    }

unfoldable pub handle_mtu_reply : ℕ → Link → Search → Packet → Option Search
unfolding confirm
handle_mtu_reply fuel link s p =
    if not s.probe_pending
      || not (p.message_id == s.probe_id)
      || not (p.original_length == s.probe_size)
    then some s
    else advance_pmtud_search fuel link (confirm s)

unfoldable pub lose : Search → Search
lose s = record s {
  probe_pending = false;
  known_bad = s.probe_size;
  stats = record s.stats { probes_lost = s.stats.probes_lost + 1 };
}

unfoldable pub handle_pmtud_timeout : ℕ → Link → Search → ℕ → Option Search
unfolding lose
handle_pmtud_timeout fuel link s now =
    if not s.probe_pending || ltb (now - s.probe_sent_at) pmtud_probe_timeout
    then some s
    else advance_pmtud_search fuel link (lose s)
