-- ===== src/Pmtud/Tests.antt =====
-- A path of 1300 bytes whose socket refuses what does not fit, and the theorems at it.
use tuntom.Base.{
  [], arith, false, get_or, if◌then◌else◌, ltb, min, none, refl, some, true, ◌%◌, ◌+◌, ◌^◌, ◌∷◌,
  ◌≡◌,
}
use mathlib.Core.List.{cons-ne-nil}
use tuntom.Packet.{Packet, mtu_reply}
use tuntom.Pmtud.{Link, Search, pmtud_upper_bound, overhead, probe_packet, handle_mtu_reply}
use tuntom.Pmtud.Respond.{inet, handle_mtu_probe, observed_outer_size, IsConfirmed, confirmed_lem}
use tuntom.Pmtud.Probe.{Carries}
use tuntom.Pmtud.Converge.{discover, discover_lem}

-- The datagram is its length, and the socket refuses one above 1300 bytes.
abbrev link : Link
link = record {
  ready = true;
  transport_mtu = 1400;
  outer_header = 20;
  tunnel_id = 9;
  next_id = λ n last. last + 1;
  encode = λ n p. p.original_length ∷ [];
  send = λ n bytes. if ltb 1300 (get_or bytes 0 0) then none else some (get_or bytes 0 0);
  clock = λ n. n;
}

abbrev idle : Search
idle = record {
  started = false;
  probe_pending = false;
  probe_id = 0;
  probe_size = 0;
  probe_sent_at = 0;
  known_good = 500;
  known_bad = 0;
  active_mtu = 500;
  last_message_id = 0;
  stats = record {
    probes_sent = 0;
    probes_ok = 0;
    probes_lost = 0;
    udp_send_errors = 0;
    udp_tx_packets = 0;
    udp_tx_bytes = 0;
  };
}

carries : Carries link 1300
unfolding overhead probe_packet
carries = record {
  is_ready = refl;
  header_fits = omega arith;
  encodes = λ n id target e. cons-ne-nil (target % 2 ^ 32) [] e;
  sends = λ n id target e. ground arith;
}

discover_lem_example :
    (s' : Search) × (discover 2000 1500 link 1300 idle ≡ some s')
    × ((s'.probe_pending ≡ false) × (s'.active_mtu ≡ min 1300 (pmtud_upper_bound link)))
unfolding pmtud_upper_bound
discover_lem_example =
    discover_lem link 1300 2000 carries (omega arith) 1500 idle (omega arith) (omega arith)

-- A probe of 600 bytes on its way, and the reply to it.
abbrev waiting : Search
waiting = record idle { probe_pending = true; probe_id = 4; probe_size = 600 }

abbrev answered : Packet
answered = record {
  type = mtu_reply;
  tunnel_id = 9;
  protocol_version = 5;
  sequence = 0;
  message_id = 4;
  fragment_offset = 0;
  original_length = 600;
  payload = [];
}

reply_runs :
    (handle_mtu_probe 0 link idle.stats (probe_packet link 4 600) 572 inet).1 ≡ some answered
unfolding handle_mtu_probe probe_packet
reply_runs = refl

confirmed_lem_example :
    (observed_outer_size link 572 inet ≡ 600)
    × ((s' : Search) × (handle_mtu_reply 2000 link waiting answered ≡ some s')
        × IsConfirmed waiting s')
unfolding pmtud_upper_bound
confirmed_lem_example =
    confirmed_lem 0 2000 572 link link idle.stats waiting inet answered refl (omega arith)
      (omega arith) (omega arith) reply_runs
