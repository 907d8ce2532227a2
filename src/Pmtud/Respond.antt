-- ===== src/Pmtud/Respond.antt =====
-- The peer's side of a probe: `handle_mtu_probe` of src/tunnel.hpp.
use tuntom.Base.{
  ==_iff, Bool, Bool-cases, List-cases, Option, Option-cases, [], arith, if◌then◌else◌, inl, inr,
  max, none, not, refl, some, subst, sym, true, ℕ, ◌%◌, ◌+◌, ◌<◌, ◌==◌, ◌^◌, ◌∙◌, ◌∷◌, ◌≡◌, ◌≤◌,
  ◌⊎◌,
}
use mathlib.Core.Option.{none-ne-some, some-injective}
use tuntom.Packet.{Packet, mtu_reply, protocol_version_v5}
use tuntom.Pmtud.Settle.{advance_pmtud_search-Keeps}
use tuntom.Pmtud.{
  Link, Search, Stats, udp_header_size, pmtud_upper_bound, confirm, handle_mtu_reply, probe_packet,
  advance_pmtud_search,
}

-- `sockaddr_storage`: the family, and whether an IPv6 address is a mapped IPv4 one.
pub data Source : Type 0 where
  inet : Source
  inet6 : Bool → Source
  unknown : Source

abbrev pub ipv4_header_min_size : ℕ
ipv4_header_min_size = 20

abbrev pub ipv6_header_size : ℕ
ipv6_header_size = 40

unfoldable pub source_ip_header_size : Link → Source → ℕ
source_ip_header_size link inet = ipv4_header_min_size
source_ip_header_size link (inet6 mapped) =
    if mapped then ipv4_header_min_size else ipv6_header_size
source_ip_header_size link unknown = link.outer_header

unfoldable pub observed_outer_size : Link → ℕ → Source → ℕ
unfolding source_ip_header_size
observed_outer_size link udp_payload_size source =
    source_ip_header_size link source + udp_header_size + udp_payload_size

unfoldable pub reply_packet : Link → Packet → ℕ → Packet
reply_packet link p observed = record {
  type = mtu_reply;
  tunnel_id = link.tunnel_id;
  protocol_version = protocol_version_v5;
  sequence = 0;
  message_id = p.message_id;
  fragment_offset = 0;
  original_length = observed % 2 ^ 32;
  payload = [];
}

-- The statistics, and the reply that went out, if one did. `n` counts the datagrams of the link.
unfoldable pub handle_mtu_probe : ℕ → Link → Stats → Packet → ℕ → Source → Stats × Option Packet
unfolding observed_outer_size reply_packet
handle_mtu_probe n link stats p udp_payload_size source =
    let observed = observed_outer_size link udp_payload_size source in
    let reply = reply_packet link p observed in
    if not (observed == p.original_length) then (stats, none) else elim (link.encode n reply) [
      | [] ↦ (stats, none)
      | b ∷ bs ↦ elim (link.send n (b ∷ bs)) [
        | none ↦ (record stats { udp_send_errors = stats.udp_send_errors + 1 }, none)
        | some sent ↦ (
          record stats {
            udp_tx_packets = stats.udp_tx_packets + 1;
            udp_tx_bytes = (stats.udp_tx_bytes + sent) % 2 ^ 64;
          },
          some reply,
        )
      ]
    ]

-- What goes out for a probe: nothing, or the reply that names the size that was observed.
matching :
    (n : ℕ) (link : Link) (stats : Stats) (p : Packet) (size : ℕ) (source : Source)
    → ((handle_mtu_probe n link stats p size source).1 ≡ none)
      ⊎ ((observed_outer_size link size source ≡ p.original_length)
          × ((handle_mtu_probe n link stats p size source).1
              ≡ some (reply_packet link p (observed_outer_size link size source))))
unfolding handle_mtu_probe
matching n link stats p size source =
    elim (Bool-cases (observed_outer_size link size source == p.original_length)) [
      | inr other ↦ inl (rw (handle_mtu_probe, other) refl)
      | inl equal ↦
          elim (List-cases
            (link.encode n (reply_packet link p (observed_outer_size link size source)))) [
              | inl nothing ↦ inl (rw (handle_mtu_probe, equal, nothing) refl)
              | inr (b, bs, e) ↦ elim (Option-cases (link.send n (b ∷ bs))) [
                | inl refused ↦ inl (rw (handle_mtu_probe, equal, e, refused) refl)
                | inr (sent, done) ↦
                    inr ((==_iff _ _).0 equal, rw (handle_mtu_probe, equal, e, done) refl)
              ]
            ]
    ]

reply_accepted :
    (fuel : ℕ) (link : Link) (s : Search) (p : Packet)
    → s.probe_pending ≡ true
    → p.message_id ≡ s.probe_id
    → p.original_length ≡ s.probe_size
    → handle_mtu_reply fuel link s p ≡ advance_pmtud_search fuel link (confirm s)
unfolding handle_mtu_reply
reply_accepted fuel link s p pending id size =
    simp (pending, (==_iff _ _).1 id, (==_iff _ _).1 size) refl

-- What a reply leaves of a search: the size of its probe is known to be good, and the largest such size
-- is the active MTU; a probe that is on its way then is of a larger size.
pub record IsConfirmed (s s' : Search) : Type 0 where
  pub good : s'.known_good ≡ max s.known_good s.probe_size
  pub active : s'.active_mtu ≡ max s.known_good s.probe_size
  pub counted : s'.stats.probes_ok ≡ s.stats.probes_ok + 1
  pub above : s'.probe_pending ≡ true → max s.known_good s.probe_size < s'.probe_size

accepted-IsConfirmed :
    (fuel : ℕ) (link : Link) (s : Search) (p : Packet)
    → s.probe_pending ≡ true
    → p.message_id ≡ s.probe_id
    → p.original_length ≡ s.probe_size
    → s.known_bad ≤ pmtud_upper_bound link
    → pmtud_upper_bound link < fuel
    → (s' : Search) × (handle_mtu_reply fuel link s p ≡ some s') × IsConfirmed s s'
unfolding confirm
accepted-IsConfirmed fuel link s p pending id size bad enough =
    let (s', gives, kept) = advance_pmtud_search-Keeps fuel link (confirm s) refl bad enough in
    (
      s',
      reply_accepted fuel link s p pending id size ∙ gives,
      record {
        good = kept.same_good;
        active = kept.same_active;
        counted = kept.same_replies;
        above = λ q. omega (arith, kept.above q, kept.same_good);
      },
    )

-- A peer that replies to the pending probe of a search observed a datagram of exactly the probe's size.
-- Whatever the socket answers, handling the reply ends, with fuel above the upper bound, in a search
-- that knows the size to be good, has the largest size known to be good as its active MTU, has counted
-- the reply, and has no probe on its way but one of a larger size. The size known to be bad is within
-- the upper bound.
pub confirmed_lem :
    (n fuel size : ℕ) (link peer : Link) (stats : Stats) (s : Search) (source : Source) (r : Packet)
    → s.probe_pending ≡ true
    → s.probe_size < 2 ^ 32
    → s.known_bad ≤ pmtud_upper_bound link
    → pmtud_upper_bound link < fuel
    → (handle_mtu_probe n peer stats (probe_packet link s.probe_id s.probe_size) size source).1
      ≡ some r
    → (observed_outer_size peer size source ≡ s.probe_size)
      × ((s' : Search) × (handle_mtu_reply fuel link s r ≡ some s') × IsConfirmed s s')
unfolding probe_packet reply_packet
confirmed_lem n fuel size link peer stats s source r pending small bad enough replied =
    elim (matching n peer stats (probe_packet link s.probe_id s.probe_size) size source) [
      | inl silent ↦ absurd (none-ne-some r (sym silent ∙ replied))
      | inr (equal, answered) ↦ (
        observed equal,
        subst (λ p. (s' : Search) × (handle_mtu_reply fuel link s p ≡ some s') × IsConfirmed s s')
            (some-injective _ _ (sym answered ∙ replied))
            (accepted-IsConfirmed fuel link s _ pending refl (omega (arith, observed equal, small))
              bad enough),
      )
    ]
  where
    observed :
        observed_outer_size peer size source ≡ s.probe_size % 2 ^ 32
        → observed_outer_size peer size source ≡ s.probe_size
    observed e = omega (arith, e, small)
