-- ===== src/Pmtud/Probe.antt =====
-- What sending a probe leaves: a probe on its way inside the bracket, or a search that is complete.
use tuntom.Base.{
  List, List-cases, Option-cases, [], ap, arith, false, if◌then◌else◌, inl, inr, inside, leb, min,
  none, refl, some, suc, true, zero, ℕ, ◌+◌, ◌<◌, ◌==◌, ◌∙◌, ◌∷◌, ◌≡◌, ◌≢◌, ◌≤◌, ◌⊎◌,
}
use tuntom.Packet.{min_transport_mtu}
use tuntom.Pmtud.Settle.{refused_step}
use tuntom.Pmtud.{
  Link, Search, candidate, pmtud_upper_bound, probe_packet, overhead, probe_failed, probe_sent,
  take_id, count_probe, send_mtu_probe,
}

-- The least size that is out of the question.
abbrev pub roof : Link → Search → ℕ
roof link s = if s.known_bad == 0 then pmtud_upper_bound link + 1 else s.known_bad

-- The path carries datagrams of up to `mtu` bytes: what the session encodes is sent if it fits.
pub record Carries (link : Link) (mtu : ℕ) : Type 0 where
  pub is_ready : link.ready ≡ true
  pub header_fits : overhead link ≤ min_transport_mtu
  pub encodes : (n id target : ℕ) → link.encode n (probe_packet link id target) ≢ []
  pub sends :
      (n id target : ℕ)
      → link.send n (link.encode n (probe_packet link id target)) ≡ none
      → mtu < target

-- The path's MTU is between the size known to be good and the one known to be bad.
pub record Bracket (link : Link) (mtu : ℕ) (s : Search) : Type 0 where
  pub low : min_transport_mtu ≤ s.known_good
  pub good : s.known_good ≤ mtu
  pub within : s.known_good ≤ pmtud_upper_bound link
  pub bad : (s.known_bad ≡ 0) ⊎ (mtu < s.known_bad)
  pub bad_within : s.known_bad ≤ pmtud_upper_bound link
  pub active : s.active_mtu ≡ s.known_good

pub record InFlight (link : Link) (s : Search) : Type 0 where
  pub pending : s.probe_pending ≡ true
  pub above : s.known_good < s.probe_size
  pub below : s.probe_size < roof link s
  pub at_most : s.probe_size ≤ pmtud_upper_bound link

abbrev pub IsComplete : Link → Search → Type 0
IsComplete link s = (s.probe_pending ≡ false) × (candidate link s ≡ none)

abbrev pub Settled : Link → Search → Type 0
Settled link s = InFlight link s ⊎ IsComplete link s

-- The candidate is strictly inside the bracket.
pub candidate_bounds :
    (link : Link) (s : Search) (next : ℕ)
    → candidate link s ≡ some next
    → s.known_good ≤ pmtud_upper_bound link
    → (s.known_good < next) × (next < roof link s)
unfolding candidate
candidate_bounds link s next e h = (ground arith, ground arith)

-- A bracket that is closed gives the MTU.
pub complete_lem :
    (link : Link) (mtu : ℕ) (s : Search)
    → Bracket link mtu s
    → candidate link s ≡ none
    → s.known_good ≡ min mtu (pmtud_upper_bound link)
unfolding candidate
complete_lem link mtu s b e = elim b.bad [
  | inl z ↦ ground (arith, b.good, b.within)
  | inr h ↦ ground (arith, b.good, b.within)
]

-- What a search becomes by probing: the bracket holds, the known good size is the same, and the roof
-- is not raised.
pub record Probes (link : Link) (mtu : ℕ) (s s' : Search) : Type 0 where
  pub bracket : Bracket link mtu s'
  pub settled : Settled link s'
  pub same_good : s'.known_good ≡ s.known_good
  pub same_started : s'.started ≡ s.started
  pub lower : roof link s' ≤ roof link s

module _ (link : Link) (mtu : ℕ) (carries : Carries link mtu) where
  sent_lem :
      (s : Search) (target sent : ℕ)
      → Bracket link mtu s
      → s.known_good < target
      → target < roof link s
      → let named = take_id link s in
        Probes link mtu s (probe_sent link (count_probe named) named.last_message_id target sent)
  unfolding probe_sent count_probe take_id
  sent_lem s target sent b h k = record {
    bracket = record {
      low = b.low;
      good = b.good;
      within = b.within;
      bad = b.bad;
      bad_within = b.bad_within;
      active = b.active;
    };
    settled =
        inl
          (record { pending = refl; above = h; below = k; at_most = ground (arith, b.bad_within) });
    same_good = refl;
    same_started = refl;
    lower = omega arith;
  }

  failed_lem :
      (s : Search) (target : ℕ)
      → Bracket link mtu s
      → mtu < target
      → target < roof link s
      → Bracket link mtu (probe_failed (count_probe (take_id link s)) target)
        × (roof link (probe_failed (count_probe (take_id link s)) target) ≡ target)
  unfolding probe_failed count_probe take_id
  failed_lem s target b m k = (
    record {
      low = b.low;
      good = b.good;
      within = b.within;
      bad = inr m;
      bad_within = ground (arith, b.bad_within);
      active = b.active;
    },
    ground arith,
  )

  -- A probe is sent, or every smaller one fails until the bracket is closed: fuel above the size is
  -- enough.
  pub send_mtu_probe-Probes :
      (fuel : ℕ) (s : Search) (target : ℕ)
      → Bracket link mtu s
      → s.probe_pending ≡ false
      → s.known_good < target
      → target < roof link s
      → target < fuel
      → (s' : Search) × (send_mtu_probe fuel link s target ≡ some s') × Probes link mtu s s'
  unfolding send_mtu_probe probe_failed take_id count_probe
  send_mtu_probe-Probes zero s target b idle h k f = absurd (omega arith)
  send_mtu_probe-Probes (suc fuel) s target b idle h k f = elim (List-cases encoded) [
    | inl nothing ↦
        absurd (carries.encodes s.stats.probes_sent named.last_message_id target nothing)
    | inr (byte, bytes, e) ↦ elim (Option-cases (link.send s.stats.probes_sent (byte ∷ bytes))) [
      | inr (sent, done) ↦ (
        probe_sent link (count_probe named) named.last_message_id target sent,
        simp (carries.is_ready, idle, fits, e, done) refl,
        sent_lem s target sent b h k,
      )
      | inl refused ↦
          let (b', lowered) =
            failed_lem s target b
              (carries.sends s.stats.probes_sent named.last_message_id target
                (ap (link.send s.stats.probes_sent) e ∙ refused))
              k in
          elim (Option-cases (candidate link failed)) [
            | inl closed ↦ (
              failed,
              simp (carries.is_ready, idle, fits, e, refused, closed) refl,
              record {
                bracket = b';
                settled = inr (idle, closed);
                same_good = refl;
                same_started = refl;
                lower = omega (arith, lowered);
              },
            )
            | inr (next, chosen) ↦
                let (inside, under) = candidate_bounds link failed next chosen b'.within in
                let (s', gives, p) =
                  send_mtu_probe-Probes fuel failed next b' idle inside under
                    (omega (arith, lowered)) in
                (
                  s',
                  refused_step fuel link s target next byte bytes carries.is_ready idle fits e
                        refused chosen
                      ∙ gives,
                  record {
                    bracket = p.bracket;
                    settled = p.settled;
                    same_good = p.same_good;
                    same_started = p.same_started;
                    lower = omega (arith, lowered, p.lower);
                  },
                )
          ]
    ]
  ]
    where
      named : Search
      named = take_id link s

      failed : Search
      failed = probe_failed (count_probe named) target

      encoded : List ℕ
      encoded = link.encode s.stats.probes_sent (probe_packet link named.last_message_id target)

      fits : leb target (overhead link) ≡ false
      fits = ground (arith, carries.header_fits, b.low)
