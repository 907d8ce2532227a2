-- ===== src/Pmtud/Settle.antt =====
-- src/tunnel.hpp: `send_mtu_probe` and `advance_pmtud_search` on any socket.
use tuntom.Base.{
  Bool-cases, List, List-cases, Option-cases, arith, dec_lt, false, inl, inr, leb, none, refl, some,
  suc, true, zero, ℕ, ◌<◌, ◌∙◌, ◌∷◌, ◌≡◌, ◌≤◌, ◌⊎◌,
}
use tuntom.Pmtud.{
  Link, Search, candidate, pmtud_upper_bound, probe_packet, overhead, probe_failed, probe_sent,
  take_id, count_probe, send_mtu_probe, advance_pmtud_search,
}

-- What a search keeps while probes are sent: the size known to be good, the active MTU and the replies
-- that were counted. A probe that is on its way then is above the size known to be good.
pub record Keeps (s s' : Search) : Type 0 where
  pub same_good : s'.known_good ≡ s.known_good
  pub same_active : s'.active_mtu ≡ s.active_mtu
  pub same_replies : s'.stats.probes_ok ≡ s.stats.probes_ok
  pub above : s'.probe_pending ≡ true → s'.known_good < s'.probe_size

-- The next size is above the one known to be good, and below the one known to be bad.
candidate_above :
    (link : Link) (s : Search) (next : ℕ) → candidate link s ≡ some next → s.known_good < next
unfolding candidate
candidate_above link s next e = ground arith

candidate_below :
    (link : Link) (s : Search) (next : ℕ)
    → candidate link s ≡ some next
    → (s.known_bad ≡ 0) ⊎ (next < s.known_bad)
unfolding candidate
candidate_below link s next e = elim (dec_lt 0 s.known_bad) [
  | yes h ↦ inr (ground (arith, h))
  | no n ↦ inl (omega (arith, n))
]

candidate_within :
    (link : Link) (s : Search) (next : ℕ)
    → candidate link s ≡ some next
    → s.known_bad ≤ pmtud_upper_bound link
    → next ≤ pmtud_upper_bound link
unfolding candidate
candidate_within link s next e h = ground (arith, h)

-- No probe is on its way.
idle-Keeps :
    (s s' : Search)
    → s'.probe_pending ≡ false
    → s'.known_good ≡ s.known_good
    → s'.active_mtu ≡ s.active_mtu
    → s'.stats.probes_ok ≡ s.stats.probes_ok
    → Keeps s s'
idle-Keeps s s' idle g a r = record {
  same_good = g;
  same_active = a;
  same_replies = r;
  above = λ p. absurd (ground (arith, idle, p));
}

-- A probe that cannot be sent, with a smaller one behind it.
pub refused_step :
    (fuel : ℕ) (link : Link) (s : Search) (target next byte : ℕ) (bytes : List ℕ)
    → link.ready ≡ true
    → s.probe_pending ≡ false
    → leb target (overhead link) ≡ false
    → link.encode s.stats.probes_sent (probe_packet link (take_id link s).last_message_id target)
      ≡ byte ∷ bytes
    → link.send s.stats.probes_sent (byte ∷ bytes) ≡ none
    → candidate link (probe_failed (count_probe (take_id link s)) target) ≡ some next
    → send_mtu_probe (suc fuel) link s target
      ≡ send_mtu_probe fuel link (probe_failed (count_probe (take_id link s)) target) next
unfolding send_mtu_probe
refused_step fuel link s target next byte bytes ready idle fits e refused chosen =
    simp (ready, idle, fits, e, refused, chosen) refl

-- Fuel above the size is enough, since each size that fails is followed by a smaller one.
send_mtu_probe-Keeps :
    (fuel : ℕ) (link : Link) (s : Search) (target : ℕ)
    → s.probe_pending ≡ false
    → s.known_good < target
    → target < fuel
    → (s' : Search) × (send_mtu_probe fuel link s target ≡ some s') × Keeps s s'
unfolding send_mtu_probe probe_failed probe_sent take_id count_probe
send_mtu_probe-Keeps zero link s target idle h f = absurd (omega arith)
send_mtu_probe-Keeps (suc fuel) link s target idle h f = elim (Bool-cases link.ready) [
  | inr off ↦ (s, simp off refl, idle-Keeps s s idle refl refl refl)
  | inl ready ↦ elim (Bool-cases (leb target (overhead link))) [
    | inl small ↦ (s, simp (ready, idle, small) refl, idle-Keeps s s idle refl refl refl)
    | inr fits ↦ elim (List-cases encoded) [
      | inl nothing ↦
          (named, simp (ready, idle, fits, nothing) refl, idle-Keeps s named idle refl refl refl)
      | inr (byte, bytes, e) ↦ elim (Option-cases (link.send s.stats.probes_sent (byte ∷ bytes))) [
        | inr (sent, done) ↦ (
          probe_sent link (count_probe named) named.last_message_id target sent,
          simp (ready, idle, fits, e, done) refl,
          record { same_good = refl; same_active = refl; same_replies = refl; above = λ p. h },
        )
        | inl refused ↦ elim (Option-cases (candidate link failed)) [
          | inl closed ↦ (
            failed,
            simp (ready, idle, fits, e, refused, closed) refl,
            idle-Keeps s failed idle refl refl refl,
          )
          | inr (next, chosen) ↦
              let (s', gives, kept) =
                send_mtu_probe-Keeps fuel link failed next idle
                  (candidate_above link failed next chosen) (lower next chosen) in
              (
                s',
                refused_step fuel link s target next byte bytes ready idle fits e refused chosen
                    ∙ gives,
                record {
                  same_good = kept.same_good;
                  same_active = kept.same_active;
                  same_replies = kept.same_replies;
                  above = kept.above;
                },
              )
        ]
      ]
    ]
  ]
]
  where
    named : Search
    named = take_id link s

    failed : Search
    failed = probe_failed (count_probe named) target

    encoded : List ℕ
    encoded = link.encode s.stats.probes_sent (probe_packet link named.last_message_id target)

    lower : (next : ℕ) → candidate link failed ≡ some next → next < fuel
    lower next chosen = elim (candidate_below link failed next chosen) [
      | inl z ↦ absurd (omega (arith, z, h))
      | inr k ↦ omega (arith, k, f)
    ]

pub advance_pmtud_search-Keeps :
    (fuel : ℕ) (link : Link) (s : Search)
    → s.probe_pending ≡ false
    → s.known_bad ≤ pmtud_upper_bound link
    → pmtud_upper_bound link < fuel
    → (s' : Search) × (advance_pmtud_search fuel link s ≡ some s') × Keeps s s'
unfolding advance_pmtud_search
advance_pmtud_search-Keeps fuel link s idle bad enough = elim (Option-cases (candidate link s)) [
  | inl done ↦ (s, simp (idle, done) refl, idle-Keeps s s idle refl refl refl)
  | inr (next, chosen) ↦
      let (s', gives, kept) =
        send_mtu_probe-Keeps fuel link s next idle (candidate_above link s next chosen)
          (omega (arith, candidate_within link s next chosen bad, enough)) in
      (s', simp (idle, chosen) gives, kept)
]
