-- ===== src/Pmtud/Converge.antt =====
-- The search from its start to its end: with a path that carries datagrams of up to some size, it finds
-- that size.
use tuntom.Base.{
  ==_iff, Bool-cases, Option, Option-cases, [], ap, arith, false, if◌then◌else◌, inl, inr, inside,
  leb, ltb, min, none, refl, some, suc, true, zero, ℕ, ◌+◌, ◌-◌, ◌<◌, ◌∙◌, ◌≡◌, ◌≤◌,
}
use tuntom.Packet.{Packet, mtu_reply, protocol_version_v5, min_transport_mtu}
use tuntom.Pmtud.{
  Link, Search, candidate, pmtud_upper_bound, pmtud_probe_timeout, confirm, lose, clamp,
  send_mtu_probe, advance_pmtud_search, start_pmtud, restart_pmtud, handle_mtu_reply,
  handle_pmtud_timeout,
}
use tuntom.Pmtud.Probe.{
  roof, Carries, Bracket, InFlight, Settled, Probes, complete_lem, send_mtu_probe-Probes,
  candidate_bounds,
}

-- The peer's reply to the probe that is pending.
abbrev pub reply : Search → Packet
reply s = record {
  type = mtu_reply;
  tunnel_id = 0;
  protocol_version = protocol_version_v5;
  sequence = 0;
  message_id = s.probe_id;
  fragment_offset = 0;
  original_length = s.probe_size;
  payload = [];
}

-- What the path does with the pending probe: a reply if it fits, a timeout if it does not.
unfoldable pub answer : ℕ → Link → ℕ → Search → Option Search
answer fuel link mtu s =
    if leb s.probe_size mtu
    then handle_mtu_reply fuel link s (reply s)
    else handle_pmtud_timeout fuel link s (s.probe_sent_at + pmtud_probe_timeout)

abbrev and_then : Option Search → (Search → Option Search) → Option Search
and_then none next = none
and_then (some s) next = next s

unfoldable pub answers : ℕ → ℕ → Link → ℕ → Search → Option Search
answers fuel zero link mtu s = some s
answers fuel (suc rounds) link mtu s =
    and_then (answer fuel link mtu s) (answers fuel rounds link mtu)

unfoldable pub discover : ℕ → ℕ → Link → ℕ → Search → Option Search
discover fuel rounds link mtu s =
    and_then (restart_pmtud fuel link s) (answers fuel rounds link mtu)

-- The sizes that are still in question.
abbrev gap : Link → Search → ℕ
gap link s = roof link s - s.known_good

module _ (link : Link) (mtu fuel : ℕ) (carries : Carries link mtu)
    (enough : pmtud_upper_bound link < fuel) where
  -- A search that goes on from a bracket.
  advance_lem :
      (s : Search)
      → Bracket link mtu s
      → s.probe_pending ≡ false
      → (s' : Search) × (advance_pmtud_search fuel link s ≡ some s') × Probes link mtu s s'
  unfolding advance_pmtud_search
  advance_lem s b idle = elim (Option-cases (candidate link s)) [
    | inl closed ↦ (
      s,
      simp (idle, closed) refl,
      record {
        bracket = b;
        settled = inr (idle, closed);
        same_good = refl;
        same_started = refl;
        lower = omega arith;
      },
    )
    | inr (next, chosen) ↦
        let (inside, under) = candidate_bounds link s next chosen b.within in
        let (s', gives, p) =
          send_mtu_probe-Probes link mtu carries fuel s next b idle inside under
            (ground (arith, b.bad_within, enough, under)) in
        (s', simp (idle, chosen) gives, p)
  ]

  -- The bracket, once a probe is answered: the gap is smaller.
  abbrev Shrinks : Search → Search → Type 0
  Shrinks s s' = Bracket link mtu s' × Settled link s' × (gap link s' < gap link s)

  reply_lem :
      (s : Search)
      → Bracket link mtu s
      → InFlight link s
      → s.probe_size ≤ mtu
      → (s' : Search) × (handle_mtu_reply fuel link s (reply s) ≡ some s') × Shrinks s s'
  unfolding handle_mtu_reply confirm
  reply_lem s b q h =
      let (s', gives, p) = advance_lem (confirm s) good refl in
      (
        s',
        simp
            (
              q.pending,
              (==_iff s.probe_id s.probe_id).1 refl,
              (==_iff s.probe_size s.probe_size).1 refl,
            )
            gives,
        (
          p.bracket,
          p.settled,
          ground (arith, p.lower, p.same_good, q.above, q.below, q.at_most, b.good),
        ),
      )
    where
      good : Bracket link mtu (confirm s)
      good = record {
        low = ground (arith, b.low);
        good = ground (arith, b.good);
        within = ground (arith, b.within, q.at_most);
        bad = b.bad;
        bad_within = b.bad_within;
        active = refl;
      }

  timeout_lem :
      (s : Search)
      → Bracket link mtu s
      → InFlight link s
      → mtu < s.probe_size
      → (s' : Search) × (handle_pmtud_timeout fuel link s (s.probe_sent_at + pmtud_probe_timeout)
          ≡ some s')
        × Shrinks s s'
  unfolding handle_pmtud_timeout lose
  timeout_lem s b q h =
      let (s', gives, p) = advance_lem (lose s) bad refl in
      (
        s',
        simp (q.pending, late) gives,
        (
          p.bracket,
          p.settled,
          ground (arith, p.lower, p.same_good, q.above, q.below, q.at_most, b.good),
        ),
      )
    where
      bad : Bracket link mtu (lose s)
      bad = record {
        low = b.low;
        good = b.good;
        within = b.within;
        bad = inr h;
        bad_within = q.at_most;
        active = b.active;
      }

      late :
          ltb (s.probe_sent_at + pmtud_probe_timeout - s.probe_sent_at) pmtud_probe_timeout ≡ false
      late = ground arith

  answer_lem :
      (s : Search)
      → Bracket link mtu s
      → InFlight link s
      → (s' : Search) × (answer fuel link mtu s ≡ some s') × Shrinks s s'
  unfolding answer
  answer_lem s b q = elim (Bool-cases (leb s.probe_size mtu)) [
    | inl small ↦
        let (s', gives, shrinks) = reply_lem s b q (ground arith) in (s', simp small gives, shrinks)
    | inr large ↦
        let (s', gives, shrinks) = timeout_lem s b q (ground arith) in
        (s', simp large gives, shrinks)
  ]

  idle_answer : (s : Search) → s.probe_pending ≡ false → answer fuel link mtu s ≡ some s
  unfolding answer handle_mtu_reply handle_pmtud_timeout
  idle_answer s idle = elim (Bool-cases (leb s.probe_size mtu)) [
    | inl small ↦ simp (small, idle) refl
    | inr large ↦ simp (large, idle) refl
  ]

  idle_answers :
      (rounds : ℕ) (s : Search) → s.probe_pending ≡ false → answers fuel rounds link mtu s ≡ some s
  unfolding answers
  idle_answers zero s idle = refl
  idle_answers (suc rounds) s idle =
      ap (λ o. and_then o (answers fuel rounds link mtu)) (idle_answer s idle)
      ∙ idle_answers rounds s idle

  -- A search that found the MTU of the path, and stopped.
  abbrev pub Found : Search → Type 0
  Found s = (s.probe_pending ≡ false) × (s.active_mtu ≡ min mtu (pmtud_upper_bound link))

  answers_lem :
      (rounds : ℕ) (s : Search)
      → Bracket link mtu s
      → Settled link s
      → gap link s ≤ rounds
      → (s' : Search) × (answers fuel rounds link mtu s ≡ some s') × Found s'
  unfolding answers
  answers_lem zero s b settled h = absurd (ground (arith, b.bad, b.good, b.within, h))
  answers_lem (suc rounds) s b (inl q) h =
      let (s', gives, (b', settled, less)) = answer_lem s b q in
      let (s'', ends, found) = answers_lem rounds s' b' settled (omega (arith, less, h)) in
      (s'', ap (λ o. and_then o (answers fuel rounds link mtu)) gives ∙ ends, found)
  answers_lem (suc rounds) s b (inr (idle, closed)) h =
      (s, idle_answers (suc rounds) s idle, (idle, b.active ∙ complete_lem link mtu s b closed))

  abbrev fresh : Search → Search
  fresh s = record s {
    started = true;
    probe_pending = false;
    probe_id = 0;
    probe_size = 0;
    known_good = min_transport_mtu;
    known_bad = 0;
    active_mtu = min_transport_mtu;
  }

  abbrev first : ℕ
  first = clamp link.transport_mtu (min_transport_mtu + 1) (pmtud_upper_bound link)

  first_bounds : (min_transport_mtu < first) × (first ≤ pmtud_upper_bound link)
  unfolding clamp pmtud_upper_bound
  first_bounds = (ground arith, ground arith)

  fresh-Bracket : (s : Search) → min_transport_mtu ≤ mtu → Bracket link mtu (fresh s)
  unfolding pmtud_upper_bound
  fresh-Bracket s low = record {
    low = omega arith;
    good = low;
    within = ground arith;
    bad = inl refl;
    bad_within = omega arith;
    active = refl;
  }

  restart_step : (s : Search) → restart_pmtud fuel link s ≡ send_mtu_probe fuel link (fresh s) first
  unfolding restart_pmtud start_pmtud
  restart_step s = refl

  discover_step :
      (rounds : ℕ) (s s' s'' : Search)
      → restart_pmtud fuel link s ≡ some s'
      → answers fuel rounds link mtu s' ≡ some s''
      → discover fuel rounds link mtu s ≡ some s''
  unfolding discover
  discover_step rounds s s' s'' started ends =
      ap (λ o. and_then o (answers fuel rounds link mtu)) started ∙ ends

  -- On a path that carries what fits its MTU, of 500 bytes at least, `restart_pmtud` from any state
  -- starts a search that ends, with no probe pending and the MTU of the path, up to the upper bound, as
  -- the active one: fuel above the upper bound is enough for each call, and as many answers as the
  -- upper bound for the search.
  pub discover_lem :
      (rounds : ℕ) (s : Search)
      → min_transport_mtu ≤ mtu
      → pmtud_upper_bound link ≤ rounds
      → (s' : Search) × (discover fuel rounds link mtu s ≡ some s') × Found s'
  discover_lem rounds s low long =
      let (above, within) = first_bounds in
      let (s', gives, p) =
        send_mtu_probe-Probes link mtu carries fuel (fresh s) first (fresh-Bracket s low) refl above
          (omega (arith, within)) (omega (arith, within, enough)) in
      let (s'', ends, found) =
        answers_lem rounds s' p.bracket p.settled (ground (arith, long, p.lower, p.same_good)) in
      (s'', discover_step rounds s s' s'' (restart_step s ∙ gives) ends, found)
