-- ===== src/Session/Freshness.antt =====
-- An INIT that was answered once is never answered with other keys.
use tuntom.Base.{
  Bool-cases, List, arith, drop, false, inl, inr, leb, length, ltb, refl, take, true, ℕ, ◌+◌, ◌/◌,
  ◌<◌, ◌∙◌, ◌≡◌, ◌≤◌, ◌⊎◌,
}
use tuntom.Packet.{Packet}
use tuntom.Wire.{load_be64}
use tuntom.Session.{
  Config, State, Random, nonce_capacity, is_some, started, count_retry, count_dh_rejected,
  random_failed,
}
use tuntom.Session.Server.{
  Received, member, expire_nonces, reserve, offer, respond, resend, receive_fresh, advance_wall,
  judge_time, receive_init,
}
use tuntom.Session.Nonces.{
  Indexed, listed, expire-Indexed, expire-listed, listed-member, listed-emplace, emplaced-listed,
  reserve-Indexed, length-expire,
}

-- The indexes agree, and are within their bound.
pub record IsTracked (s : State) : Type 0 where
  pub indexed : Indexed s.seen_nonces s.nonce_expiry
  pub bounded : length s.seen_nonces ≤ nonce_capacity

-- An INIT with this time and nonce is refused: it is too old, or its nonce is held.
abbrev pub Spent : Config → State → ℕ → List ℕ → Type 0
Spent k s stamp nonce =
    (stamp + k.init_window / 2 < s.wall_high_water)
    ⊎ (listed (stamp + k.init_window / 2) nonce s.nonce_expiry ≡ true)

-- What an operation leaves of the nonces.
pub record Keeps (s t : State) : Type 0 where
  pub same_seen : t.seen_nonces ≡ s.seen_nonces
  pub same_expiry : t.nonce_expiry ≡ s.nonce_expiry
  pub same_wall : t.wall_high_water ≡ s.wall_high_water

pub Keeps-IsTracked : (s t : State) → Keeps s t → IsTracked s → IsTracked t
Keeps-IsTracked s t e v = record {
  indexed = rw (e.same_seen, e.same_expiry) v.indexed;
  bounded = rw e.same_seen v.bounded;
}

pub Keeps-Spent :
    (k : Config) (s t : State) (stamp : ℕ) (nonce : List ℕ)
    → Keeps s t
    → Spent k s stamp nonce
    → Spent k t stamp nonce
Keeps-Spent k s t stamp nonce e (inl old) = inl (rw e.same_wall old)
Keeps-Spent k s t stamp nonce e (inr held) = inr (rw e.same_expiry held)

expire_nonces-IsTracked : (s : State) → IsTracked s → IsTracked (expire_nonces s)
unfolding expire_nonces
expire_nonces-IsTracked s v = record {
  indexed = expire-Indexed s.wall_high_water s.seen_nonces s.nonce_expiry v.indexed;
  bounded = omega (arith, v, length-expire s.wall_high_water s.seen_nonces s.nonce_expiry);
}

expire_nonces-Spent :
    (k : Config) (s : State) (stamp : ℕ) (nonce : List ℕ)
    → Spent k s stamp nonce
    → Spent k (expire_nonces s) stamp nonce
unfolding expire_nonces
expire_nonces-Spent k s stamp nonce (inl old) = inl old
expire_nonces-Spent k s stamp nonce (inr held) =
    expire-listed s.wall_high_water s.seen_nonces s.nonce_expiry _ nonce held

reserve-IsTracked :
    (s : State) (time : ℕ) (nonce : List ℕ)
    → member nonce s.seen_nonces ≡ false
    → length s.seen_nonces < nonce_capacity
    → IsTracked s
    → IsTracked (reserve s time nonce)
unfolding reserve
reserve-IsTracked s time nonce m b v = record {
  indexed =
      reserve-Indexed s.seen_nonces s.nonce_expiry (record { time = time; nonce = nonce }) v.indexed
        m;
  bounded = omega (arith, b);
}

reserve-Spent :
    (k : Config) (s : State) (time stamp : ℕ) (held nonce : List ℕ)
    → Spent k s stamp nonce
    → Spent k (reserve s time held) stamp nonce
unfolding reserve
reserve-Spent k s time stamp held nonce (inl old) = inl old
reserve-Spent k s time stamp held nonce (inr h) =
    inr (listed-emplace s.nonce_expiry (record { time = time; nonce = held }) _ nonce h)

-- A response is built from the reservation, or the state is as before it.
respond-Keeps :
    (k : Config) (before s : State) (init : List ℕ) (packet : Packet) (now : ℕ) (random : Random)
    (result : Received)
    → let t = (respond k before s init packet now random result).0 in
      (Keeps s t) ⊎ ((Keeps before t) × (t.pending ≡ before.pending))
unfolding respond offer started count_dh_rejected random_failed
respond-Keeps k before s init packet now random result = ground arith

resend-Keeps :
    (s : State) (init : List ℕ) (now : ℕ) (result : Received)
    → (Keeps s (resend s init now result).0) × ((resend s init now result).0.pending ≡ s.pending)
unfolding resend count_retry
resend-Keeps s init now result = ground arith

-- The time and the nonce that an INIT names.
abbrev pub stamp_of : Packet → ℕ
stamp_of packet = load_be64 (drop 32 packet.payload)

abbrev pub nonce_of : Packet → List ℕ
nonce_of packet = take 32 packet.payload

-- What an INIT may do to the nonces and the candidate.
pub record Guards (k : Config) (s t : State) (packet : Packet) : Type 0 where
  pub tracked : IsTracked t
  pub keeps_spent : (stamp : ℕ) (nonce : List ℕ) → Spent k s stamp nonce → Spent k t stamp nonce
  pub spends : (t.pending ≡ s.pending) ⊎ Spent k t (stamp_of packet) (nonce_of packet)

Keeps-Guards :
    (k : Config) (s t : State) (packet : Packet)
    → IsTracked s
    → Keeps s t
    → t.pending ≡ s.pending
    → Guards k s t packet
Keeps-Guards k s t packet v e same = record {
  tracked = Keeps-IsTracked s t e v;
  keeps_spent = λ stamp nonce. Keeps-Spent k s t stamp nonce e;
  spends = inl same;
}

reserved-Guards :
    (k : Config) (s t : State) (packet : Packet)
    → IsTracked s
    → member (nonce_of packet) s.seen_nonces ≡ false
    → length s.seen_nonces < nonce_capacity
    → Keeps (reserve s (stamp_of packet + k.init_window / 2) (nonce_of packet)) t
    → Guards k s t packet
unfolding reserve
reserved-Guards k s t packet v m b e =
    let time : ℕ = stamp_of packet + k.init_window / 2 in
    let r : State = reserve s time (nonce_of packet) in
    record {
      tracked = Keeps-IsTracked r t e (reserve-IsTracked s time (nonce_of packet) m b v);
      keeps_spent = λ stamp nonce h.
          Keeps-Spent k r t stamp nonce e (reserve-Spent k s time stamp (nonce_of packet) nonce h);
      spends = inr (
          Keeps-Spent k r t (stamp_of packet) (nonce_of packet) e (
            inr
              (emplaced-listed s.nonce_expiry (record { time = time; nonce = nonce_of packet }))));
    }

receive_fresh-Guards :
    (k : Config) (s : State) (init : List ℕ) (packet : Packet) (now : ℕ) (random : Random)
    (result : Received)
    → IsTracked s
    → Guards k s (receive_fresh k s init packet now random result).0 packet
unfolding receive_fresh
receive_fresh-Guards k s init packet now random result v =
    elim (Bool-cases (member (nonce_of packet) s.seen_nonces)) [
      | inl seen ↦
          rw (receive_fresh, seen)
            (Keeps-Guards k s (resend s init now result).0 packet v
              (resend-Keeps s init now result).0 (resend-Keeps s init now result).1)
      | inr new ↦ elim (Bool-cases (leb nonce_capacity (length s.seen_nonces))) [
        | inl full ↦ rw (receive_fresh, new, full) unchanged
        | inr room ↦ elim (Bool-cases (is_some s.pending)) [
          | inl busy ↦
              rw (receive_fresh, new, room, busy)
                (reserved-Guards k s r packet v new (ground (arith, room))
                  (record { same_seen = refl; same_expiry = refl; same_wall = refl }))
          | inr idle ↦ elim (Bool-cases (ltb now s.random_retry_after)) [
            | inl early ↦ rw (receive_fresh, new, room, idle, early) unchanged
            | inr due ↦
                rw (receive_fresh, new, room, idle, due)
                  (elim (respond-Keeps k s r init packet now random result) [
                    | inl kept ↦
                        reserved-Guards k s (respond k s r init packet now random result).0 packet v
                          new (ground (arith, room)) kept
                    | inr back ↦
                        Keeps-Guards k s (respond k s r init packet now random result).0 packet v
                          back.0 back.1
                  ])
          ]
        ]
      ]
    ]
  where
    r : State
    r = reserve s (stamp_of packet + k.init_window / 2) (nonce_of packet)

    unchanged : Guards k s s packet
    unchanged =
        Keeps-Guards k s s packet v
          (record { same_seen = refl; same_expiry = refl; same_wall = refl }) refl

-- A nonce that is held gets no candidate.
receive_fresh_seen :
    (k : Config) (s : State) (init : List ℕ) (packet : Packet) (now : ℕ) (random : Random)
    (result : Received)
    → member (nonce_of packet) s.seen_nonces ≡ true
    → (receive_fresh k s init packet now random result).0.pending ≡ s.pending
unfolding receive_fresh
receive_fresh_seen k s init packet now random result seen =
    rw (receive_fresh, seen) (resend-Keeps s init now result).1

advance-IsTracked : (s : State) (wall : ℕ) → IsTracked s → IsTracked (advance_wall s wall)
unfolding advance_wall
advance-IsTracked s wall v = record { indexed = v.indexed; bounded = v.bounded }

advance-Spent :
    (k : Config) (s : State) (wall stamp : ℕ) (nonce : List ℕ)
    → Spent k s stamp nonce
    → Spent k (advance_wall s wall) stamp nonce
unfolding advance_wall
advance-Spent k s wall stamp nonce (inl old) = inl (omega (arith, old))
advance-Spent k s wall stamp nonce (inr held) = inr held

-- From the state with the time moved on and the old nonces gone.
current_state : State → ℕ → State
current_state s wall = expire_nonces (advance_wall s wall)

current-IsTracked : (s : State) (wall : ℕ) → IsTracked s → IsTracked (current_state s wall)
unfolding current_state
current-IsTracked s wall v =
    expire_nonces-IsTracked (advance_wall s wall) (advance-IsTracked s wall v)

current-Spent :
    (k : Config) (s : State) (wall stamp : ℕ) (nonce : List ℕ)
    → Spent k s stamp nonce
    → Spent k (current_state s wall) stamp nonce
unfolding current_state
current-Spent k s wall stamp nonce h =
    expire_nonces-Spent k (advance_wall s wall) stamp nonce (advance-Spent k s wall stamp nonce h)

current-pending : (s : State) (wall : ℕ) → (current_state s wall).pending ≡ s.pending
unfolding current_state expire_nonces advance_wall
current-pending s wall = refl

current-wall :
    (s : State) (wall : ℕ)
    → (current_state s wall).wall_high_water ≡ (advance_wall s wall).wall_high_water
unfolding current_state expire_nonces
current-wall s wall = refl

-- The two ways through `receive_init`.
receive_init-cases :
    (k : Config) (s : State) (init : List ℕ) (packet : Packet) (now wall : ℕ) (random : Random)
    → let judged : Received =
        judge_time k (stamp_of packet) (advance_wall s wall).wall_high_water in
      ((judged.timestamp_rejected ≡ true)
        × (receive_init k s init packet now wall random ≡ (advance_wall s wall, judged)))
      ⊎ ((judged.timestamp_rejected ≡ false)
          × (receive_init k s init packet now wall random
              ≡ receive_fresh k (current_state s wall) init packet now random judged))
unfolding receive_init current_state
receive_init-cases k s init packet now wall random =
    elim (Bool-cases
      (judge_time k (stamp_of packet) (advance_wall s wall).wall_high_water).timestamp_rejected) [
        | inl e ↦ inl (e, rw (receive_init, e) refl)
        | inr e ↦ inr (e, rw (receive_init, e) refl)
      ]

pub receive_init-Guards :
    (k : Config) (s : State) (init : List ℕ) (packet : Packet) (now wall : ℕ) (random : Random)
    → IsTracked s
    → Guards k s (receive_init k s init packet now wall random).0 packet
unfolding current_state advance_wall expire_nonces
receive_init-Guards k s init packet now wall random v =
    elim (receive_init-cases k s init packet now wall random) [
      | inl (e, out) ↦ rw out (record {
        tracked = advance-IsTracked s wall v;
        keeps_spent = λ stamp nonce. advance-Spent k s wall stamp nonce;
        spends = inl refl;
      })
      | inr (e, out) ↦
          let t : State = current_state s wall in
          let g : Guards k t (receive_fresh k t init packet now random judged).0 packet =
            receive_fresh-Guards k t init packet now random judged (current-IsTracked s wall v) in
          rw out (record {
            tracked = g.tracked;
            keeps_spent =
                λ stamp nonce h. g.keeps_spent stamp nonce (current-Spent k s wall stamp nonce h);
            spends = g.spends;
          })
    ]
  where
    judged : Received
    judged = judge_time k (stamp_of packet) (advance_wall s wall).wall_high_water

-- A time that is not refused has not passed the window.
in_window :
    (k : Config) (stamp current : ℕ)
    → (judge_time k stamp current).timestamp_rejected ≡ false
    → current ≤ stamp + k.init_window / 2
unfolding judge_time
in_window k stamp current h = ground (arith, h)

-- An INIT whose time and nonce are spent changes no candidate.
pub receive_init-Spent :
    (k : Config) (s : State) (init : List ℕ) (packet : Packet) (now wall : ℕ) (random : Random)
    → IsTracked s
    → Spent k s (stamp_of packet) (nonce_of packet)
    → (receive_init k s init packet now wall random).0.pending ≡ s.pending
receive_init-Spent k s init packet now wall random v h =
    elim (receive_init-cases k s init packet now wall random) [
      | inl (e, out) ↦ rw out (unfold advance_wall in refl)
      | inr (e, out) ↦
          let t : State = current_state s wall in
          let tracked : IsTracked t = current-IsTracked s wall v in
          rw out (
            receive_fresh_seen k t init packet now random judged (held e tracked)
            ∙ current-pending s wall)
    ]
  where
    judged : Received
    judged = judge_time k (stamp_of packet) (advance_wall s wall).wall_high_water

    time : ℕ
    time = stamp_of packet + k.init_window / 2

    fresh_enough : judged.timestamp_rejected ≡ false → (advance_wall s wall).wall_high_water ≤ time
    fresh_enough e = in_window k (stamp_of packet) (advance_wall s wall).wall_high_water e

    held :
        judged.timestamp_rejected ≡ false
        → IsTracked (current_state s wall)
        → member (nonce_of packet) (current_state s wall).seen_nonces ≡ true
    held e tracked = elim (current-Spent k s wall (stamp_of packet) (nonce_of packet) h) [
      | inl old ↦ absurd (omega (arith, fresh_enough e, current-wall s wall, old))
      | inr there ↦
          listed-member (current_state s wall).seen_nonces (current_state s wall).nonce_expiry time
            (nonce_of packet) tracked.indexed there
    ]
