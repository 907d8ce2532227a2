-- ===== src/Session/Delivery.antt =====
-- Which datagrams are delivered as data.
use tuntom.Base.{
  Bool, List, Option, Option-cases, ap, arith, drop, false, get_or, inl, inr, some, subst, sym,
  true, ℕ, ◌%◌, ◌/◌, ◌^◌, ◌∙◌, ◌≡◌, ◌≢◌,
}
use tuntom.Packet.{Packet, PacketType}
use tuntom.Wire.{load_be64}
use tuntom.ProtocolV5.Decode.{decode_with_scratch}
use tuntom.Replay.{accept}
use tuntom.ProtocolV5.{type_of}
use tuntom.Session.{Session, Config, State, Random}
use tuntom.Session.Server.{
  Received, Slot, active_slot, pending_slot, previous_slot, respond, resend, receive_fresh,
  judge_time, receive_init,
}
use tuntom.Session.Receive.{
  try_session, repeat_confirm, receive_response, receive_handshake, Match, match_session,
  session_at, store_session, receive_confirm, receive_ack, receive_data, receive_matched,
  receive_session, receive_typed, receive, is_metadata,
}
use tuntom.Session.Confirm.{receive_session-matched}
use tuntom.Session.Traces.{expired}

-- A datagram delivered as data: its hint is the session's, whose codec decodes it, and the replay window
-- takes its counter. The session is never the one that waits for CONFIRM. What belongs to the current
-- session only is not taken from the one before it, and the other sessions stay as they are.
pub record IsDelivered (k : Config) (s t : State) (wire : List ℕ) (r : Received) : Type 0 where
  pub slot : Slot
  pub session : Session
  pub packet : Packet
  pub owned : session_at s slot ≡ some session
  pub named : r.session ≡ some slot
  pub hinted : session.hint ≡ load_be64 (drop 1 wire) / 2 ^ 48
  pub decodes : decode_with_scratch k.ascon session.codec wire ≡ some packet
  pub not_pending : slot ≢ pending_slot
  pub current : is_metadata packet.type ≡ true → slot ≡ active_slot
  pub unseen : (accept session.replay (packet.sequence % 2 ^ 48)).1 ≡ true
  pub recorded :
      session_at t slot
      ≡ some (record session { replay = (accept session.replay (packet.sequence % 2 ^ 48)).0 })
  pub others : (other : Slot) → other ≢ slot → session_at t other ≡ session_at s other

-- The hint and the codec of a session that takes a datagram.
try_session_lem :
    (k : Config) (wire : List ℕ) (hint : ℕ) (session : Session) (packet : Packet)
    → try_session k wire hint (some session) ≡ some packet
    → (session.hint ≡ hint) × (decode_with_scratch k.ascon session.codec wire ≡ some packet)
unfolding try_session
try_session_lem k wire hint session packet h = ground (arith, h)

match-try_session :
    (k : Config) (s : State) (wire : List ℕ) (m : Match)
    → match_session k s wire ≡ some m
    → try_session k wire (load_be64 (drop 1 wire) / 2 ^ 48) (session_at s m.slot) ≡ some m.packet
unfolding match_session
match-try_session k s wire m h = elim (Option-cases (try_session k wire hint s.active)) [
  | inr (p, a) ↦ taken active_slot p a (ground (arith, a, h))
  | inl a ↦ elim (Option-cases (try_session k wire hint s.pending)) [
    | inr (p, b) ↦ taken pending_slot p b (ground (arith, a, b, h))
    | inl b ↦ elim (Option-cases (try_session k wire hint s.previous)) [
      | inr (p, c) ↦ taken previous_slot p c (ground (arith, a, b, c, h))
      | inl c ↦ absurd (ground (arith, a, b, c, h))
    ]
  ]
]
  where
    hint : ℕ
    hint = load_be64 (drop 1 wire) / 2 ^ 48

    taken :
        (slot : Slot) (p : Packet)
        → try_session k wire hint (session_at s slot) ≡ some p
        → record { slot = slot; packet = p } ≡ m
        → try_session k wire hint (session_at s m.slot) ≡ some m.packet
    taken slot p e same =
        subst (λ n. try_session k wire hint (session_at s n.slot) ≡ some n.packet) same e

init_no_data :
    (k : Config) (s : State) (wire : List ℕ) (packet : Packet) (now wall : ℕ) (random : Random)
    → (receive_init k s wire packet now wall random).1.carries_data ≡ false
unfolding receive_init judge_time receive_fresh respond resend
init_no_data k s wire packet now wall random = ground arith

response_no_data :
    (k : Config) (s : State) (wire : List ℕ) (packet : Packet) (now : ℕ)
    → (receive_response k s wire packet now).1.carries_data ≡ false
unfolding receive_response repeat_confirm
response_no_data k s wire packet now = ground arith

handshake_no_data :
    (k : Config) (s : State) (wire : List ℕ) (is_init : Bool) (now wall : ℕ) (random : Random)
    → (receive_handshake k s wire is_init now wall random).1.carries_data ≡ false
unfolding receive_handshake
handshake_no_data k s wire is_init now wall random = grind (arith, init_no_data, response_no_data)

record Takes (k : Config) (s t : State) (slot : Slot) (session : Session) (packet : Packet)
    (r : Received) : Type 0 where
  named : r.session ≡ some slot
  not_pending : slot ≢ pending_slot
  current : is_metadata packet.type ≡ true → slot ≡ active_slot
  unseen : (accept session.replay (packet.sequence % 2 ^ 48)).1 ≡ true
  recorded :
      session_at t slot
      ≡ some (record session { replay = (accept session.replay (packet.sequence % 2 ^ 48)).0 })
  others : (other : Slot) → other ≢ slot → session_at t other ≡ session_at s other

data-Takes :
    (k : Config) (s : State) (slot : Slot) (session : Session) (packet : Packet) (now : ℕ)
    → let (t, r) = receive_data k s slot session packet now in
      r.carries_data ≡ true → Takes k s t slot session packet r
unfolding receive_data store_session
data-Takes k s active_slot session packet now h = ground (arith, h)
data-Takes k s pending_slot session packet now h = ground (arith, h)
data-Takes k s previous_slot session packet now h = ground (arith, h)

matched-Takes :
    (k : Config) (s : State) (slot : Slot) (session : Session) (packet : Packet) (now : ℕ)
    → let (t, r) = receive_matched k s slot session packet now in
      r.carries_data ≡ true → Takes k s t slot session packet r
unfolding receive_matched receive_confirm receive_ack
matched-Takes k s slot session packet now h =
    ground (arith, h, data-Takes k s slot session packet now)

session_some :
    (k : Config) (s : State) (wire : List ℕ) (now : ℕ)
    → (receive_session k s wire now).1.carries_data ≡ true
    → (m : Match) × (session : Session) × (match_session k s wire ≡ some m)
      × (session_at s m.slot ≡ some session)
unfolding receive_session
session_some k s wire now h = elim (Option-cases (match_session k s wire)) [
  | inl e ↦ absurd (ground (arith, e, h))
  | inr (m, e) ↦ elim (Option-cases (session_at s m.slot)) [
    | inl n ↦ absurd (ground (arith, e, n, h))
    | inr (session, x) ↦ (m, session, e, x)
  ]
]

session-IsDelivered :
    (k : Config) (s : State) (wire : List ℕ) (now : ℕ)
    → let (t, r) = receive_session k s wire now in r.carries_data ≡ true → IsDelivered k s t wire r
session-IsDelivered k s wire now h =
    let (m, session, e, x) = session_some k s wire now h in
    let same : receive_session k s wire now ≡ receive_matched k s m.slot session m.packet now =
      receive_session-matched k s wire now m.slot session m.packet e x in
    let took : Takes k s (receive_matched k s m.slot session m.packet now).0 m.slot session m.packet
        (receive_matched k s m.slot session m.packet now).1 =
      matched-Takes k s m.slot session m.packet now (subst (λ v. v.1.carries_data ≡ true) same h) in
    let reads : (session.hint ≡ load_be64 (drop 1 wire) / 2 ^ 48)
        × (decode_with_scratch k.ascon session.codec wire ≡ some m.packet) =
      try_session_lem k wire (load_be64 (drop 1 wire) / 2 ^ 48) session m.packet (
        ap (try_session k wire (load_be64 (drop 1 wire) / 2 ^ 48)) (sym x)
        ∙ match-try_session k s wire m e) in
    subst (λ v. IsDelivered k s v.0 wire v.1) (sym same)
      (record {
        slot = m.slot;
        session = session;
        packet = m.packet;
        owned = x;
        named = took.named;
        hinted = reads.0;
        decodes = reads.1;
        not_pending = took.not_pending;
        current = took.current;
        unseen = took.unseen;
        recorded = took.recorded;
        others = took.others;
      })

typed-IsDelivered :
    (k : Config) (s : State) (wire : List ℕ) (type : Option PacketType) (now wall : ℕ)
    (random : Random)
    → let (t, r) = receive_typed k s wire type now wall random in
      r.carries_data ≡ true → IsDelivered k s t wire r
unfolding receive_typed
typed-IsDelivered k s wire type now wall random h = ground (
  arith,
  h,
  session-IsDelivered k s wire now,
  handshake_no_data k s wire true now wall random,
  handshake_no_data k s wire false now wall random,
)

-- Data is delivered only from a session whose hint the datagram carries and whose codec decodes it, never
-- from the one that waits for CONFIRM, and only when that session's replay window takes the counter,
-- which it then holds, while the other sessions stay as they are; control messages are delivered from
-- the current session alone.
pub receive-IsDelivered :
    (k : Config) (s : State) (wire : List ℕ) (now wall : ℕ) (random : Random)
    → (receive k s wire now wall random).1.carries_data ≡ true
    → IsDelivered k
        (expired s now)
        (receive k s wire now wall random).0
        wire
        (receive k s wire now wall random).1
unfolding receive
receive-IsDelivered k s wire now wall random h = ground (
  arith,
  h,
  typed-IsDelivered k (expired s now) wire (type_of (get_or wire 0 0 % 0x20)) now wall random,
)
