-- ===== src/Session/Traces.antt =====
-- The operations of a session protocol in any order, as its event loop calls them.
use tuntom.Base.{
  List, Option, [], arith, get_or, inl, inr, some, subst, sym, true, ℕ, ◌%◌, ◌∙◌, ◌∷◌, ◌≡◌, ◌≢◌,
  ◌⊎◌,
}
use tuntom.Packet.{Packet, PacketType, init}
use tuntom.ProtocolV5.{type_of}
use tuntom.ProtocolV5.Decode.{decode_with_scratch}
use tuntom.Session.{
  Session, Config, State, Random, fresh, started, completed, count_timeout, count_retry,
  count_mismatch, count_dh_rejected, random_failed, expire_previous, expire_pending,
  handshake_codec,
}
use tuntom.Session.Derive.{encode}
use tuntom.Session.Client.{
  begin, publish_init, abandon_flight, tick_client, tick, clear_sessions, restart,
}
use tuntom.Session.Server.{Slot, receive_init}
use tuntom.Session.Receive.{
  adopt, repeat_confirm, receive_response, receive_handshake, store_session, activate,
  receive_confirm, finish, receive_ack, receive_data, receive_matched, receive_session,
  receive_typed, receive,
}
use tuntom.Session.Freshness.{
  IsTracked, Spent, Keeps, Keeps-IsTracked, Keeps-Spent, stamp_of, nonce_of, Guards,
  receive_init-Guards, receive_init-Spent,
}

pub data Event : Type 0 where
  arrive : List ℕ → ℕ → ℕ → Random → Event
  timer : ℕ → ℕ → Random → Event
  restarted : ℕ → ℕ → Random → Event
  send : Packet → Event

unfoldable pub step : Config → State → Event → State
step k s (arrive wire now wall random) = (receive k s wire now wall random).0
step k s (timer now wall random) = (tick k s now wall random).0
step k s (restarted now wall random) = (restart k s now wall random).0
step k s (send packet) = (encode k s packet).0

unfoldable pub run : Config → State → List Event → State
run k s [] = s
run k s (e ∷ es) = run k (step k s e) es

Keeps-trans : (s t u : State) → Keeps s t → Keeps t u → Keeps s u
Keeps-trans s t u a b = record {
  same_seen = b.same_seen ∙ a.same_seen;
  same_expiry = b.same_expiry ∙ a.same_expiry;
  same_wall = b.same_wall ∙ a.same_wall;
}

-- The state at which an operation at this time begins.
abbrev pub expired : State → ℕ → State
expired s now = expire_pending (expire_previous s now) now

expired-Keeps : (s : State) (now : ℕ) → Keeps s (expired s now)
unfolding expire_pending expire_previous count_timeout
expired-Keeps s now = ground arith

begin-Keeps :
    (k : Config) (s : State) (now wall : ℕ) (random : Random)
    → Keeps s (begin k s now wall random).0
unfolding begin publish_init random_failed started
begin-Keeps k s now wall random = ground arith

tick_client-Keeps :
    (k : Config) (s : State) (now wall : ℕ) (random : Random)
    → Keeps s (tick_client k s now wall random).0
unfolding tick_client abandon_flight count_timeout count_retry
tick_client-Keeps k s now wall random =
    ground
      (arith, begin-Keeps k s now wall random, begin-Keeps k (abandon_flight s) now wall random)

tick-Keeps :
    (k : Config) (s : State) (now wall : ℕ) (random : Random) → Keeps s (tick k s now wall random).0
unfolding tick
tick-Keeps k s now wall random =
    ground (arith, expired-Keeps s now, tick_client-Keeps k (expired s now) now wall random)

restart-Keeps :
    (k : Config) (s : State) (now wall : ℕ) (random : Random)
    → Keeps s (restart k s now wall random).0
unfolding restart clear_sessions
restart-Keeps k s now wall random = ground (arith, begin-Keeps k (clear_sessions s) now wall random)

encode-Keeps : (k : Config) (s : State) (packet : Packet) → Keeps s (encode k s packet).0
unfolding encode
encode-Keeps k s packet = ground arith

receive_response-Keeps :
    (k : Config) (s : State) (wire : List ℕ) (packet : Packet) (now : ℕ)
    → Keeps s (receive_response k s wire packet now).0
unfolding receive_response adopt repeat_confirm count_retry count_dh_rejected
receive_response-Keeps k s wire packet now = ground arith

receive_matched-Keeps :
    (k : Config) (s : State) (slot : Slot) (session : Session) (packet : Packet) (now : ℕ)
    → Keeps s (receive_matched k s slot session packet now).0
unfolding receive_matched receive_confirm receive_ack receive_data store_session activate finish
    completed count_retry
receive_matched-Keeps k s slot session packet now = ground arith

receive_session-Keeps :
    (k : Config) (s : State) (wire : List ℕ) (now : ℕ) → Keeps s (receive_session k s wire now).0
unfolding receive_session
receive_session-Keeps k s wire now = grind (arith, receive_matched-Keeps)

-- What is no INIT to a server leaves the nonces alone.
receive_typed-Guards :
    (k : Config) (s : State) (wire : List ℕ) (type : Option PacketType) (now wall : ℕ)
    (random : Random)
    → IsTracked s
    → let t = (receive_typed k s wire type now wall random).0 in
      (Keeps s t) ⊎ ((p : Packet) × Guards k s t p)
unfolding receive_typed receive_handshake count_mismatch
receive_typed-Guards k s wire type now wall random v =
    grind (arith, receive_session-Keeps, receive_response-Keeps, receive_init-Guards)

receive-Guards :
    (k : Config) (s : State) (wire : List ℕ) (now wall : ℕ) (random : Random)
    → IsTracked (expired s now)
    → let t = (receive k s wire now wall random).0 in
      (Keeps (expired s now) t) ⊎ ((p : Packet) × Guards k (expired s now) t p)
unfolding receive
receive-Guards k s wire now wall random v = ground (
  arith,
  receive_typed-Guards k (expired s now) wire (type_of (get_or wire 0 0 % 0x20)) now wall random v,
)

-- Every event keeps the indexes in order, and what is spent stays spent.
record Steady (k : Config) (s t : State) : Type 0 where
  tracked : IsTracked t
  keeps_spent : (stamp : ℕ) (nonce : List ℕ) → Spent k s stamp nonce → Spent k t stamp nonce

Keeps-Steady : (k : Config) (s t : State) → IsTracked s → Keeps s t → Steady k s t
Keeps-Steady k s t v e = record {
  tracked = Keeps-IsTracked s t e v;
  keeps_spent = λ stamp nonce. Keeps-Spent k s t stamp nonce e;
}

step-Steady : (k : Config) (s : State) (e : Event) → IsTracked s → Steady k s (step k s e)
unfolding step
step-Steady k s (timer now wall random) v =
    Keeps-Steady k s (tick k s now wall random).0 v (tick-Keeps k s now wall random)
step-Steady k s (restarted now wall random) v =
    Keeps-Steady k s (restart k s now wall random).0 v (restart-Keeps k s now wall random)
step-Steady k s (send packet) v = Keeps-Steady k s (encode k s packet).0 v (encode-Keeps k s packet)
step-Steady k s (arrive wire now wall random) v =
    let t : State = expired s now in
    let u : State = (receive k s wire now wall random).0 in
    let a : Keeps s t = expired-Keeps s now in
    elim (receive-Guards k s wire now wall random (Keeps-IsTracked s t a v)) [
      | inl kept ↦ Keeps-Steady k s u v (Keeps-trans s t u a kept)
      | inr (p, g) ↦ record {
        tracked = g.tracked;
        keeps_spent =
            λ stamp nonce h. g.keeps_spent stamp nonce (Keeps-Spent k s t stamp nonce a h);
      }
    ]

run-Steady : (k : Config) (s : State) (es : List Event) → IsTracked s → Steady k s (run k s es)
unfolding run
run-Steady k s [] v = record { tracked = v; keeps_spent = λ stamp nonce h. h }
run-Steady k s (e ∷ es) v =
    let a = step-Steady k s e v in
    let b = run-Steady k (step k s e) es a.tracked in
    record {
      tracked = b.tracked;
      keeps_spent = λ stamp nonce h. b.keeps_spent stamp nonce (a.keeps_spent stamp nonce h);
    }

fresh-IsTracked : IsTracked fresh
fresh-IsTracked = record { indexed = tt; bounded = omega arith }

-- Whatever happens to a session protocol, it holds at most 65536 nonces, and each entry of its index by
-- time is for a nonce that it holds and is the only one for it.
pub run-IsTracked : (k : Config) (es : List Event) → IsTracked (run k fresh es)
run-IsTracked k es = (run-Steady k fresh es fresh-IsTracked).tracked

-- The type byte says INIT.
abbrev pub IsInit : List ℕ → Type 0
IsInit wire = type_of (get_or wire 0 0 % 0x20) ≡ some init

receive_typed-init :
    (k : Config) (s : State) (wire : List ℕ) (now wall : ℕ) (random : Random)
    → k.server ≡ true
    → let t = (receive_typed k s wire (some init) now wall random).0 in
      (t.pending ≡ s.pending)
      ⊎ ((p : Packet) × (decode_with_scratch k.ascon (handshake_codec k) wire ≡ some p)
          × (t ≡ (receive_init k s wire p now wall random).0))
unfolding receive_typed receive_handshake count_mismatch
receive_typed-init k s wire now wall random server = ground arith

-- An INIT at a server leaves the candidate, or goes through `receive_init`.
receive-init :
    (k : Config) (s : State) (wire : List ℕ) (now wall : ℕ) (random : Random)
    → k.server ≡ true
    → IsInit wire
    → let t = (receive k s wire now wall random).0 in
      (t.pending ≡ (expired s now).pending)
      ⊎ ((p : Packet) × (decode_with_scratch k.ascon (handshake_codec k) wire ≡ some p)
          × (t ≡ (receive_init k (expired s now) wire p now wall random).0))
unfolding receive
receive-init k s wire now wall random server is_init =
    ground
      (arith, is_init, server, receive_typed-init k (expired s now) wire now wall random server)

some-injective : {A : Type 0} (a b : A) → some a ≡ some b → a ≡ b
some-injective a b h = cc

-- An INIT that made a server's candidate never makes another: after any further events, in any order,
-- at any times and whatever the random bytes, the same datagram leaves the candidate as it is, but for
-- the expiry of the old one.
pub single_offer :
    (k : Config) (before after : List Event) (wire : List ℕ) (now wall now' wall' : ℕ)
    (random random' : Random)
    → k.server ≡ true
    → IsInit wire
    → (receive k (run k fresh before) wire now wall random).0.pending
      ≢ (expired (run k fresh before) now).pending
    → let u : State = run k (receive k (run k fresh before) wire now wall random).0 after in
      (receive k u wire now' wall' random').0.pending ≡ (expired u now').pending
single_offer k before after wire now wall now' wall' random random' server is_init offered =
    elim (receive-init k s wire now wall random server is_init) [
      | inl same ↦ absurd (offered same)
      | inr (p, d, e) ↦
          let g : Guards k (expired s now) t p =
            subst (λ v. Guards k (expired s now) v p) (sym e)
              (receive_init-Guards k (expired s now) wire p now wall random tracked) in
          elim g.spends [
            | inl same ↦ absurd (offered same)
            | inr spent ↦ again p d (run-Steady k t after g.tracked) spent
          ]
    ]
  where
    s : State
    s = run k fresh before

    t : State
    t = (receive k s wire now wall random).0

    u : State
    u = run k t after

    tracked : IsTracked (expired s now)
    tracked = Keeps-IsTracked s (expired s now) (expired-Keeps s now) (run-IsTracked k before)

    again :
        (p : Packet)
        → decode_with_scratch k.ascon (handshake_codec k) wire ≡ some p
        → Steady k t u
        → Spent k t (stamp_of p) (nonce_of p)
        → (receive k u wire now' wall' random').0.pending ≡ (expired u now').pending
    again p d steady spent = elim (receive-init k u wire now' wall' random' server is_init) [
      | inl same ↦ same
      | inr (q, d', e) ↦ rw e (
          receive_init-Spent k (expired u now') wire q now' wall' random'
            (Keeps-IsTracked u (expired u now') (expired-Keeps u now') steady.tracked)
            (Keeps-Spent k u (expired u now') (stamp_of q) (nonce_of q) (expired-Keeps u now') (
              subst (λ v. Spent k u (stamp_of v) (nonce_of v)) (some-injective p q (sym d ∙ d'))
                (steady.keeps_spent (stamp_of p) (nonce_of p) spent))))
    ]
