-- ===== src/Session/Handshake.antt =====
-- The handshake from INIT to the session of both ends.
use tuntom.Base.{
  List, ap, append_assoc, arith, bytes_equal_refl, drop, false, get_or, if◌then◌else◌, inr, length,
  max, refl, replicate, some, sym, take, take_prefix, true, ℕ, ◌%◌, ◌++◌, ◌+◌, ◌-◌, ◌/◌, ◌<◌, ◌∙◌,
  ◌≡◌, ◌≤◌,
}
use tuntom.Packet.{Packet, init, response}
use tuntom.Wire.{load_be16, load_be64}
use tuntom.KeySchedule.{shared, commitment}
use tuntom.ProtocolV5.{type_of}
use tuntom.ProtocolV5.Decode.{decode_with_scratch}
use tuntom.ProtocolV5.Roundtrip.{IsPeer}
use tuntom.Session.{
  Session, Config, State, Random, pending_lifetime, handshake_codec, suite, started,
}
use tuntom.Session.Derive.{derive, control, key_offer}
use tuntom.Session.Server.{
  Received, offer, reserve, response_wire_of, advance_wall, expire_nonces, judge_time,
}
use tuntom.Session.Receive.{
  adopt, receive_response, receive_handshake, flight_expired, receive_typed, receive,
}
use tuntom.Session.Traces.{expired}
use tuntom.Session.Wires.{
  client, server, IsSound, init_start, response_start, handshake, Reads, init-Reads, response-Reads,
  suite_payload, behind_start, public-key_offer, length-response_start, length-commitment,
}
use tuntom.Session.Agreement.{
  used, IsOpen, respond-offer, receive_fresh-offer, timely_lem, receive-init_typed,
  receive_handshake-init, receive_init-fresh, current-IsOpen, shared-commutes, nonce-init,
  wall-init, public-init, suite-init,
}
use tuntom.Session.Draws.{Draws, init_of, response_of, Awaits, expired-Awaits}

receive-response_typed :
    (k : Config) (s : State) (wire : List ℕ) (now wall : ℕ) (random : Random)
    → 25 ≤ length wire
    → type_of (get_or wire 0 0 % 0x20) ≡ some response
    → now - (expired s now).flight_started < pending_lifetime
    → receive (client k) s wire now wall random
      ≡ receive_handshake (client k) (expired s now) wire false now wall random
unfolding receive flight_expired receive_typed
receive-response_typed k s wire now wall random l t f = ground (arith, l, t, f)

receive_handshake-response :
    (k : Config) (s : State) (wire : List ℕ) (now wall : ℕ) (random : Random) (p : Packet)
    → decode_with_scratch k.ascon (handshake_codec (client k)) wire ≡ some p
    → load_be16 (drop 64 p.payload) ≡ suite k
    → receive_handshake (client k) s wire false now wall random
      ≡ receive_response (client k) s wire p now
unfolding receive_handshake suite
receive_handshake-response k s wire now wall random p e h = ground (arith, e, h)

receive_response-adopt :
    (k : Config) (s : State) (wire : List ℕ) (p : Packet) (now : ℕ) (dh : List ℕ)
    → 0 < length s.client_init
    → p.message_id ≡ s.client_exchange
    → take 32 p.payload ≡ commitment k.ascon k.master k.id s.client_init
    → s.waiting_ack ≡ false
    → (k.pfs ≡ true → shared k.x25519 s.client_secret (take 32 (drop 68 p.payload)) ≡ some dh)
    → (receive_response (client k) s wire p now).0 ≡ (adopt (client k) s wire (used k dh) now).0
unfolding receive_response
receive_response-adopt k s wire p now dh l m c w h =
    ground (arith, l, m, c, w, h, bytes_equal_refl (commitment k.ascon k.master k.id s.client_init))

pub offer-pending :
    (k : Config) (s : State) (wire : List ℕ) (exchange : ℕ) (nonce secret dh : List ℕ) (now : ℕ)
    → let t = offer k s wire exchange nonce secret dh now in
      (t.0.pending ≡ some (derive k wire t.1 exchange dh now))
      × (t.1 ≡ response_wire_of k exchange wire nonce secret)
unfolding offer started
offer-pending k s wire exchange nonce secret dh now = (refl, refl)

module _ (k : Config) (sound : IsSound k) (d : Draws k) where
  abbrev init_packet : Packet
  init_packet =
      handshake k init d.exchange
        (init_start d.init_nonce d.init_time ++ key_offer k d.client_secret)

  init_read :
      Reads k init d.exchange
        (init_start d.init_nonce d.init_time ++ key_offer k d.client_secret)
        (handshake_codec (server k))
        (init_of k d)
  init_read =
      init-Reads k sound d.exchange d.some_exchange d.exchange_fits d.init_nonce d.init_nonce_size
        d.client_secret d.init_time

  -- A server that is open to the INIT offers a candidate, and sends the response of it.
  server_offers :
      (s : State) (now wall : ℕ) (random : Random)
      → IsOpen k s now wall d.init_time d.init_nonce
      → random.nonce ≡ some d.response_nonce
      → random.secret ≡ some d.server_secret
      → let t = receive (server k) s (init_of k d) now wall random in
        (t.0.pending
          ≡ some (derive (server k) (init_of k d) (response_of k d) d.exchange (used k d.dh) now))
        × (t.1.reply ≡ response_of k d)
  unfolding control
  server_offers s now wall random o n x =
      let wire : List ℕ = init_of k d in
      let t : State = expired s now in
      let u : State = expire_nonces (advance_wall t wall) in
      let (unseen, room, idle, due, top) = current-IsOpen k s now wall d.init_time d.init_nonce o in
      let nonce_read =
        nonce-init k sound d.init_nonce d.client_secret d.init_time d.init_nonce_size in
      let time_read =
        wall-init k sound d.init_nonce d.client_secret d.init_time d.init_nonce_size d.time_fits in
      let result : Received =
        judge_time (server k) (load_be64 (drop 32 init_packet.payload))
          (max t.wall_high_water wall) in
      let r : State =
        reserve u (load_be64 (drop 32 init_packet.payload) + k.init_window / 2)
          (take 32 init_packet.payload) in
      let taken =
        receive-init_typed k s wire now wall random init_read.long init_read.typed
        ∙ receive_handshake-init k t wire now wall random init_packet init_read.decodes
            (suite-init k sound d.init_nonce d.client_secret d.init_time d.init_nonce_size)
        ∙ receive_init-fresh (server k) t wire init_packet now wall random (
            timely_lem (server k) (load_be64 (drop 32 init_packet.payload))
              (max t.wall_high_water wall) (rw (time_read, top) o.timely))
        ∙ receive_fresh-offer (server k) u wire init_packet now random result (rw nonce_read unseen)
            room idle due
        ∙ respond-offer (server k) u r wire init_packet now random result d.response_nonce
            d.server_secret d.dh n x
            (λ e.
              ap (shared k.x25519 d.server_secret)
                (public-init k sound d.init_nonce d.client_secret d.init_time d.init_nonce_size e)
              ∙ d.shares e) in
      let (held, sent) =
        offer-pending (server k) r wire d.exchange d.response_nonce (used k d.server_secret)
          (used k d.dh) now in
      (
        ap (λ v. v.0.pending) taken
            ∙ held
            ∙ ap (λ w. some (derive (server k) wire w d.exchange (used k d.dh) now)) sent,
        ap (λ v. v.1.reply) taken ∙ sent,
      )

  abbrev answer : List ℕ
  answer = response_start k (init_of k d) d.response_nonce ++ key_offer k (used k d.server_secret)

  response_read : Reads k response d.exchange answer (handshake_codec (client k)) (response_of k d)
  response_read =
      response-Reads k sound d.exchange d.some_exchange d.exchange_fits d.response_nonce
        d.response_nonce_size (used k d.server_secret) (init_of k d)

  suite-answer : load_be16 (drop 64 answer) ≡ suite k
  suite-answer =
      suite_payload k sound response (inr refl) 0 (response_start k (init_of k d) d.response_nonce)
        (used k d.server_secret)
        (length-response_start k sound (init_of k d) d.response_nonce d.response_nonce_size)

  commitment-answer : take 32 answer ≡ commitment k.ascon k.master k.id (init_of k d)
  commitment-answer =
      let c : List ℕ = commitment k.ascon k.master k.id (init_of k d) in
      let rest : List ℕ = d.response_nonce ++ key_offer k (used k d.server_secret) in
      ap (take 32) (append_assoc c d.response_nonce (key_offer k (used k d.server_secret)))
      ∙ ap (λ n. take n (c ++ rest)) (sym (length-commitment k sound (init_of k d)))
      ∙ take_prefix c rest

  public-answer : k.pfs ≡ true → take 32 (drop 68 answer) ≡ k.x25519.public_key d.server_secret
  public-answer e =
      ap (take 32) (
        behind_start k sound response (inr refl) 0 (response_start k (init_of k d) d.response_nonce)
          (used k d.server_secret)
          (length-response_start k sound (init_of k d) d.response_nonce d.response_nonce_size) 4 68
          refl)
      ∙ public-key_offer k sound (used k d.server_secret) e
      ∙ ap (λ b. k.x25519.public_key (if b then d.server_secret else replicate 32 0)) e

  -- A client that waits for it takes the session of the response.
  client_adopts :
      (c : State) (now wall : ℕ) (random : Random)
      → Awaits k d c now
      → (receive (client k) c (response_of k d) now wall random).0.active
        ≡ some (derive (client k) (init_of k d) (response_of k d) d.exchange (used k d.dh) now)
  unfolding control adopt
  client_adopts c now wall random w =
      let wire : List ℕ = response_of k d in
      let t : State = expired c now in
      let v : Awaits k d t now = expired-Awaits k d c now w in
      let p : Packet = handshake k response d.exchange answer in
      ap (λ v. v.0.active)
        (receive-response_typed k c wire now wall random response_read.long response_read.typed
            v.in_flight
          ∙ receive_handshake-response k t wire now wall random p response_read.decodes
              suite-answer)
      ∙ ap (λ v. v.active)
          (receive_response-adopt k t wire p now d.dh
            (rw v.same_init (omega (arith, init_read.long))) (sym v.same_exchange)
            (rw v.same_init commitment-answer) v.unconfirmed
            (λ e.
              ap (λ a. shared k.x25519 a (take 32 (drop 68 answer))) v.same_secret
              ∙ ap (shared k.x25519 (used k d.client_secret)) (public-answer e)
              ∙ ap
                  (λ b.
                    shared k.x25519 (if b then d.client_secret else replicate 32 0)
                      (k.x25519.public_key d.server_secret))
                  e
              ∙ shared-commutes k d.client_secret d.server_secret sound
              ∙ d.shares e))
      ∙ ap (λ i. some (derive (client k) i wire t.client_exchange (used k d.dh) now)) v.same_init
      ∙ ap (λ x. some (derive (client k) (init_of k d) wire x (used k d.dh) now)) v.same_exchange

-- Two sessions of the same transcript, one at each end.
pub record Paired (mine theirs : Session) : Type 0 where
  pub sends : IsPeer mine.codec theirs.codec
  pub receives : IsPeer theirs.codec mine.codec
  pub same_hint : theirs.hint ≡ mine.hint
  pub same_session : theirs.exchange ≡ mine.exchange

derive-Paired :
    (k : Config) (init_wire response_wire : List ℕ) (exchange : ℕ) (dh : List ℕ) (now later : ℕ)
    → Paired
        (derive (client k) init_wire response_wire exchange dh later)
        (derive (server k) init_wire response_wire exchange dh now)
unfolding derive
derive-Paired k init_wire response_wire exchange dh now later = record {
  sends = record { same_tunnel = refl; same_key = refl; same_mode = refl };
  receives = record { same_tunnel = refl; same_key = refl; same_mode = refl };
  same_hint = refl;
  same_session = refl;
}

-- A handshake comes through: a server that is open to the client's INIT offers a candidate and answers,
-- and a client that waits for the answer takes a session from it. The two sessions send and receive with
-- each other's keys, under the same hint and exchange.
pub handshake_agrees :
    (k : Config) (d : Draws k) (s c : State) (now wall later wall' : ℕ) (random random' : Random)
    → IsSound k
    → IsOpen k s now wall d.init_time d.init_nonce
    → random.nonce ≡ some d.response_nonce
    → random.secret ≡ some d.server_secret
    → Awaits k d c later
    → let (s', answered) = receive (server k) s (init_of k d) now wall random in
      let c' = (receive (client k) c answered.reply later wall' random').0 in
      (theirs : Session) × (mine : Session) × (s'.pending ≡ some theirs)
      × (c'.active ≡ some mine)
      × Paired mine theirs
handshake_agrees k d s c now wall later wall' random random' sound open_now n x waits =
    let (offered, sent) = server_offers k sound d s now wall random open_now n x in
    (
      derive (server k) (init_of k d) (response_of k d) d.exchange (used k d.dh) now,
      derive (client k) (init_of k d) (response_of k d) d.exchange (used k d.dh) later,
      offered,
      rw sent (client_adopts k sound d c later wall' random' waits),
      derive-Paired k (init_of k d) (response_of k d) d.exchange (used k d.dh) now later,
    )
