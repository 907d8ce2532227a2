-- ===== src/Session/Confirm.antt =====
-- The end of the handshake: CONFIRM makes the server's candidate its session, and the ACK frees the client.
use tuntom.Base.{
  List, Option, [], arith, drop, false, get_or, inl, inr, length, none, ok, refl, some, sym, true,
  ℕ, ◌%◌, ◌*◌, ◌++◌, ◌-◌, ◌/◌, ◌<◌, ◌^◌, ◌∙◌, ◌≡◌, ◌≢◌, ◌≤◌, ◌⊎◌,
}
use tuntom.Packet.{Packet, PacketType, confirm, confirm_ack}
use tuntom.Wire.{load_be64}
use tuntom.Ascon.{IsAscon}
use tuntom.ProtocolV5.{ProtocolV5, fragmented, metadata_size, metadata, seal, type_of, encode_into}
use tuntom.ProtocolV5.Decode.{accepted, check_packet, decode_with_scratch}
use tuntom.ProtocolV5.Layout.{seen}
use tuntom.ProtocolV5.Roundtrip.{
  IsPeer, decode_with_scratch-encode_into, encode_lem, shape-encode, number-encode,
}
use tuntom.Session.{
  Session, Config, State, Random, pending_lifetime, completed, expire_previous, expire_pending,
  count_timeout,
}
use tuntom.Session.Derive.{control, confirmation}
use tuntom.Session.Server.{Slot, active_slot, pending_slot}
use tuntom.Session.Receive.{
  try_session, match_session, session_at, activate, receive_confirm, finish, receive_ack,
  receive_matched, receive_session, flight_expired, receive_typed, receive,
}
use tuntom.Session.Traces.{expired}
use tuntom.Session.Wires.{client, server, IsSound}
use tuntom.Session.Handshake.{Paired}

-- A session's names fit their fields.
pub record Fits (session : Session) (k : Config) : Type 0 where
  pub hint_fits : session.hint < 2 ^ 16
  pub some_exchange : 0 < session.exchange
  pub exchange_fits : session.exchange < 2 ^ 64
  pub same_tunnel : session.codec.tunnel_id ≡ k.id

abbrev IsConfirm : PacketType → Type 0
IsConfirm type = (type ≡ confirm) ⊎ (type ≡ confirm_ack)

abbrev pub confirm_packet : Config → Session → PacketType → Packet
confirm_packet k session type = record (control k type session.exchange) {
  sequence = session.hint * 2 ^ 48;
}

seen-confirm :
    (k : Config) (c : ProtocolV5) (session : Session) (type : PacketType)
    → IsConfirm type
    → c.tunnel_id ≡ k.id
    → (seen c (confirm_packet k session type) ≡ confirm_packet k session type)
      × (fragmented (confirm_packet k session type) ≡ false)
unfolding seen fragmented control metadata_size
seen-confirm k c session type h e = ground (arith, h)

accepted-confirm :
    (k : Config) (session : Session) (type : PacketType)
    → IsConfirm type
    → 0 < session.exchange
    → accepted type (confirm_packet k session type) ≡ true
unfolding accepted control
accepted-confirm k session type h e = elim h [
  | inl i ↦ rw i (ground arith)
  | inr i ↦ rw i (ground arith)
]

-- What the session of the other end reads from a confirmation.
record ReadsConfirm (k : Config) (mine theirs : Session) (type : PacketType) (b : List ℕ)
    : Type 0 where
  decodes : decode_with_scratch k.ascon theirs.codec b ≡ some (confirm_packet k mine type)
  long : 25 ≤ length b
  typed : type_of (get_or b 0 0 % 0x20) ≡ some type
  hinted : load_be64 (drop 1 b) / 2 ^ 48 ≡ mine.hint

confirmation-Reads :
    (k : Config) (mine theirs : Session) (type : PacketType)
    → IsAscon k.ascon
    → IsConfirm type
    → IsPeer mine.codec theirs.codec
    → Fits mine k
    → Fits theirs k
    → ReadsConfirm k mine theirs type (confirmation k mine type)
unfolding control check_packet confirmation
confirmation-Reads k mine theirs type laws h peer m t =
    let p : Packet = confirm_packet k mine type in
    let b : List ℕ = metadata mine.codec.encrypting p ++ seal k.ascon mine.codec p in
    let encoded : encode_into k.ascon mine.codec p ≡ ok b =
      encode_lem k.ascon laws mine.codec p (omega arith) (omega arith) (omega arith)
        (ground (arith, h)) in
    let (still, whole) = seen-confirm k theirs.codec mine type h t.same_tunnel in
    let (size, typed) = shape-encode k.ascon laws mine.codec p b encoded in
    rw encoded (record {
      decodes =
          decode_with_scratch-encode_into k.ascon laws mine.codec theirs.codec p b peer
            (omega (arith, m)) m.exchange_fits encoded
          ∙ simp (still, whole, accepted-confirm k mine type h m.some_exchange) refl;
      long = size;
      typed = typed;
      hinted = omega (arith, number-encode k.ascon laws mine.codec p b encoded (omega (arith, m)));
    })

-- No other session goes by the hint.
abbrev pub Unlike : Option Session → ℕ → Type 0
Unlike none hint = Unit
Unlike (some session) hint = session.hint ≢ hint

try_session-Unlike :
    (k : Config) (wire : List ℕ) (hint : ℕ) (o : Option Session)
    → Unlike o hint
    → try_session k wire hint o ≡ none
unfolding try_session
try_session-Unlike k wire hint none u = refl
try_session-Unlike k wire hint (some session) u = ground (arith, u)

try_session-alike :
    (k : Config) (wire : List ℕ) (hint : ℕ) (session : Session) (p : Packet)
    → session.hint ≡ hint
    → decode_with_scratch k.ascon session.codec wire ≡ some p
    → try_session k wire hint (some session) ≡ some p
unfolding try_session
try_session-alike k wire hint session p e d = ground (arith, e, d)

match_session-pending :
    (k : Config) (s : State) (wire : List ℕ) (session : Session) (p : Packet)
    → s.pending ≡ some session
    → Unlike s.active session.hint
    → load_be64 (drop 1 wire) / 2 ^ 48 ≡ session.hint
    → decode_with_scratch k.ascon session.codec wire ≡ some p
    → match_session k s wire ≡ some (record { slot = pending_slot; packet = p })
unfolding match_session
match_session-pending k s wire session p e u h d = ground (
  arith,
  e,
  h,
  try_session-Unlike k wire session.hint s.active u,
  try_session-alike k wire session.hint session p refl d,
)

match_session-active :
    (k : Config) (s : State) (wire : List ℕ) (session : Session) (p : Packet)
    → s.active ≡ some session
    → load_be64 (drop 1 wire) / 2 ^ 48 ≡ session.hint
    → decode_with_scratch k.ascon session.codec wire ≡ some p
    → match_session k s wire ≡ some (record { slot = active_slot; packet = p })
unfolding match_session
match_session-active k s wire session p e h d =
    ground (arith, e, h, try_session-alike k wire session.hint session p refl d)

receive-session_typed :
    (k : Config) (s : State) (wire : List ℕ) (now wall : ℕ) (random : Random) (type : PacketType)
    → 25 ≤ length wire
    → IsConfirm type
    → type_of (get_or wire 0 0 % 0x20) ≡ some type
    → flight_expired k (expired s now) now ≡ false
    → receive k s wire now wall random ≡ receive_session k (expired s now) wire now
unfolding receive receive_typed
receive-session_typed k s wire now wall random type l h t f = ground (arith, l, h, t, f)

pub receive_session-matched :
    (k : Config) (s : State) (wire : List ℕ) (now : ℕ) (slot : Slot) (session : Session)
    (p : Packet)
    → match_session k s wire ≡ some (record { slot = slot; packet = p })
    → session_at s slot ≡ some session
    → receive_session k s wire now ≡ receive_matched k s slot session p now
unfolding receive_session
receive_session-matched k s wire now slot session p m e = ground (arith, m, e)

expired_waiting :
    (s : State) (now : ℕ)
    → now < s.pending_until
    → ((expired s now).pending ≡ s.pending) × ((expired s now).active ≡ s.active)
unfolding expire_pending expire_previous count_timeout
expired_waiting s now h = ground (arith, h)

expired_client :
    (s : State) (now : ℕ)
    → ((expired s now).active ≡ s.active)
      × ((expired s now).waiting_ack ≡ s.waiting_ack)
      × ((expired s now).flight_started ≡ s.flight_started)
unfolding expire_pending expire_previous count_timeout
expired_client s now = ground arith

confirm_matched :
    (k : Config) (s : State) (session mine : Session) (now : ℕ)
    → s.pending ≡ some session
    → session.exchange ≡ mine.exchange
    → let (t, r) =
        receive_matched (server k) s pending_slot session (confirm_packet k mine confirm) now in
      (t.active ≡ some session)
      × (t.pending ≡ none)
      × (r.activated ≡ true)
      × (r.reply ≡ confirmation (server k) session confirm_ack)
unfolding receive_matched receive_confirm control activate completed
confirm_matched k s session mine now e x = ground (arith, e, x)

-- CONFIRM of the client's session makes the server's candidate its session, and is answered by an ACK,
-- where the candidate has not run out and the session before it has another hint.
pub confirm_activates :
    (k : Config) (s : State) (mine theirs : Session) (now wall : ℕ) (random : Random)
    → IsSound k
    → Paired mine theirs
    → Fits mine k
    → Fits theirs k
    → s.pending ≡ some theirs
    → now < s.pending_until
    → Unlike s.active theirs.hint
    → let (t, r) = receive (server k) s (confirmation (client k) mine confirm) now wall random in
      (t.active ≡ some theirs)
      × (t.pending ≡ none)
      × (r.activated ≡ true)
      × (r.reply ≡ confirmation (server k) theirs confirm_ack)
confirm_activates k s mine theirs now wall random sound pair m t held waits unlike =
    let wire : List ℕ = confirmation k mine confirm in
    let u : State = expired s now in
    let (same_pending, same_active) = expired_waiting s now waits in
    let reads : ReadsConfirm k mine theirs confirm wire =
      confirmation-Reads k mine theirs confirm sound.ascon_laws (inl refl) pair.sends m t in
    let taken : receive (server k) s wire now wall random
        ≡ receive_matched (server k) u pending_slot theirs (confirm_packet k mine confirm) now =
      receive-session_typed (server k) s wire now wall random confirm reads.long (inl refl)
        reads.typed (unfold flight_expired in refl)
      ∙ receive_session-matched (server k) u wire now pending_slot theirs
          (confirm_packet k mine confirm)
          (match_session-pending (server k) u wire theirs (confirm_packet k mine confirm)
            (same_pending ∙ held) (rw same_active unlike) (reads.hinted ∙ sym pair.same_hint)
            reads.decodes)
          (same_pending ∙ held) in
    rw (client_bytes k mine confirm, taken)
      (confirm_matched k u theirs mine now (same_pending ∙ held) pair.same_session)
  where
    client_bytes :
        (k : Config) (session : Session) (type : PacketType)
        → confirmation (client k) session type ≡ confirmation k session type
    client_bytes k session type = unfold confirmation in unfold control in refl

ack_matched :
    (k : Config) (s : State) (session theirs : Session) (now : ℕ)
    → s.active ≡ some session
    → s.waiting_ack ≡ true
    → theirs.exchange ≡ session.exchange
    → let (t, r) =
        receive_matched
          (client k)
          s
          active_slot
          session
          (confirm_packet k theirs confirm_ack)
          now in
      (t.active ≡ some session) × (t.waiting_ack ≡ false) × (t.flight ≡ []) × (r.activated ≡ true)
unfolding receive_matched receive_ack control finish completed
ack_matched k s session theirs now e w x = ground (arith, e, w, x)

-- The server's ACK ends the handshake of a client that awaits it, whose session stays, where less than the
-- lifetime of a pending handshake has passed since the client's flight began. The cipher keeps its laws,
-- the sessions of the two ends are paired, and their names fit their fields.
pub ack_completes :
    (k : Config) (c : State) (mine theirs : Session) (now wall : ℕ) (random : Random)
    → IsSound k
    → Paired mine theirs
    → Fits mine k
    → Fits theirs k
    → c.active ≡ some mine
    → c.waiting_ack ≡ true
    → now - c.flight_started < pending_lifetime
    → let (t, r) =
        receive (client k) c (confirmation (server k) theirs confirm_ack) now wall random in
      (t.active ≡ some mine) × (t.waiting_ack ≡ false) × (t.flight ≡ []) × (r.activated ≡ true)
ack_completes k c mine theirs now wall random sound pair m t held waits flying =
    let wire : List ℕ = confirmation k theirs confirm_ack in
    let u : State = expired c now in
    let (same_active, same_waiting, same_start) = expired_client c now in
    let reads : ReadsConfirm k theirs mine confirm_ack wire =
      confirmation-Reads k theirs mine confirm_ack sound.ascon_laws (inr refl) pair.receives t m in
    let taken : receive (client k) c wire now wall random
        ≡ receive_matched (client k) u active_slot mine (confirm_packet k theirs confirm_ack) now =
      receive-session_typed (client k) c wire now wall random confirm_ack reads.long (inr refl)
        reads.typed (in_flight k u now (rw same_start flying))
      ∙ receive_session-matched (client k) u wire now active_slot mine
          (confirm_packet k theirs confirm_ack)
          (match_session-active (client k) u wire mine (confirm_packet k theirs confirm_ack)
            (same_active ∙ held) (reads.hinted ∙ pair.same_hint) reads.decodes)
          (same_active ∙ held) in
    rw (server_bytes k theirs confirm_ack, taken)
      (ack_matched k u mine theirs now (same_active ∙ held) (same_waiting ∙ waits)
        pair.same_session)
  where
    server_bytes :
        (k : Config) (session : Session) (type : PacketType)
        → confirmation (server k) session type ≡ confirmation k session type
    server_bytes k session type = unfold confirmation in unfold control in refl

    in_flight :
        (k : Config) (s : State) (now : ℕ)
        → now - s.flight_started < pending_lifetime
        → flight_expired (client k) s now ≡ false
    in_flight k s now h = unfold flight_expired in ground (arith, h)
