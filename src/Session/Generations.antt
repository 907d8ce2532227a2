-- ===== src/Session/Generations.antt =====
-- When the keys that packets are sent with change.
use tuntom.Base.{List, Option, arith, get_or, none, some, ℕ, ◌%◌, ◌<◌, ◌≡◌, ◌⊎◌}
use tuntom.Packet.{Packet, PacketType}
use tuntom.ProtocolV5.{ProtocolV5, type_of}
use tuntom.Session.{
  Session, Config, State, Random, started, completed, count_timeout, count_retry, count_mismatch,
  count_dh_rejected, random_failed, expire_previous, expire_pending,
}
use tuntom.Session.Derive.{encode}
use tuntom.Session.Client.{
  begin, publish_init, abandon_flight, tick_client, tick, clear_sessions, restart,
}
use tuntom.Session.Server.{
  Slot, expire_nonces, reserve, offer, respond, resend, receive_fresh, advance_wall, receive_init,
}
use tuntom.Session.Receive.{
  adopt, repeat_confirm, receive_response, receive_handshake, session_at, store_session, activate,
  receive_confirm, finish, receive_ack, receive_data, receive_matched, receive_session,
  receive_typed, receive,
}
use tuntom.Session.Traces.{Event, arrive, timer, restarted, send, step, expired}

-- The keys that packets are sent with.
abbrev pub keys_of : Option Session → Option ProtocolV5
keys_of none = none
keys_of (some session) = some session.codec

-- The keys in use stay, or the generation goes up.
abbrev pub Guarded : State → State → Type 0
Guarded s t =
    ((keys_of t.active ≡ keys_of s.active) × (t.transmit_generation ≡ s.transmit_generation))
    ⊎ (s.transmit_generation < t.transmit_generation)

expired-Guarded : (s : State) (now : ℕ) → (t : State) → Guarded (expired s now) t → Guarded s t
unfolding expire_pending expire_previous count_timeout
expired-Guarded s now t g = ground (arith, g)

begin-Guarded :
    (k : Config) (s : State) (now wall : ℕ) (random : Random)
    → let t = (begin k s now wall random).0 in
      (t.active ≡ s.active) × (t.transmit_generation ≡ s.transmit_generation)
unfolding begin publish_init random_failed started
begin-Guarded k s now wall random = ground arith

tick_client-Guarded :
    (k : Config) (s : State) (now wall : ℕ) (random : Random)
    → Guarded s (tick_client k s now wall random).0
unfolding tick_client abandon_flight count_timeout count_retry
tick_client-Guarded k s now wall random =
    ground
      (arith, begin-Guarded k s now wall random, begin-Guarded k (abandon_flight s) now wall random)

tick-Guarded :
    (k : Config) (s : State) (now wall : ℕ) (random : Random)
    → Guarded s (tick k s now wall random).0
unfolding tick
tick-Guarded k s now wall random = ground (
  arith,
  expired-Guarded s now (expired s now),
  expired-Guarded s now (tick_client k (expired s now) now wall random).0,
  tick_client-Guarded k (expired s now) now wall random,
)

restart-Guarded :
    (k : Config) (s : State) (now wall : ℕ) (random : Random)
    → Guarded s (restart k s now wall random).0
unfolding restart clear_sessions
restart-Guarded k s now wall random =
    ground (arith, begin-Guarded k (clear_sessions s) now wall random)

encode-Guarded : (k : Config) (s : State) (packet : Packet) → Guarded s (encode k s packet).0
unfolding encode
encode-Guarded k s packet = ground arith

receive_init-Guarded :
    (k : Config) (s : State) (wire : List ℕ) (packet : Packet) (now wall : ℕ) (random : Random)
    → Guarded s (receive_init k s wire packet now wall random).0
unfolding receive_init advance_wall expire_nonces receive_fresh reserve respond offer resend started
    count_retry count_dh_rejected random_failed
receive_init-Guarded k s wire packet now wall random = ground arith

receive_response-Guarded :
    (k : Config) (s : State) (wire : List ℕ) (packet : Packet) (now : ℕ)
    → Guarded s (receive_response k s wire packet now).0
unfolding receive_response adopt repeat_confirm count_retry count_dh_rejected
receive_response-Guarded k s wire packet now = ground arith

receive_matched-Guarded :
    (k : Config) (s : State) (slot : Slot) (session : Session) (packet : Packet) (now : ℕ)
    → session_at s slot ≡ some session
    → Guarded s (receive_matched k s slot session packet now).0
unfolding receive_matched receive_confirm receive_ack receive_data store_session activate finish
    completed count_retry
receive_matched-Guarded k s slot session packet now e = ground (arith, e)

receive_session-Guarded :
    (k : Config) (s : State) (wire : List ℕ) (now : ℕ) → Guarded s (receive_session k s wire now).0
unfolding receive_session
receive_session-Guarded k s wire now = grind (arith, receive_matched-Guarded)

receive_typed-Guarded :
    (k : Config) (s : State) (wire : List ℕ) (type : Option PacketType) (now wall : ℕ)
    (random : Random)
    → Guarded s (receive_typed k s wire type now wall random).0
unfolding receive_typed receive_handshake count_mismatch
receive_typed-Guarded k s wire type now wall random =
    grind (arith, receive_session-Guarded, receive_response-Guarded, receive_init-Guarded)

-- Whatever happens, the keys that packets are sent with change only together with the generation, which
-- makes what was queued under the old keys void; it never goes back.
pub step-Guarded : (k : Config) (s : State) (e : Event) → Guarded s (step k s e)
unfolding step receive
step-Guarded k s (timer now wall random) = tick-Guarded k s now wall random
step-Guarded k s (restarted now wall random) = restart-Guarded k s now wall random
step-Guarded k s (send packet) = encode-Guarded k s packet
step-Guarded k s (arrive wire now wall random) =
    let t : State = expired s now in
    let type : Option PacketType = type_of (get_or wire 0 0 % 0x20) in
    ground (
      arith,
      expired-Guarded s now t,
      expired-Guarded s now (receive_typed k t wire type now wall random).0,
      receive_typed-Guarded k t wire type now wall random,
    )
