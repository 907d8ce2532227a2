-- ===== src/Session/Tests.antt =====
-- A server and its client with a cipher that changes nothing, and the theorems there.
use tuntom.Base.{
  List, [], arith, bytes_equal, false, length, none, refl, replicate, some, true, ℕ, ◌%◌, ◌++◌, ◌∷◌,
  ◌≡◌, ◌≢◌,
}
use tuntom.Wire.{store_be64, load_be64, store_be16, load_be16}
use tuntom.Ascon.{Ascon}
use tuntom.KeySchedule.{X25519, shared, derive_direction_key}
use tuntom.ProtocolV5.{
  type_of, type_byte, fragmented, metadata_size, first_byte, metadata_fields, metadata, seal,
  encode_into,
}
use tuntom.ProtocolV5.Decode.{
  unseal, read_packet, accepted, check_packet, admissible, decode_typed, decode_with_scratch,
}
use tuntom.Session.{
  Config, State, Random, fresh, handshake_codec, suite, started, expire_previous, expire_pending,
}
use tuntom.Session.Derive.{derive, control, key_offer}
use tuntom.Session.Client.{begin, random_id, begin_secret, publish_init, init_wire_of, init_payload}
use tuntom.Session.Server.{
  member, expire_entries, expire_nonces, reserve, offer, respond, receive_fresh, judge_time,
  advance_wall, receive_init,
}
use tuntom.Replay.{empty, lower_bound, accept}
use tuntom.Session.Receive.{
  try_session, match_session, store_session, receive_data, receive_matched, receive_session,
  receive_handshake, flight_expired, receive_typed, receive,
}
use tuntom.Packet.{confirm, confirm_ack}
use tuntom.Session.{Session}
use tuntom.Session.Derive.{confirmation}
use tuntom.Session.Wires.{client, server, IsSound}
use tuntom.Session.Draws.{Draws, init_of, Awaits, begin-Awaits}
use tuntom.Session.Handshake.{Paired, handshake_agrees}
use tuntom.Session.Confirm.{Fits, confirm_activates, ack_completes}
use tuntom.Session.Generations.{Guarded, step-Guarded}
use tuntom.Session.Delivery.{IsDelivered, receive-IsDelivered}
use tuntom.Session.Freshness.{IsTracked}
use tuntom.Session.Traces.{arrive, timer, run, expired, run-IsTracked, single_offer, step}

abbrev plain_ascon : Ascon
plain_ascon = record {
  mac = λ key id input. replicate 16 (length input % 256);
  encrypt = λ key nonce ad plain. (plain, replicate 16 7);
  decrypt = λ key nonce ad cipher tag. some cipher;
}

abbrev plain_x25519 : X25519
plain_x25519 = record {
  public_key = λ secret. replicate 32 5;
  raw_shared = λ secret peer. replicate 32 1;
}

abbrev server_config : Config
server_config = record {
  ascon = plain_ascon;
  x25519 = plain_x25519;
  id = 7;
  master = replicate 16 9;
  server = true;
  encrypting = true;
  pfs = false;
  init_window = 300;
}

abbrev client_config : Config
client_config = record server_config { server = false }

abbrev some_random : Random
some_random = record {
  id = some (replicate 8 1);
  nonce = some (replicate 32 2);
  secret = some (replicate 32 3);
}

-- The INIT that the client sends at time 1000 with these random bytes.
abbrev init_wire : List ℕ
init_wire =
    8
    ∷ (replicate 8 0
        ++ (5
            ∷ (replicate 8 1
                ++ (replicate 16 62
                    ++ (replicate 32 2
                        ++ (0 ∷ 0 ∷ 0 ∷ 0 ∷ 0 ∷ 0 ∷ 3 ∷ 232 ∷ 0 ∷ 1 ∷ 0 ∷ 0 ∷ []))))))

begin_wire : (begin client_config fresh 0 1000 some_random).1 ≡ init_wire
unfolding begin random_id load_be64 begin_secret publish_init init_wire_of encode_into metadata_size
    control init_payload key_offer store_be64 store_be16 suite handshake_codec metadata first_byte
    metadata_fields fragmented type_byte seal derive_direction_key
begin_wire = refl

offered :
    (receive server_config (run server_config fresh []) init_wire 5 1000 some_random).0.pending
    ≢ none
unfolding receive run expire_pending expire_previous type_of flight_expired receive_typed
    receive_handshake decode_with_scratch handshake_codec decode_typed admissible metadata_size
    unseal read_packet check_packet accepted load_be64 load_be16 suite receive_init advance_wall
    judge_time expire_nonces expire_entries receive_fresh reserve member respond offer started
    derive bytes_equal
offered h = cc

single_offer_example :
    let u : State =
      run server_config
        (receive server_config fresh init_wire 5 1000 some_random).0
        (timer 2000000000 1001 some_random ∷ arrive init_wire 3000000000 1002 some_random ∷ []) in
    (receive server_config u init_wire 6000000000 1003 some_random).0.pending
    ≡ (expired u 6000000000).pending
unfolding run type_of expire_pending expire_previous
single_offer_example =
    single_offer server_config []
      (timer 2000000000 1001 some_random ∷ arrive init_wire 3000000000 1002 some_random ∷ [])
      init_wire 5 1000 6000000000 1003 some_random some_random refl refl offered

run-IsTracked_example :
    IsTracked (run server_config fresh (arrive init_wire 5 1000 some_random ∷ []))
run-IsTracked_example = run-IsTracked server_config (arrive init_wire 5 1000 some_random ∷ [])

plain-IsSound : (k : Config) → k.ascon ≡ plain_ascon → k.x25519 ≡ plain_x25519 → IsSound k
plain-IsSound k a x = record {
  ascon_laws = rw a (record {
    mac_size = λ key id input. refl;
    tag_size = λ key nonce ad plain. refl;
    ciphertext_size = λ key nonce ad plain. refl;
    decrypts = λ key nonce ad plain. refl;
  });
  commutes = λ a b. rw x refl;
  key_size = λ secret. rw x refl;
}

abbrev pfs_config : Config
pfs_config = record server_config { pfs = true }

some-shared : shared plain_x25519 (replicate 32 6) (replicate 32 5) ≡ some (replicate 32 1)
unfolding shared bytes_equal
some-shared = refl

abbrev some_draws : Draws pfs_config
some_draws = record {
  exchange = 72340172838076673;
  init_nonce = replicate 32 2;
  init_time = 1000;
  client_secret = replicate 32 3;
  response_nonce = replicate 32 4;
  server_secret = replicate 32 6;
  dh = replicate 32 1;
  some_exchange = omega arith;
  exchange_fits = omega arith;
  init_nonce_size = refl;
  time_fits = omega arith;
  response_nonce_size = refl;
  shares = λ e. some-shared;
}

abbrev server_random : Random
server_random = record { id = none; nonce = some (replicate 32 4); secret = some (replicate 32 6) }

client_waits :
    (begin (client pfs_config) fresh 0 1000 some_random).1 ≡ init_of pfs_config some_draws
    × Awaits pfs_config some_draws (begin (client pfs_config) fresh 0 1000 some_random).0 9
unfolding random_id load_be64
client_waits =
    begin-Awaits pfs_config some_draws fresh 0 9 some_random (omega arith) refl refl refl
      (omega arith)

handshake_agrees_example :
    let (s', answered) =
      receive (server pfs_config) fresh (init_of pfs_config some_draws) 5 1001 server_random in
    let c' =
      (receive
        (client pfs_config)
        (begin (client pfs_config) fresh 0 1000 some_random).0
        answered.reply
        9
        1001
        server_random).0 in
    (theirs : Session) × (mine : Session) × (s'.pending ≡ some theirs)
    × (c'.active ≡ some mine)
    × Paired mine theirs
handshake_agrees_example =
    handshake_agrees pfs_config some_draws fresh
      (begin (client pfs_config) fresh 0 1000 some_random).0 5 1001 9 1001 server_random
      server_random (plain-IsSound pfs_config refl refl)
      (record {
        idle = refl;
        due = omega arith;
        unseen = unfold member in refl;
        room = omega arith;
        timely = omega arith;
      })
      refl refl client_waits.1

-- A session of each end, with the keys crossed.
abbrev mine : Session
mine = record {
  codec = record {
    tunnel_id = 7;
    tx_key = replicate 16 1;
    rx_key = replicate 16 2;
    encrypting = true;
  };
  replay = empty;
  hint = 300;
  created = 0;
  next_counter = 1;
  exchange = 11;
  init_wire = [];
  response_wire = [];
}

abbrev theirs : Session
theirs = record mine {
  codec = record {
    tunnel_id = 7;
    tx_key = replicate 16 2;
    rx_key = replicate 16 1;
    encrypting = true;
  };
}

mine-Paired : Paired mine theirs
mine-Paired = record {
  sends = record { same_tunnel = refl; same_key = refl; same_mode = refl };
  receives = record { same_tunnel = refl; same_key = refl; same_mode = refl };
  same_hint = refl;
  same_session = refl;
}

mine-Fits : Fits mine pfs_config
mine-Fits = record {
  hint_fits = omega arith;
  some_exchange = omega arith;
  exchange_fits = omega arith;
  same_tunnel = refl;
}

theirs-Fits : Fits theirs pfs_config
theirs-Fits = record {
  hint_fits = omega arith;
  some_exchange = omega arith;
  exchange_fits = omega arith;
  same_tunnel = refl;
}

abbrev offering : State
offering = record fresh { pending = some theirs; pending_until = 9 }

confirm_activates_example :
    let (t, r) =
      receive
        (server pfs_config)
        offering
        (confirmation (client pfs_config) mine confirm)
        4
        0
        server_random in
    (t.active ≡ some theirs)
    × (t.pending ≡ none)
    × (r.activated ≡ true)
    × (r.reply ≡ confirmation (server pfs_config) theirs confirm_ack)
confirm_activates_example =
    confirm_activates pfs_config offering mine theirs 4 0 server_random
      (plain-IsSound pfs_config refl refl) mine-Paired mine-Fits theirs-Fits refl (omega arith) tt

abbrev awaiting : State
awaiting = record fresh {
  active = some mine;
  waiting_ack = true;
  flight = 1 ∷ [];
  flight_started = 3;
}

ack_completes_example :
    let (t, r) =
      receive
        (client pfs_config)
        awaiting
        (confirmation (server pfs_config) theirs confirm_ack)
        4
        0
        server_random in
    (t.active ≡ some mine) × (t.waiting_ack ≡ false) × (t.flight ≡ []) × (r.activated ≡ true)
ack_completes_example =
    ack_completes pfs_config awaiting mine theirs 4 0 server_random
      (plain-IsSound pfs_config refl refl) mine-Paired mine-Fits theirs-Fits refl refl (omega arith)

step-Guarded_example : Guarded offering (
    step
      (server pfs_config)
      offering
      (arrive (confirmation (client pfs_config) mine confirm) 4 0 server_random))
step-Guarded_example =
    step-Guarded (server pfs_config) offering
      (arrive (confirmation (client pfs_config) mine confirm) 4 0 server_random)

-- Data of the client, at a server whose session is confirmed.
abbrev confirmed : State
confirmed = record fresh { active = some theirs }

abbrev data_wire : List ℕ
data_wire = 131 ∷ 1 ∷ 44 ∷ 0 ∷ 0 ∷ 0 ∷ 0 ∷ 0 ∷ 1 ∷ (replicate 16 7 ++ (69 ∷ 0 ∷ []))

data_carried :
    (receive (server pfs_config) confirmed data_wire 4 0 server_random).1.carries_data ≡ true
unfolding receive expire_pending expire_previous type_of flight_expired receive_typed
    receive_session match_session try_session decode_with_scratch decode_typed admissible
    metadata_size unseal read_packet check_packet accepted load_be64 load_be16 receive_matched
    receive_data accept lower_bound store_session
data_carried = refl

receive-IsDelivered_example :
    IsDelivered
      (server pfs_config)
      (expired confirmed 4)
      (receive (server pfs_config) confirmed data_wire 4 0 server_random).0
      data_wire
      (receive (server pfs_config) confirmed data_wire 4 0 server_random).1
receive-IsDelivered_example =
    receive-IsDelivered (server pfs_config) confirmed data_wire 4 0 server_random data_carried
