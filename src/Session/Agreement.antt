-- ===== src/Session/Agreement.antt =====
-- The handshake of a client and a server: both ends come to the same session.
use tuntom.Base.{
  List, [], ap, append_assoc, arith, drop, drop_at, false, get_or, if◌then◌else◌, inl, length, max,
  none, refl, replicate, some, sym, take, take_prefix, true, ℕ, ◌%◌, ◌++◌, ◌+◌, ◌/◌, ◌<◌, ◌^◌, ◌∙◌,
  ◌∷◌, ◌≡◌, ◌≤◌,
}
use tuntom.Packet.{Packet, init}
use tuntom.Wire.{store_be64, load_be16, load_be64}
use tuntom.Wire.Laws.{load_be64-store_be64}
use tuntom.KeySchedule.{shared}
use tuntom.ProtocolV5.{type_of}
use tuntom.ProtocolV5.Decode.{decode_with_scratch}
use tuntom.Session.{
  Config, State, Random, nonce_capacity, is_some, handshake_codec, suite, expire_previous,
  expire_pending,
}
use tuntom.Session.Derive.{key_offer}
use tuntom.Session.Server.{
  Received, member, erase_nonce, expire_entries, expire_nonces, reserve, offer, respond,
  receive_fresh, distance, judge_time, advance_wall, receive_init,
}
use tuntom.Session.Receive.{receive_handshake, flight_expired, receive_typed, receive}
use tuntom.Session.Nonces.{length-expire}
use tuntom.Session.Traces.{expired}
use tuntom.Session.Wires.{
  server, IsSound, init_start, length-init_start, suite_payload, behind_start, public-key_offer,
}

-- The secret of an end, and what it shares with the other's: zeroes without PFS.
abbrev pub used : Config → List ℕ → List ℕ
used k secret = if k.pfs then secret else replicate 32 0

member-erase_false :
    (a b : List ℕ) (seen : List (List ℕ))
    → member a seen ≡ false
    → member a (erase_nonce b seen) ≡ false
unfolding member erase_nonce
member-erase_false a b [] h = h
member-erase_false a b (x ∷ xs) h = ground (arith, h, member-erase_false a b xs)

member-expire_false :
    (current : ℕ) (a : List ℕ) (seen : List (List ℕ)) (es : List _)
    → member a seen ≡ false
    → member a (expire_entries current seen es).0 ≡ false
unfolding expire_entries
member-expire_false current a seen [] h = h
member-expire_false current a seen (e ∷ es) h = ground (
  arith,
  h,
  member-erase_false a e.nonce seen,
  member-expire_false current a (erase_nonce e.nonce seen) es,
)

pub respond-offer :
    (k : Config) (before s : State) (wire : List ℕ) (packet : Packet) (now : ℕ) (random : Random)
    (result : Received) (nonce secret dh : List ℕ)
    → random.nonce ≡ some nonce
    → random.secret ≡ some secret
    → (k.pfs ≡ true → shared k.x25519 secret (take 32 (drop 44 packet.payload)) ≡ some dh)
    → let offered = offer k s wire packet.message_id nonce (used k secret) (used k dh) now in
      respond k before s wire packet now random result
      ≡ (offered.0, record result { reply = offered.1 })
unfolding respond
respond-offer k before s wire packet now random result nonce secret dh n x d =
    ground (arith, n, x, d)

-- What the server must hold for an INIT of this time and nonce to be answered.
pub record IsOpen (k : Config) (s : State) (now wall stamp : ℕ) (nonce : List ℕ) : Type 0 where
  pub idle : s.pending ≡ none
  pub due : s.random_retry_after ≤ now
  pub unseen : member nonce s.seen_nonces ≡ false
  pub room : length s.seen_nonces < nonce_capacity
  pub timely : distance stamp (max s.wall_high_water wall) ≤ k.init_window / 2

expired_idle :
    (s : State) (now : ℕ)
    → s.pending ≡ none
    → (is_some (expired s now).pending ≡ false)
      × ((expired s now).random_retry_after ≡ s.random_retry_after)
      × ((expired s now).seen_nonces ≡ s.seen_nonces)
      × ((expired s now).nonce_expiry ≡ s.nonce_expiry)
      × ((expired s now).wall_high_water ≡ s.wall_high_water)
unfolding expire_pending expire_previous
expired_idle s now h = ground (arith, h)

pub receive_fresh-offer :
    (k : Config) (s : State) (wire : List ℕ) (packet : Packet) (now : ℕ) (random : Random)
    (result : Received)
    → member (take 32 packet.payload) s.seen_nonces ≡ false
    → length s.seen_nonces < nonce_capacity
    → is_some s.pending ≡ false
    → s.random_retry_after ≤ now
    → receive_fresh k s wire packet now random result
      ≡ respond k s
          (reserve s
            (load_be64 (drop 32 packet.payload) + k.init_window / 2)
            (take 32 packet.payload))
          wire
          packet
          now
          random
          result
unfolding receive_fresh
receive_fresh-offer k s wire packet now random result m l p d = ground (arith, m, l, p, d)

pub timely_lem :
    (k : Config) (stamp current : ℕ)
    → distance stamp current ≤ k.init_window / 2
    → (judge_time k stamp current).timestamp_rejected ≡ false
unfolding judge_time
timely_lem k stamp current h = ground (arith, h)

pub receive-init_typed :
    (k : Config) (s : State) (wire : List ℕ) (now wall : ℕ) (random : Random)
    → 25 ≤ length wire
    → type_of (get_or wire 0 0 % 0x20) ≡ some init
    → receive (server k) s wire now wall random
      ≡ receive_handshake (server k) (expired s now) wire true now wall random
unfolding receive flight_expired receive_typed
receive-init_typed k s wire now wall random l t = ground (arith, l, t)

pub receive_handshake-init :
    (k : Config) (s : State) (wire : List ℕ) (now wall : ℕ) (random : Random) (p : Packet)
    → decode_with_scratch k.ascon (handshake_codec (server k)) wire ≡ some p
    → load_be16 (drop 40 p.payload) ≡ suite k
    → receive_handshake (server k) s wire true now wall random
      ≡ receive_init (server k) s wire p now wall random
unfolding receive_handshake suite
receive_handshake-init k s wire now wall random p d h = ground (arith, d, h)

-- The parts of the payload of an INIT.
module _ (k : Config) (sound : IsSound k) (nonce secret : List ℕ) (wall : ℕ)
    (n : length nonce ≡ 32) where
  pub nonce-init : take 32 (init_start nonce wall ++ key_offer k secret) ≡ nonce
  nonce-init =
      ap (take 32) (append_assoc nonce (store_be64 wall) (key_offer k secret))
      ∙ ap (λ m. take m (nonce ++ (store_be64 wall ++ key_offer k secret))) (sym n)
      ∙ take_prefix nonce (store_be64 wall ++ key_offer k secret)

  pub wall-init :
      wall < 2 ^ 64 → load_be64 (drop 32 (init_start nonce wall ++ key_offer k secret)) ≡ wall
  wall-init h =
      ap (λ l. load_be64 (drop 32 l)) (append_assoc nonce (store_be64 wall) (key_offer k secret))
      ∙ ap load_be64 (drop_at 32 nonce (store_be64 wall ++ key_offer k secret) n)
      ∙ load_be64-store_be64 wall (key_offer k secret) h

  pub public-init :
      k.pfs ≡ true
      → take 32 (drop 44 (init_start nonce wall ++ key_offer k secret)) ≡ k.x25519.public_key secret
  public-init e =
      ap (take 32) (
        behind_start k sound init (inl refl) 0 (init_start nonce wall) secret
          (length-init_start nonce wall n) 4 44 refl)
      ∙ public-key_offer k sound secret e

  pub suite-init : load_be16 (drop 40 (init_start nonce wall ++ key_offer k secret)) ≡ suite k
  suite-init =
      suite_payload k sound init (inl refl) 0 (init_start nonce wall) secret
        (length-init_start nonce wall n)

pub receive_init-fresh :
    (k : Config) (s : State) (wire : List ℕ) (p : Packet) (now wall : ℕ) (random : Random)
    → (judge_time k (load_be64 (drop 32 p.payload)) (max s.wall_high_water wall)).timestamp_rejected
      ≡ false
    → receive_init k s wire p now wall random
      ≡ receive_fresh k
          (expire_nonces (advance_wall s wall))
          wire
          p
          now
          random
          (judge_time k (load_be64 (drop 32 p.payload)) (max s.wall_high_water wall))
unfolding receive_init advance_wall
receive_init-fresh k s wire p now wall random h = ground (arith, h)

-- The nonces that are not yet over.
pub current-IsOpen :
    (k : Config) (s : State) (now wall stamp : ℕ) (nonce : List ℕ)
    → IsOpen k s now wall stamp nonce
    → let t : State = expire_nonces (advance_wall (expired s now) wall) in
      (member nonce t.seen_nonces ≡ false)
      × (length t.seen_nonces < nonce_capacity)
      × (is_some t.pending ≡ false)
      × (t.random_retry_after ≤ now)
      × (max (expired s now).wall_high_water wall ≡ max s.wall_high_water wall)
unfolding expire_nonces advance_wall
current-IsOpen k s now wall stamp nonce o =
    let t : State = expired s now in
    let (i, r, a, b, c) = expired_idle s now o.idle in
    ground (
      arith,
      i,
      r,
      a,
      b,
      c,
      o,
      member-expire_false (max t.wall_high_water wall) nonce t.seen_nonces t.nonce_expiry,
      length-expire (max t.wall_high_water wall) t.seen_nonces t.nonce_expiry,
    )

-- The other end's secret and one's own public key give what the two share.
pub shared-commutes :
    (k : Config) (a b : List ℕ)
    → IsSound k
    → shared k.x25519 a (k.x25519.public_key b) ≡ shared k.x25519 b (k.x25519.public_key a)
unfolding shared
shared-commutes k a b sound = rw (sound.commutes a b) refl
