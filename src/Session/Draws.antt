-- ===== src/Session/Draws.antt =====
-- What a handshake draws at random, and the client that has begun it.
use tuntom.Base.{
  Bool-cases, List, ap, arith, false, inl, inr, length, refl, some, true, ℕ, ◌-◌, ◌<◌, ◌^◌, ◌∙◌,
  ◌≡◌, ◌≤◌,
}
use tuntom.KeySchedule.{shared}
use tuntom.Session.{
  Config, State, Random, pending_lifetime, started, expire_previous, expire_pending, count_timeout,
}
use tuntom.Session.Derive.{key_offer}
use tuntom.Session.Client.{random_id, begin_secret, begin, publish_init, init_payload, init_wire_of}
use tuntom.Session.Server.{response_wire_of}
use tuntom.Session.Traces.{expired}
use tuntom.Session.Wires.{client, server}
use tuntom.Session.Agreement.{used}

-- What the two ends draw for one handshake.
pub record Draws (k : Config) : Type 0 where
  pub exchange : ℕ
  pub init_nonce : List ℕ
  pub init_time : ℕ
  pub client_secret : List ℕ
  pub response_nonce : List ℕ
  pub server_secret : List ℕ
  pub dh : List ℕ
  pub some_exchange : 0 < exchange
  pub exchange_fits : exchange < 2 ^ 64
  pub init_nonce_size : length init_nonce ≡ 32
  pub time_fits : init_time < 2 ^ 64
  pub response_nonce_size : length response_nonce ≡ 32
  -- with PFS the shared secret is not refused
  pub shares :
      k.pfs ≡ true → shared k.x25519 server_secret (k.x25519.public_key client_secret) ≡ some dh

abbrev pub init_of : (k : Config) → Draws k → List ℕ
init_of k d = init_wire_of (client k) d.exchange d.init_nonce d.init_time d.client_secret

abbrev pub response_of : (k : Config) → Draws k → List ℕ
response_of k d =
    response_wire_of (server k) d.exchange (init_of k d) d.response_nonce (used k d.server_secret)

-- A client that waits for the response to its INIT.
pub record Awaits (k : Config) (d : Draws k) (c : State) (now : ℕ) : Type 0 where
  pub same_init : c.client_init ≡ init_of k d
  pub same_exchange : c.client_exchange ≡ d.exchange
  pub same_secret : c.client_secret ≡ used k d.client_secret
  pub unconfirmed : c.waiting_ack ≡ false
  pub in_flight : now - c.flight_started < pending_lifetime

-- Without PFS the secret has no part in an INIT.
init_wire-used :
    (k : Config) (exchange : ℕ) (nonce : List ℕ) (wall : ℕ) (secret : List ℕ)
    → init_wire_of (client k) exchange nonce wall (used k secret)
      ≡ init_wire_of (client k) exchange nonce wall secret
unfolding init_wire_of init_payload key_offer
init_wire-used k exchange nonce wall secret = elim (Bool-cases k.pfs) [
  | inl e ↦ simp e refl
  | inr e ↦ simp e refl
]

begin-publish :
    (k : Config) (c : State) (now wall : ℕ) (random : Random) (nonce secret : List ℕ)
    → c.random_retry_after ≤ now
    → 0 < random_id random
    → random.nonce ≡ some nonce
    → random.secret ≡ some secret
    → begin (client k) c now wall random
      ≡ publish_init
          (record c { begin_retry = true })
          now
          (random_id random)
          (used k secret)
          (init_wire_of (client k) (random_id random) nonce wall (used k secret))
unfolding begin begin_secret
begin-publish k c now wall random nonce secret r i n x = ground (arith, r, i, n, x)

-- A client that begins a handshake sends the INIT of what it draws, and waits for the response.
pub begin-Awaits :
    (k : Config) (d : Draws k) (c : State) (now later : ℕ) (random : Random)
    → c.random_retry_after ≤ now
    → random_id random ≡ d.exchange
    → random.nonce ≡ some d.init_nonce
    → random.secret ≡ some d.client_secret
    → later - now < pending_lifetime
    → let (c', wire) = begin (client k) c now d.init_time random in
      (wire ≡ init_of k d) × Awaits k d c' later
unfolding publish_init started
begin-Awaits k d c now later random r i n x h =
    let sent : init_wire_of (client k) (random_id random) d.init_nonce d.init_time
          (used k d.client_secret)
        ≡ init_of k d =
      init_wire-used k (random_id random) d.init_nonce d.init_time d.client_secret
      ∙ ap (λ e. init_wire_of (client k) e d.init_nonce d.init_time d.client_secret) i in
    rw
      (begin-publish k c now d.init_time random d.init_nonce d.client_secret r
        (omega (arith, i, d.some_exchange)) n x)
      (
        sent,
        record {
          same_init = sent;
          same_exchange = i;
          same_secret = refl;
          unconfirmed = refl;
          in_flight = h;
        },
      )

pub expired-Awaits :
    (k : Config) (d : Draws k) (c : State) (now : ℕ)
    → Awaits k d c now
    → Awaits k d (expired c now) now
unfolding expire_pending expire_previous count_timeout
expired-Awaits k d c now w = ground (arith, w)
