-- ===== src/Session/Wires.antt =====
-- INIT and RESPONSE on the wire: what one end builds, the other reads.
use tuntom.Base.{
  List, ap, append_assoc, arith, drop, drop_past, false, get_or, if◌then◌else◌, inl, inr, length,
  length-append, ok, refl, some, sym, take, take_all, true, ℕ, ◌%◌, ◌++◌, ◌+◌, ◌-◌, ◌<◌, ◌==◌, ◌^◌,
  ◌∙◌, ◌∷◌, ◌≡◌, ◌≤◌, ◌⊎◌,
}
use tuntom.Packet.{Packet, PacketType, init, response}
use tuntom.Wire.{store_be16, store_be64, load_be16}
use tuntom.Wire.Laws.{load_be16-store_be16, length-store_be64}
use tuntom.Ascon.{IsAscon}
use tuntom.KeySchedule.{commitment, expand, init_bind_0, init_bind_1}
use tuntom.ProtocolV5.{
  ProtocolV5, fragmented, metadata_size, metadata, seal, size_limit, type_of, encode_into,
}
use tuntom.ProtocolV5.Decode.{accepted, accepted_handshake, check_packet, decode_with_scratch}
use tuntom.ProtocolV5.Layout.{seen}
use tuntom.ProtocolV5.Roundtrip.{IsPeer, decode_with_scratch-encode_into, encode_lem, shape-encode}
use tuntom.Session.{Config, handshake_codec, suite}
use tuntom.Session.Derive.{control, bytes_of, key_offer}
use tuntom.Session.Client.{init_payload, init_wire_of}
use tuntom.Session.Server.{response_payload, response_wire_of}

-- The two ends of a tunnel: the same configuration but for the role.
abbrev pub client : Config → Config
client k = record k { server = false }

abbrev pub server : Config → Config
server k = record k { server = true }

abbrev pub dh_size : Config → ℕ
dh_size k = if k.pfs then 32 else 0

-- What the code relies on: the sizes and the inverse of the cipher, and the size of a public key.
pub record IsSound (k : Config) : Type 0 where
  pub ascon_laws : IsAscon k.ascon
  -- both ends of a Diffie-Hellman exchange come to the same secret
  pub commutes :
      (a b : List ℕ)
      → k.x25519.raw_shared a (k.x25519.public_key b)
        ≡ k.x25519.raw_shared b (k.x25519.public_key a)
  pub key_size : (secret : List ℕ) → length (k.x25519.public_key secret) ≡ 32

pub suite-le : (k : Config) → suite k ≤ 2
unfolding suite
suite-le k = ground arith

pub suite-dh : (k : Config) → dh_size k ≡ (if suite k == 2 then 32 else 0)
unfolding suite
suite-dh k = ground arith

module _ (k : Config) (sound : IsSound k) (secret : List ℕ) where
  pub length-key_offer : length (key_offer k secret) ≡ 4 + dh_size k
  unfolding key_offer store_be16
  length-key_offer = ground (arith, sound.key_size secret)

  pub suite-key_offer : load_be16 (key_offer k secret) ≡ suite k
  unfolding key_offer
  suite-key_offer = load_be16-store_be16 (suite k) _ (omega (arith, suite-le k))

  pub dh_size-key_offer : load_be16 (drop 2 (key_offer k secret)) ≡ dh_size k
  unfolding key_offer suite store_be16 load_be16
  dh_size-key_offer = ground arith

  pub public-key_offer :
      k.pfs ≡ true → take 32 (drop 4 (key_offer k secret)) ≡ k.x25519.public_key secret
  unfolding key_offer store_be16
  public-key_offer e = rw e (
      ap (λ n. take n (k.x25519.public_key secret)) (sym (sound.key_size secret))
      ∙ take_all (k.x25519.public_key secret))

-- The packet of a handshake.
abbrev pub handshake : Config → PacketType → ℕ → List ℕ → Packet
handshake k type exchange payload = record (control k type exchange) { payload = payload }

-- The size of the payload before the suite.
abbrev pub head_size : PacketType → ℕ
head_size init = 40
head_size _ = 64

abbrev IsHandshake : PacketType → Type 0
IsHandshake type = (type ≡ init) ⊎ (type ≡ response)

seen-handshake :
    (k : Config) (c : ProtocolV5) (type : PacketType) (exchange : ℕ) (payload : List ℕ)
    → IsHandshake type
    → c.tunnel_id ≡ k.id
    → (seen c (handshake k type exchange payload) ≡ handshake k type exchange payload)
      × (fragmented (handshake k type exchange payload) ≡ false)
unfolding seen fragmented control metadata_size
seen-handshake k c type exchange payload h e = ground (arith, h)

-- What the other end reads from the bytes of a handshake packet.
pub record Reads (k : Config) (type : PacketType) (exchange : ℕ) (payload : List ℕ)
    (rx : ProtocolV5) (b : List ℕ) : Type 0 where
  pub decodes : decode_with_scratch k.ascon rx b ≡ some (handshake k type exchange payload)
  pub long : 25 ≤ length b
  pub typed : type_of (get_or b 0 0 % 0x20) ≡ some type

read_handshake :
    (expected s d : ℕ) (p : Packet)
    → p.sequence ≡ 0
    → 0 < p.message_id
    → p.fragment_offset ≡ 0
    → p.original_length ≡ 0
    → length p.payload ≡ expected + d
    → load_be16 (drop (expected - 4) p.payload) ≡ s
    → load_be16 (drop (expected - 2) p.payload) ≡ d
    → s ≤ 2
    → d ≡ (if s == 2 then 32 else 0)
    → accepted_handshake expected p ≡ true
unfolding accepted_handshake
read_handshake expected s d p q i o l n hs hd b v = ground arith

module _ (k : Config) (sound : IsSound k) (type : PacketType) (h : IsHandshake type) (exchange : ℕ)
    (start secret : List ℕ) (e : length start ≡ head_size type) where
  length_payload : length (start ++ key_offer k secret) ≡ head_size type + 4 + dh_size k
  length_payload =
      omega (arith, length-append start (key_offer k secret), length-key_offer k sound secret)

  -- What stands behind the start of the payload.
  pub behind_start :
      (n m : ℕ)
      → m ≡ head_size type + n
      → drop m (start ++ key_offer k secret) ≡ drop n (key_offer k secret)
  behind_start n m i = drop_past m n start (key_offer k secret) (omega (arith, i, e))

  pub suite_payload : load_be16 (drop (head_size type) (start ++ key_offer k secret)) ≡ suite k
  suite_payload =
      ap load_be16 (behind_start 0 (head_size type) (omega arith)) ∙ suite-key_offer k sound secret

  accepted-handshake :
      0 < exchange → accepted type (handshake k type exchange (start ++ key_offer k secret)) ≡ true
  unfolding accepted control
  accepted-handshake some_exchange = elim h [
    | inl i ↦ rw i (
        read_handshake 44 (suite k) (dh_size k) packet refl some_exchange refl refl
          (ground (arith, i, length_payload)) (ground (arith, i, suite_payload))
          (ap load_be16 (behind_start 2 42 (ground (arith, i))) ∙ dh_size-key_offer k sound secret)
          (suite-le k) (suite-dh k))
    | inr i ↦ rw i (
        read_handshake 68 (suite k) (dh_size k) packet refl some_exchange refl refl
          (ground (arith, i, length_payload)) (ground (arith, i, suite_payload))
          (ap load_be16 (behind_start 2 66 (ground (arith, i))) ∙ dh_size-key_offer k sound secret)
          (suite-le k) (suite-dh k))
  ]
    where
      packet : Packet
      packet = handshake k type exchange (start ++ key_offer k secret)

  limit_lem : 4 + head_size type + dh_size k ≤ size_limit type
  limit_lem = ground (arith, h)

  handshake-encodes :
      (tx : ProtocolV5)
      → tx.encrypting ≡ false
      → (b : List ℕ) × (encode_into k.ascon tx
            (handshake k type exchange (start ++ key_offer k secret))
          ≡ ok b)
  unfolding control
  handshake-encodes tx plain =
      let p : Packet = handshake k type exchange (start ++ key_offer k secret) in
      (
        metadata tx.encrypting p ++ seal k.ascon tx p,
        encode_lem k.ascon sound.ascon_laws tx p (omega arith) (omega arith)
            (omega (arith, length_payload, limit_lem)) (ground (arith, plain)),
      )

  pub handshake-Reads :
      (tx rx : ProtocolV5)
      → IsPeer tx rx
      → rx.tunnel_id ≡ k.id
      → tx.encrypting ≡ false
      → 0 < exchange
      → exchange < 2 ^ 64
      → Reads k type exchange (start ++ key_offer k secret) rx (
          bytes_of
            (encode_into k.ascon tx (handshake k type exchange (start ++ key_offer k secret))))
  unfolding control check_packet
  handshake-Reads tx rx peer same plain some_exchange fits =
      let p : Packet = handshake k type exchange (start ++ key_offer k secret) in
      let (b, encoded) = handshake-encodes tx plain in
      let (still, whole) = seen-handshake k rx type exchange (start ++ key_offer k secret) h same in
      let (size, typed) = shape-encode k.ascon sound.ascon_laws tx p b encoded in
      rw encoded (record {
        decodes =
            decode_with_scratch-encode_into k.ascon sound.ascon_laws tx rx p b peer (omega arith)
              fits encoded
            ∙ simp (still, whole, accepted-handshake some_exchange) refl;
        long = size;
        typed = typed;
      })

codecs-IsPeer_init : (k : Config) → IsPeer (handshake_codec (client k)) (handshake_codec (server k))
unfolding handshake_codec
codecs-IsPeer_init k = record { same_tunnel = refl; same_key = refl; same_mode = refl }

codecs-IsPeer_response :
    (k : Config) → IsPeer (handshake_codec (server k)) (handshake_codec (client k))
unfolding handshake_codec
codecs-IsPeer_response k = record { same_tunnel = refl; same_key = refl; same_mode = refl }

-- The payload of a packet as its start and the key.
abbrev pub init_start : List ℕ → ℕ → List ℕ
init_start nonce wall = nonce ++ store_be64 wall

abbrev pub response_start : Config → List ℕ → List ℕ → List ℕ
response_start k wire nonce = commitment k.ascon k.master k.id wire ++ nonce

init_wire-bytes :
    (k : Config) (exchange : ℕ) (nonce : List ℕ) (wall : ℕ) (secret : List ℕ)
    → init_wire_of (client k) exchange nonce wall secret
      ≡ bytes_of (
          encode_into k.ascon
            (handshake_codec (client k))
            (handshake k init exchange (init_start nonce wall ++ key_offer k secret)))
unfolding init_wire_of init_payload key_offer suite control
init_wire-bytes k exchange nonce wall secret =
    rw (append_assoc nonce (store_be64 wall) (key_offer k secret)) refl

response_wire-bytes :
    (k : Config) (exchange : ℕ) (wire nonce secret : List ℕ)
    → response_wire_of (server k) exchange wire nonce secret
      ≡ bytes_of (
          encode_into k.ascon
            (handshake_codec (server k))
            (handshake k response exchange (response_start k wire nonce ++ key_offer k secret)))
unfolding response_wire_of response_payload key_offer suite control
response_wire-bytes k exchange wire nonce secret =
    rw (append_assoc (commitment k.ascon k.master k.id wire) nonce (key_offer k secret)) refl

pub length-commitment :
    (k : Config) → IsSound k → (wire : List ℕ) → length (commitment k.ascon k.master k.id wire) ≡ 32
unfolding commitment expand
length-commitment k sound wire = omega (
  arith,
  length-append (expand k.ascon k.master k.id init_bind_0 wire)
      (expand k.ascon k.master k.id init_bind_1 wire),
  sound.ascon_laws.mac_size k.master k.id (init_bind_0 ++ (0 ∷ wire)),
  sound.ascon_laws.mac_size k.master k.id (init_bind_1 ++ (0 ∷ wire)),
)

pub length-init_start :
    (nonce : List ℕ) (wall : ℕ) → length nonce ≡ 32 → length (init_start nonce wall) ≡ 40
length-init_start nonce wall h =
    omega (arith, length-append nonce (store_be64 wall), length-store_be64 wall)

pub length-response_start :
    (k : Config)
    → IsSound k
    → (wire nonce : List ℕ) → length nonce ≡ 32
    → length (response_start k wire nonce) ≡ 64
length-response_start k sound wire nonce h = omega (
  arith,
  length-append (commitment k.ascon k.master k.id wire) nonce,
  length-commitment k sound wire,
)

module _ (k : Config) (sound : IsSound k) (exchange : ℕ) (some_exchange : 0 < exchange)
    (fits : exchange < 2 ^ 64) (nonce : List ℕ) (n : length nonce ≡ 32) (secret : List ℕ) where
  pub init-Reads :
      (wall : ℕ)
      → Reads k init exchange
          (init_start nonce wall ++ key_offer k secret)
          (handshake_codec (server k))
          (init_wire_of (client k) exchange nonce wall secret)
  init-Reads wall = rw (init_wire-bytes k exchange nonce wall secret) (
      handshake-Reads k sound init (inl refl) exchange (init_start nonce wall) secret
        (length-init_start nonce wall n) (handshake_codec (client k)) (handshake_codec (server k))
        (codecs-IsPeer_init k) (unfold handshake_codec in refl) (unfold handshake_codec in refl)
        some_exchange fits)

  pub response-Reads :
      (wire : List ℕ)
      → Reads k response exchange
          (response_start k wire nonce ++ key_offer k secret)
          (handshake_codec (client k))
          (response_wire_of (server k) exchange wire nonce secret)
  response-Reads wire = rw (response_wire-bytes k exchange wire nonce secret) (
      handshake-Reads k sound response (inr refl) exchange (response_start k wire nonce) secret
        (length-response_start k sound wire nonce n) (handshake_codec (server k))
        (handshake_codec (client k)) (codecs-IsPeer_response k) (unfold handshake_codec in refl)
        (unfold handshake_codec in refl) some_exchange fits)
