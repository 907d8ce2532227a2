-- ===== src/ProtocolV5/Exact.antt =====
-- src/protocol.hpp: the encoder on the packet that the decoder reads from a datagram.
use tuntom.Base.{
  All-drop, AreBytes, Bool, Bool-cases, List, Option-cases, ap, ap₂, arith, bytes_equal→≡, drop,
  false, get_or, if◌then◌else◌, inl, inr, length, length-drop, length-take, not, ok, refl, some,
  sym, take, take-append-drop, true, ℕ, ◌%◌, ◌&&◌, ◌++◌, ◌+◌, ◌-◌, ◌/◌, ◌<◌, ◌==◌, ◌∙◌, ◌≡◌, ◌≤◌,
}
use tuntom.Packet.{PacketType, Packet, protocol_version_v5}
use tuntom.Wire.{store_be64}
use tuntom.Ascon.{Ascon, IsAscon, Authenticates}
use tuntom.ProtocolV5.{
  ProtocolV5, type_of, is_carrier, is_handshake, fragmented, metadata_size, size_limit, metadata,
  nonce_of, seal, encode_into,
}
use tuntom.ProtocolV5.Decode.{
  accepted, canonical_fragment, check_packet, read_packet, admissible, unseal, decode_typed,
  decode_with_scratch,
}
use tuntom.ProtocolV5.Roundtrip.{IsPeer, encode_lem}
use tuntom.ProtocolV5.Canonical.{store64_take, fragment_lem, first_lem, metadata_lem, sealed_lem}

-- The first byte of a datagram of a type, in the receiver's mode.
record IsFirst (rx : ProtocolV5) (b : List ℕ) (type : PacketType) (fragment : Bool) : Type 0 where
  pub typed : type_of (get_or b 0 0 % 0x20) ≡ some type
  pub flagged : (get_or b 0 0 / 0x40 % 2 == 1) ≡ fragment
  pub mode : (get_or b 0 0 / 0x80 % 2 == 1) ≡ rx.encrypting
  pub reserved : (get_or b 0 0 / 0x20 % 2 == 1) ≡ false

module _ (ascon : Ascon) (laws : IsAscon ascon) (auth : Authenticates ascon) where
  -- The tag and the payload of a datagram that was taken are those that are sent for the packet.
  seal-unseal :
      (tx rx : ProtocolV5) (p : Packet) (b : List ℕ) (n : ℕ)
      → IsPeer tx rx
      → n + 16 ≤ length b
      → metadata tx.encrypting p ≡ take n b
      → store_be64 p.sequence ≡ take 8 (drop 1 b)
      → unseal ascon rx b n ≡ some p.payload
      → (seal ascon tx p ≡ take 16 (drop n b) ++ drop (n + 16) b)
        × (length p.payload ≡ length b - (n + 16))
  unfolding seal unseal
  seal-unseal tx rx p b n peer long m s h = elim (Bool-cases tx.encrypting) [
    | inl e ↦ ground (
      arith,
      peer,
      e,
      m,
      s,
      h,
      tagged,
      auth.encrypts tx.tx_key (nonce_of (take 8 (drop 1 b))) (take n b) (drop (n + 16) b)
          (take 16 (drop n b)) p.payload,
      laws.ciphertext_size tx.tx_key (nonce_of (take 8 (drop 1 b))) (take n b) p.payload,
      length-drop (n + 16) b,
    )
    | inr e ↦ ground (
      arith,
      peer,
      e,
      m,
      s,
      h,
      bytes_equal→≡ (take 16 (drop n b))
          (ascon.mac rx.rx_key rx.tunnel_id (take n b ++ drop (n + 16) b)),
      length-drop (n + 16) b,
    )
  ]
    where
      tagged : length (take 16 (drop n b)) ≡ 16
      tagged = omega (arith, length-take 16 (drop n b), length-drop n b, long)

  -- A fragment is within its length, which is within the limit.
  carrier_within :
      (p : Packet)
      → is_carrier p.type ≡ true
      → accepted p.type p ≡ true
      → canonical_fragment p ≡ true
      → (p.fragment_offset ≤ size_limit p.type) × (p.original_length ≤ size_limit p.type)
  unfolding canonical_fragment accepted
  carrier_within p k h f = ground (arith, k, h, f)

  probe_within :
      (p : Packet)
      → metadata_size p.type false ≡ 19
      → accepted p.type p ≡ true
      → p.original_length ≤ size_limit p.type
  unfolding metadata_size accepted
  probe_within p k h = ground (arith, k, h)

  whole_within :
      (c : ProtocolV5) (b : List ℕ) (type : PacketType) (payload : List ℕ)
      → length payload ≤ size_limit type
      → (metadata_size type false ≡ 19
          → (read_packet c b type false payload).original_length ≤ size_limit type)
      → (read_packet c b type false payload).original_length ≤ size_limit type
  unfolding read_packet
  whole_within c b type payload l h = ground (arith, l, h)

  -- What a decoded packet meets is within the encoder's limits.
  within :
      (c : ProtocolV5) (b : List ℕ) (type : PacketType) (fragment : Bool) (payload : List ℕ)
      → (fragment && not (is_carrier type)) ≡ false
      → length payload ≤ size_limit type
      → (if fragment then canonical_fragment (read_packet c b type fragment payload) else true)
        ≡ true
      → accepted type (read_packet c b type fragment payload) ≡ true
      → let p = read_packet c b type fragment payload in
        (p.fragment_offset ≤ size_limit type) × (p.original_length ≤ size_limit type)
  unfolding read_packet
  within c b type true payload k l f a =
      carrier_within (read_packet c b type true payload) (ground (arith, k)) a f
  within c b type false payload k l f a = (
    ground arith,
    whole_within c b type payload l (λ m. probe_within (read_packet c b type false payload) m a),
  )

  check_packet_lem :
      (q p : Packet) (fragment : Bool)
      → check_packet q fragment ≡ some p
      → (q ≡ p)
        × ((if fragment then canonical_fragment q else true) ≡ true)
        × (accepted q.type q ≡ true)
  unfolding check_packet
  check_packet_lem q p fragment h = ground (arith, h)

  limits :
      (rx : ProtocolV5) (b : List ℕ) (type : PacketType) (fragment : Bool)
      → admissible rx b type fragment ≡ true
      → ((fragment && not (is_carrier type)) ≡ false)
        × (metadata_size type fragment + 16 ≤ length b)
        × (9 ≤ metadata_size type fragment)
        × (length b - (metadata_size type fragment + 16) ≤ size_limit type)
        × ((is_handshake type && rx.encrypting) ≡ false)
        × (is_handshake type ≡ true → get_or b 9 0 ≡ protocol_version_v5)
  unfolding admissible metadata_size
  limits rx b type fragment h = ground (arith, h)

  -- The packet that is read from a datagram is encoded to it.
  encode-read :
      (tx rx : ProtocolV5) (b : List ℕ) (type : PacketType) (fragment : Bool) (payload : List ℕ)
      → let p = read_packet rx b type fragment payload in
        AreBytes b
        → IsPeer tx rx
        → IsFirst rx b type fragment
        → admissible rx b type fragment ≡ true
        → unseal ascon rx b (metadata_size type fragment) ≡ some payload
        → (if fragment then canonical_fragment p else true) ≡ true
        → accepted type p ≡ true
        → encode_into ascon tx p ≡ ok b
  unfolding read_packet
  encode-read tx rx b type fragment payload v peer first a u can acc =
      let p : Packet = read_packet rx b type fragment payload in
      let (plain, long, nine, small, clear, version) = limits rx b type fragment a in
      let same : fragmented p ≡ fragment = fragment_lem rx b type fragment payload plain can in
      let meta : metadata tx.encrypting p ≡ take (metadata_size type fragment) b =
        rw (← peer.same_mode) (
          metadata_lem rx b v type fragment payload long plain version same
            (first_lem rx b v type fragment payload long plain version same first.typed
              first.flagged first.mode first.reserved)
            nine) in
      let (sealed, size) =
        seal-unseal tx rx p b (metadata_size type fragment) peer long meta
          (store64_take (drop 1 b) (All-drop (λ x. x < 256) 1 b v)
            (omega (arith, length-drop 1 b, long, nine)))
          u in
      let (o, l) = within rx b type fragment payload plain (omega (arith, size, small)) can acc in
      encode_lem ascon laws tx p o l (omega (arith, size, small)) (rw (← peer.same_mode) clear)
      ∙ ap ok (
          ap₂ (λ l m. l ++ m) meta
            (sealed ∙ sym (sealed_lem rx b v type fragment payload long plain version same))
          ∙ take-append-drop (metadata_size type fragment) b)

  decode_typed-encode :
      (tx rx : ProtocolV5) (b : List ℕ) (type : PacketType) (fragment : Bool) (p : Packet)
      → AreBytes b
      → IsPeer tx rx
      → IsFirst rx b type fragment
      → decode_typed ascon rx b type fragment ≡ some p
      → encode_into ascon tx p ≡ ok b
  unfolding decode_typed
  decode_typed-encode tx rx b type fragment p v peer first h =
      elim (Option-cases (unseal ascon rx b (metadata_size type fragment))) [
        | inl e ↦ ground (arith, e, h)
        | inr (payload, e) ↦
            let (q, can, acc) =
              check_packet_lem (read_packet rx b type fragment payload) p fragment
                (ground (arith, e, h)) in
            ap (encode_into ascon tx) (sym q)
            ∙ encode-read tx rx b type fragment payload v peer first (ground (arith, e, h)) e can
                (unfold read_packet in acc)
      ]

  decode_with_scratch-IsFirst :
      (rx : ProtocolV5) (b : List ℕ) (p : Packet) (type : PacketType)
      → type_of (get_or b 0 0 % 0x20) ≡ some type
      → decode_with_scratch ascon rx b ≡ some p
      → IsFirst rx b type (get_or b 0 0 / 0x40 % 2 == 1)
        × (decode_typed ascon rx b type (get_or b 0 0 / 0x40 % 2 == 1) ≡ some p)
  unfolding decode_with_scratch
  decode_with_scratch-IsFirst rx b p type e h = (
    record { typed = e; flagged = refl; mode = ground (arith, h); reserved = ground (arith, h) },
    ground (arith, e, h),
  )

  -- A datagram that one end takes, in the clear or encrypted, is byte for byte the one that the other
  -- end encodes of the packet that was decoded. The cipher keeps the laws, decryption gives what was
  -- encrypted only, and the two ends have the same key, tunnel and mode.
  pub encode_into-decode_with_scratch :
      (tx rx : ProtocolV5) (b : List ℕ) (p : Packet)
      → AreBytes b
      → IsPeer tx rx
      → decode_with_scratch ascon rx b ≡ some p
      → encode_into ascon tx p ≡ ok b
  encode_into-decode_with_scratch tx rx b p v peer h =
      elim (Option-cases (type_of (get_or b 0 0 % 0x20))) [
        | inl e ↦ unfold decode_with_scratch in ground (arith, e, h)
        | inr (type, e) ↦
            let (first, d) = decode_with_scratch-IsFirst rx b p type e h in
            decode_typed-encode tx rx b type (get_or b 0 0 / 0x40 % 2 == 1) p v peer first d
      ]
