-- ===== src/ProtocolV5/Roundtrip.antt =====
-- A datagram that one end encodes, decoded by the other.
use tuntom.Base.{
  Bool, Bool-cases, List, ap, append_assoc, arith, bytes_equal, bytes_equal_refl, drop, drop_at,
  drop_past, drop_prefix, false, get_or, get_or-drop, if◌then◌else◌, inl, inr, length,
  length-append, none, ok, refl, some, sym, take, take_prefix, true, ℕ, ◌%◌, ◌&&◌, ◌++◌, ◌+◌, ◌/◌,
  ◌<◌, ◌==◌, ◌^◌, ◌∙◌, ◌≡◌, ◌≤◌,
}
use tuntom.Packet.{Packet, PacketType, protocol_version_v5}
use tuntom.Wire.{store_be64, load_be64}
use tuntom.Wire.Laws.{length-store_be64, load_be64-store_be64}
use tuntom.Ascon.{Ascon, IsAscon}
use tuntom.ProtocolV5.{
  ProtocolV5, type_of, is_carrier, is_handshake, fragmented, metadata_size, size_limit, first_byte,
  metadata_fields, metadata, nonce_of, seal, encode_into, protocol_header_v5_size,
}
use tuntom.ProtocolV5.Decode.{unseal, admissible, check_packet, decode_typed, decode_with_scratch}
use tuntom.ProtocolV5.Layout.{
  length-metadata_fields, type_of-type_byte, type_byte-lt, seen, Fits, read-seen,
}

-- The keys and the mode of the two ends of a tunnel, for one direction.
pub record IsPeer (tx rx : ProtocolV5) : Type 0 where
  pub same_tunnel : rx.tunnel_id ≡ tx.tunnel_id
  pub same_key : rx.rx_key ≡ tx.tx_key
  pub same_mode : rx.encrypting ≡ tx.encrypting

pub length-metadata :
    (e : Bool) (p : Packet) → length (metadata e p) ≡ metadata_size p.type (fragmented p)
unfolding metadata
length-metadata e p = omega (
  arith,
  length-append (store_be64 p.sequence) (metadata_fields p),
  length-store_be64 p.sequence,
  length-metadata_fields p,
)

module _ (ascon : Ascon) (laws : IsAscon ascon) where
  pub length-seal : (c : ProtocolV5) (p : Packet) → length (seal ascon c p) ≡ 16 + length p.payload
  unfolding seal
  length-seal c p = ground (
    arith,
    length-append
        (ascon.encrypt c.tx_key (nonce_of (store_be64 p.sequence)) (metadata c.encrypting p)
          p.payload).1
        (ascon.encrypt c.tx_key (nonce_of (store_be64 p.sequence)) (metadata c.encrypting p)
          p.payload).0,
    laws.tag_size c.tx_key (nonce_of (store_be64 p.sequence)) (metadata c.encrypting p) p.payload,
    laws.ciphertext_size c.tx_key (nonce_of (store_be64 p.sequence)) (metadata c.encrypting p)
        p.payload,
    length-append (ascon.mac c.tx_key c.tunnel_id (metadata c.encrypting p ++ p.payload)) p.payload,
    laws.mac_size c.tx_key c.tunnel_id (metadata c.encrypting p ++ p.payload),
  )

  -- A tag of 16 bytes with a body behind it.
  split-tag :
      (m tag body : List ℕ)
      → length tag ≡ 16
      → (take 16 (drop (length m) (m ++ (tag ++ body))) ≡ tag)
        × (drop (length m + 16) (m ++ (tag ++ body)) ≡ body)
  split-tag m tag body h = (
    ap (take 16) (drop_prefix m (tag ++ body))
        ∙ ap (λ n. take n (tag ++ body)) (sym h)
        ∙ take_prefix tag body,
    drop_past (length m + 16) 16 m (tag ++ body) refl ∙ drop_at 16 tag body h,
  )

  sequence-metadata :
      (e : Bool) (p : Packet) (rest : List ℕ)
      → take 8 (drop 1 (metadata e p ++ rest)) ≡ store_be64 p.sequence
  unfolding metadata
  sequence-metadata e p rest =
      ap (take 8) (append_assoc (store_be64 p.sequence) (metadata_fields p) rest)
      ∙ ap (λ n. take n (store_be64 p.sequence ++ (metadata_fields p ++ rest)))
          (sym (length-store_be64 p.sequence))
      ∙ take_prefix (store_be64 p.sequence) (metadata_fields p ++ rest)

  unseal_parts :
      (rx : ProtocolV5) (b m tag body s : List ℕ) (n : ℕ)
      → take n b ≡ m
      → take 16 (drop n b) ≡ tag
      → drop (n + 16) b ≡ body
      → take 8 (drop 1 b) ≡ s
      → unseal ascon rx b n ≡ (
          if rx.encrypting
          then ascon.decrypt rx.rx_key (nonce_of s) m body tag
          else if bytes_equal tag (ascon.mac rx.rx_key rx.tunnel_id (m ++ body))
          then some body
          else none)
  unfolding unseal
  unseal_parts rx b m tag body s n hm ht hb hs = simp (hm, ht, hb, hs) refl

  unseal_sealed :
      (tx rx : ProtocolV5) (p : Packet) (tag body : List ℕ)
      → length tag ≡ 16
      → unseal ascon rx
          (metadata tx.encrypting p ++ (tag ++ body))
          (length (metadata tx.encrypting p))
        ≡ (if rx.encrypting
            then ascon.decrypt rx.rx_key
                (nonce_of (store_be64 p.sequence))
                (metadata tx.encrypting p)
                body
                tag
            else if bytes_equal tag
                (ascon.mac rx.rx_key rx.tunnel_id (metadata tx.encrypting p ++ body))
            then some body
            else none)
  unseal_sealed tx rx p tag body h =
      let m : List ℕ = metadata tx.encrypting p in
      unseal_parts rx (m ++ (tag ++ body)) m tag body (store_be64 p.sequence) (length m)
        (take_prefix m (tag ++ body)) (split-tag m tag body h).0 (split-tag m tag body h).1
        (sequence-metadata tx.encrypting p (tag ++ body))

  unseal-seal :
      (tx rx : ProtocolV5) (p : Packet)
      → IsPeer tx rx
      → unseal ascon rx
          (metadata tx.encrypting p ++ seal ascon tx p)
          (length (metadata tx.encrypting p))
        ≡ some p.payload
  unfolding seal
  unseal-seal tx rx p peer = elim (Bool-cases tx.encrypting) [
    | inl e ↦
        let m : List ℕ = metadata tx.encrypting p in
        let s : List ℕ × List ℕ =
          ascon.encrypt tx.tx_key (nonce_of (store_be64 p.sequence)) m p.payload in
        ground (
          arith,
          peer,
          unseal_sealed tx rx p s.1 s.0,
          laws.tag_size tx.tx_key (nonce_of (store_be64 p.sequence)) m p.payload,
          laws.decrypts tx.tx_key (nonce_of (store_be64 p.sequence)) m p.payload,
        )
    | inr e ↦
        let m : List ℕ = metadata tx.encrypting p in
        let t : List ℕ = ascon.mac tx.tx_key tx.tunnel_id (m ++ p.payload) in
        ground (
          arith,
          peer,
          unseal_sealed tx rx p t p.payload,
          laws.mac_size tx.tx_key tx.tunnel_id (m ++ p.payload),
          bytes_equal_refl t,
        )
  ]

  length_encoded :
      (tx : ProtocolV5) (p : Packet)
      → length (metadata tx.encrypting p ++ seal ascon tx p)
        ≡ metadata_size p.type (fragmented p) + 16 + length p.payload
  length_encoded tx p = omega (
    arith,
    length-append (metadata tx.encrypting p) (seal ascon tx p),
    length-metadata tx.encrypting p,
    length-seal tx p,
  )

  flags :
      (tx : ProtocolV5) (p : Packet)
      → let first = first_byte tx.encrypting p in
        (type_of (first % 0x20) ≡ some p.type)
        × ((first / 0x20 % 2 == 1) ≡ false)
        × ((first / 0x40 % 2 == 1) ≡ fragmented p)
        × ((first / 0x80 % 2 == 1) ≡ tx.encrypting)
  unfolding first_byte
  flags tx p = ground (arith, type_of-type_byte p.type, type_byte-lt p.type)

  -- A handshake packet is sent in the clear, with the version in front of its identifier.
  version-metadata :
      (p : Packet) (e : Bool) (rest : List ℕ)
      → is_handshake p.type ≡ true
      → get_or (drop 9 (metadata e p ++ rest)) 0 0 ≡ protocol_version_v5
  unfolding metadata metadata_fields
  version-metadata p e rest h = ground (
    arith,
    append_assoc (store_be64 p.sequence) (metadata_fields p) rest,
    drop_at 8 (store_be64 p.sequence) (metadata_fields p ++ rest) (length-store_be64 p.sequence),
  )

  fields-metadata :
      (e : Bool) (p : Packet) (rest : List ℕ)
      → drop 9 (metadata e p ++ rest) ≡ metadata_fields p ++ rest
  unfolding metadata
  fields-metadata e p rest =
      ap (drop 8) (append_assoc (store_be64 p.sequence) (metadata_fields p) rest)
      ∙ drop_at 8 (store_be64 p.sequence) (metadata_fields p ++ rest) (length-store_be64 p.sequence)

  number-metadata :
      (e : Bool) (p : Packet) (rest : List ℕ)
      → p.sequence < 2 ^ 64
      → load_be64 (drop 1 (metadata e p ++ rest)) ≡ p.sequence
  unfolding metadata
  number-metadata e p rest h =
      ap load_be64 (append_assoc (store_be64 p.sequence) (metadata_fields p) rest)
      ∙ load_be64-store_be64 p.sequence (metadata_fields p ++ rest) h

  metadata_size-ge : (type : PacketType) (fragment : Bool) → 9 ≤ metadata_size type fragment
  unfolding metadata_size
  metadata_size-ge type fragment = ground arith

  fragmented-carrier : (p : Packet) → fragmented p ≡ true → is_carrier p.type ≡ true
  unfolding fragmented
  fragmented-carrier p h = ground arith

  admissible-encoded :
      (tx rx : ProtocolV5) (p : Packet)
      → IsPeer tx rx
      → length p.payload ≤ size_limit p.type
      → (is_handshake p.type && tx.encrypting) ≡ false
      → admissible rx (metadata tx.encrypting p ++ seal ascon tx p) p.type (fragmented p) ≡ true
  unfolding admissible
  admissible-encoded tx rx p peer fits plain = ground (
    arith,
    peer,
    length_encoded tx p,
    metadata_size-ge p.type (fragmented p),
    fragmented-carrier p,
    version-metadata p tx.encrypting (seal ascon tx p),
    get_or-drop 9 0 0 (metadata tx.encrypting p ++ seal ascon tx p),
  )

  decode_typed-encoded :
      (tx rx : ProtocolV5) (p : Packet)
      → IsPeer tx rx
      → Fits p
      → length p.payload ≤ size_limit p.type
      → (is_handshake p.type && tx.encrypting) ≡ false
      → decode_typed ascon rx (metadata tx.encrypting p ++ seal ascon tx p) p.type (fragmented p)
        ≡ check_packet (seen rx p) (fragmented p)
  unfolding decode_typed
  decode_typed-encoded tx rx p peer fits small plain =
      let b : List ℕ = metadata tx.encrypting p ++ seal ascon tx p in
      simp
        (
          admissible-encoded tx rx p peer small plain,
          ← length-metadata tx.encrypting p,
          unseal-seal tx rx p peer,
          read-seen rx p b (seal ascon tx p) fits
              (number-metadata tx.encrypting p (seal ascon tx p) fits.sequence_fits)
              (fields-metadata tx.encrypting p (seal ascon tx p)),
        )
        refl

  encoded_lem :
      (tx : ProtocolV5) (p : Packet) (b : List ℕ)
      → encode_into ascon tx p ≡ ok b
      → (b ≡ metadata tx.encrypting p ++ seal ascon tx p)
        × (p.fragment_offset ≤ size_limit p.type)
        × (p.original_length ≤ size_limit p.type)
        × (length p.payload ≤ size_limit p.type)
        × ((is_handshake p.type && tx.encrypting) ≡ false)
  unfolding encode_into
  encoded_lem tx p b h = ground arith

  first-encoded :
      (tx rx : ProtocolV5) (p : Packet) (b : List ℕ)
      → IsPeer tx rx
      → get_or b 0 0 ≡ first_byte tx.encrypting p
      → protocol_header_v5_size ≤ length b
      → decode_with_scratch ascon rx b ≡ decode_typed ascon rx b p.type (fragmented p)
  unfolding decode_with_scratch
  first-encoded tx rx p b peer first long = ground (arith, peer, flags tx p)

  -- What one end encodes, the other decodes: the packet as the receiver sees it, with the fields that
  -- its type does not send at their defaults, where it meets the conditions of its type, and nothing
  -- where it does not.
  pub decode_with_scratch-encode_into :
      (tx rx : ProtocolV5) (p : Packet) (b : List ℕ)
      → IsPeer tx rx
      → p.sequence < 2 ^ 64
      → p.message_id < 2 ^ 64
      → encode_into ascon tx p ≡ ok b
      → decode_with_scratch ascon rx b ≡ check_packet (seen rx p) (fragmented p)
  decode_with_scratch-encode_into tx rx p b peer s i h =
      let (shape, o, l, n, plain) = encoded_lem tx p b h in
      rw shape (
        first-encoded tx rx p (metadata tx.encrypting p ++ seal ascon tx p) peer
          (unfold metadata in refl)
          (omega (arith, length_encoded tx p, metadata_size-ge p.type (fragmented p)))
        ∙ decode_typed-encoded tx rx p peer
            (record { sequence_fits = s; id_fits = i; offset_fits = o; length_fits = l }) n plain)

  -- A packet within the limits of its type is encoded; a handshake packet is so in the clear only.
  pub encode_lem :
      (tx : ProtocolV5) (p : Packet)
      → p.fragment_offset ≤ size_limit p.type
      → p.original_length ≤ size_limit p.type
      → length p.payload ≤ size_limit p.type
      → (is_handshake p.type && tx.encrypting) ≡ false
      → encode_into ascon tx p ≡ ok (metadata tx.encrypting p ++ seal ascon tx p)
  unfolding encode_into
  encode_lem tx p o l n plain = ground (arith, metadata_size-ge p.type (fragmented p))

  -- The size and the type byte of what is encoded.
  pub shape-encode :
      (tx : ProtocolV5) (p : Packet) (b : List ℕ)
      → encode_into ascon tx p ≡ ok b
      → (protocol_header_v5_size ≤ length b) × (type_of (get_or b 0 0 % 0x20) ≡ some p.type)
  unfolding metadata
  shape-encode tx p b h =
      let (shape, o, l, n, plain) = encoded_lem tx p b h in
      rw shape
        (omega (arith, length_encoded tx p, metadata_size-ge p.type (fragmented p)), (flags tx p).0)

  -- The sequence stands behind the first byte.
  pub number-encode :
      (tx : ProtocolV5) (p : Packet) (b : List ℕ)
      → encode_into ascon tx p ≡ ok b
      → p.sequence < 2 ^ 64
      → load_be64 (drop 1 b) ≡ p.sequence
  number-encode tx p b h fits =
      rw (encoded_lem tx p b h).0 (number-metadata tx.encrypting p (seal ascon tx p) fits)
