-- ===== src/ProtocolV5/Layout.antt =====
-- Where the fields of an encoded packet stand, and what the receiver reads from them.
use tuntom.Base.{
  List, [], ap, append_assoc, arith, drop, drop-drop, drop_at, false, if◌then◌else◌, length,
  length-append, ltb, some, sym, true, ℕ, ◌++◌, ◌+◌, ◌<◌, ◌==◌, ◌^◌, ◌||◌, ◌∙◌, ◌≡◌, ◌≤◌,
}
use tuntom.Packet.{PacketType, Packet, protocol_version_v5, is_ipc}
use tuntom.Wire.{store_be16, load_be16, store_be32, load_be32, store_be64, load_be64}
use tuntom.Wire.Laws.{
  load_be32-store_be32, load_be16-store_be16, length-store_be64, load_be64-store_be64,
}
use tuntom.ProtocolV5.{
  ProtocolV5, type_byte, type_of, is_carrier, is_handshake, fragmented, metadata_size, size_limit,
  metadata_fields,
}
use tuntom.ProtocolV5.Decode.{read_packet}

-- The bytes after the sequence fill the metadata.
pub length-metadata_fields :
    (p : Packet) → length (metadata_fields p) + 9 ≡ metadata_size p.type (fragmented p)
unfolding metadata_fields metadata_size fragmented store_be16 store_be32
length-metadata_fields p = ground (
  arith,
  length-store_be64 p.message_id,
  length-append (store_be64 p.message_id) (store_be16 p.original_length),
  length-append (store_be64 p.message_id) [],
  length-append (store_be64 p.message_id)
      (store_be16 p.fragment_offset ++ store_be16 p.original_length),
  length-append (store_be64 p.message_id)
      (store_be32 p.fragment_offset ++ store_be32 p.original_length),
)

pub type_of-type_byte : (type : PacketType) → type_of (type_byte type) ≡ some type
unfolding type_of type_byte
type_of-type_byte type = ground arith

pub type_byte-lt : (type : PacketType) → type_byte type < 24
unfolding type_byte
type_byte-lt type = ground arith

-- A packet as the receiver reads it: what its metadata does not hold is set to the default.
unfoldable pub seen : ProtocolV5 → Packet → Packet
seen c p =
    let meta = metadata_size p.type (fragmented p) in
    record {
      type = p.type;
      tunnel_id = c.tunnel_id;
      protocol_version = protocol_version_v5;
      sequence = p.sequence;
      message_id = if ltb 9 meta then p.message_id else if is_carrier p.type then p.sequence else 0;
      fragment_offset = if fragmented p then p.fragment_offset else 0;
      original_length =
          if fragmented p || meta == 19
          then p.original_length
          else if is_carrier p.type
          then length p.payload
          else 0;
      payload = p.payload;
    }

-- The fields are numbers of their width.
pub record Fits (p : Packet) : Type 0 where
  pub sequence_fits : p.sequence < 2 ^ 64
  pub id_fits : p.message_id < 2 ^ 64
  pub offset_fits : p.fragment_offset ≤ size_limit p.type
  pub length_fits : p.original_length ≤ size_limit p.type

module _ (p : Packet) (fits : Fits p) (tail : List ℕ) where
  id-handshake :
      is_handshake p.type ≡ true → load_be64 (drop 1 (metadata_fields p ++ tail)) ≡ p.message_id
  unfolding metadata_fields
  id-handshake h = ground (arith, h, load_be64-store_be64 p.message_id tail, fits.id_fits)

  id-plain :
      (rest : List ℕ)
      → metadata_fields p ≡ store_be64 p.message_id ++ rest
      → load_be64 (metadata_fields p ++ tail) ≡ p.message_id
  id-plain rest e = rw e (
      rw (append_assoc (store_be64 p.message_id) rest tail)
        (load_be64-store_be64 p.message_id (rest ++ tail) fits.id_fits))

  rest-plain :
      (rest : List ℕ)
      → metadata_fields p ≡ store_be64 p.message_id ++ rest
      → drop 8 (metadata_fields p ++ tail) ≡ rest ++ tail
  rest-plain rest e = rw e (
      rw (append_assoc (store_be64 p.message_id) rest tail)
        (drop_at 8 (store_be64 p.message_id) (rest ++ tail) (length-store_be64 p.message_id)))

  id_lem :
      is_handshake p.type ≡ false
      → ltb 9 (metadata_size p.type (fragmented p)) ≡ true
      → load_be64 (metadata_fields p ++ tail) ≡ p.message_id
  unfolding metadata_fields
  id_lem h l = ground (
    arith,
    h,
    l,
    id-plain [],
    id-plain (store_be16 p.original_length),
    id-plain (store_be16 p.fragment_offset ++ store_be16 p.original_length),
    id-plain (store_be32 p.fragment_offset ++ store_be32 p.original_length),
  )

  offset_ipc :
      fragmented p ≡ true
      → is_ipc p.type ≡ true
      → load_be32 (drop 8 (metadata_fields p ++ tail)) ≡ p.fragment_offset
  unfolding metadata_fields fragmented metadata_size store_be32
  offset_ipc f i = ground (
    arith,
    rest-plain (store_be32 p.fragment_offset ++ store_be32 p.original_length),
    load_be32-store_be32 p.fragment_offset (store_be32 p.original_length ++ tail),
    fits.offset_fits,
  )

  length_ipc :
      fragmented p ≡ true
      → is_ipc p.type ≡ true
      → load_be32 (drop 4 (drop 8 (metadata_fields p ++ tail))) ≡ p.original_length
  unfolding metadata_fields fragmented metadata_size store_be32
  length_ipc f i = ground (
    arith,
    rest-plain (store_be32 p.fragment_offset ++ store_be32 p.original_length),
    load_be32-store_be32 p.original_length tail,
    fits.length_fits,
  )

  offset_data :
      fragmented p ≡ true
      → is_ipc p.type ≡ false
      → load_be16 (drop 8 (metadata_fields p ++ tail)) ≡ p.fragment_offset
  unfolding metadata_fields fragmented metadata_size store_be16
  offset_data f i = ground (
    arith,
    rest-plain (store_be16 p.fragment_offset ++ store_be16 p.original_length),
    load_be16-store_be16 p.fragment_offset (store_be16 p.original_length ++ tail),
    fits.offset_fits,
  )

  length_data :
      fragmented p ≡ true
      → is_ipc p.type ≡ false
      → load_be16 (drop 2 (drop 8 (metadata_fields p ++ tail))) ≡ p.original_length
  unfolding metadata_fields fragmented metadata_size store_be16
  length_data f i = ground (
    arith,
    rest-plain (store_be16 p.fragment_offset ++ store_be16 p.original_length),
    load_be16-store_be16 p.original_length tail,
    fits.length_fits,
  )

  length_probe :
      metadata_size p.type (fragmented p) ≡ 19
      → load_be16 (drop 8 (metadata_fields p ++ tail)) ≡ p.original_length
  unfolding metadata_fields fragmented metadata_size store_be16
  length_probe f = ground (
    arith,
    rest-plain (store_be16 p.original_length),
    load_be16-store_be16 p.original_length tail,
    fits.length_fits,
  )

-- The receiver's reading of a datagram whose bytes from the tenth on are these.
pub read-seen :
    (c : ProtocolV5) (p : Packet) (b tail : List ℕ)
    → Fits p
    → load_be64 (drop 1 b) ≡ p.sequence
    → drop 9 b ≡ metadata_fields p ++ tail
    → read_packet c b p.type (fragmented p) p.payload ≡ seen c p
unfolding read_packet seen fragmented metadata_size
read-seen c p b tail fits s e = ground (
  arith,
  s,
  further 1,
  further 8,
  further 10,
  further 12,
  id-handshake p fits tail,
  id_lem p fits tail,
  offset_ipc p fits tail,
  length_ipc p fits tail,
  offset_data p fits tail,
  length_data p fits tail,
  length_probe p fits tail,
  e,
)
  where
    further : (n : ℕ) → drop (9 + n) b ≡ drop n (metadata_fields p ++ tail)
    further n = sym (drop-drop 9 n b) ∙ ap (drop n) e
