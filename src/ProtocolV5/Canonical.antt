-- ===== src/ProtocolV5/Canonical.antt =====
-- src/protocol.hpp: the metadata of the packet that is read from a datagram.
use tuntom.Base.{
  All-drop, AreBytes, Bool, List, Option, [], ap, ap₂, arith, drop, drop-drop, false, get_or,
  get_or-drop, if◌then◌else◌, length, length-drop, none, not, refl, some, suc, sym, take,
  take-append-drop, take_add, true, zero, ℕ, ◌%◌, ◌&&◌, ◌++◌, ◌+◌, ◌-◌, ◌/◌, ◌<◌, ◌==◌, ◌∙◌, ◌∷◌,
  ◌≡◌, ◌≤◌,
}
use tuntom.Packet.{PacketType, protocol_version_v5}
use tuntom.Wire.{store_be16, load_be16, store_be32, load_be32, store_be64, load_be64}
use tuntom.Wire.Laws.{store_be64-load_be64, store_be32-load_be32}
use tuntom.ProtocolV5.{
  ProtocolV5, packet_types, type_byte, type_of, is_carrier, is_handshake, fragmented, metadata_size,
  first_byte, metadata_fields, metadata,
}
use tuntom.ProtocolV5.Decode.{canonical_fragment, read_packet}

pub store64_take :
    (xs : List ℕ) → AreBytes xs → 8 ≤ length xs → store_be64 (load_be64 xs) ≡ take 8 xs
store64_take (a ∷ b ∷ c ∷ d ∷ e ∷ f ∷ g ∷ h ∷ rest) v l =
    store_be64-load_be64 a b c d e f g h rest v
store64_take [] v l = absurd (omega arith)
store64_take (a ∷ []) v l = absurd (omega arith)
store64_take (a ∷ b ∷ []) v l = absurd (omega arith)
store64_take (a ∷ b ∷ c ∷ []) v l = absurd (omega arith)
store64_take (a ∷ b ∷ c ∷ d ∷ []) v l = absurd (omega arith)
store64_take (a ∷ b ∷ c ∷ d ∷ e ∷ []) v l = absurd (omega arith)
store64_take (a ∷ b ∷ c ∷ d ∷ e ∷ f ∷ []) v l = absurd (omega arith)
store64_take (a ∷ b ∷ c ∷ d ∷ e ∷ f ∷ g ∷ []) v l = absurd (omega arith)

store32_take : (xs : List ℕ) → AreBytes xs → 4 ≤ length xs → store_be32 (load_be32 xs) ≡ take 4 xs
store32_take (a ∷ b ∷ c ∷ d ∷ rest) v l = store_be32-load_be32 a b c d rest v
store32_take [] v l = absurd (omega arith)
store32_take (a ∷ []) v l = absurd (omega arith)
store32_take (a ∷ b ∷ []) v l = absurd (omega arith)
store32_take (a ∷ b ∷ c ∷ []) v l = absurd (omega arith)

store16_take : (xs : List ℕ) → AreBytes xs → 2 ≤ length xs → store_be16 (load_be16 xs) ≡ take 2 xs
unfolding store_be16 load_be16
store16_take (a ∷ b ∷ rest) v l = ground (arith, v)
store16_take [] v l = absurd (omega arith)
store16_take (a ∷ []) v l = absurd (omega arith)

-- The fragment flag of the datagram is the packet's.
pub fragment_lem :
    (c : ProtocolV5) (b : List ℕ) (type : PacketType) (fragment : Bool) (payload : List ℕ)
    → (fragment && not (is_carrier type)) ≡ false
    → (if fragment then canonical_fragment (read_packet c b type fragment payload) else true) ≡ true
    → fragmented (read_packet c b type fragment payload) ≡ fragment
unfolding fragmented canonical_fragment read_packet metadata_size
fragment_lem c b type fragment payload h k = ground (arith, h, k)

-- The types of a list have the numbers of their places, from a first one.
IsNumbered : ℕ → List (Option PacketType) → Type 0
IsNumbered k [] = Unit
IsNumbered k (none ∷ ts) = IsNumbered (suc k) ts
IsNumbered k (some t ∷ ts) = (type_byte t ≡ k) × IsNumbered (suc k) ts

numbered_lem :
    (k n : ℕ) (ts : List (Option PacketType)) (type : PacketType)
    → get_or ts n none ≡ some type
    → IsNumbered k ts
    → type_byte type ≡ k + n
unfolding IsNumbered
numbered_lem k n [] type e h = absurd cc
numbered_lem k zero (none ∷ ts) type e h = absurd cc
numbered_lem k zero (some t ∷ ts) type e h = ground (arith, h, e)
numbered_lem k (suc n) (none ∷ ts) type e h = omega (arith, numbered_lem (suc k) n ts type e h)
numbered_lem k (suc n) (some t ∷ ts) type e h = omega (arith, numbered_lem (suc k) n ts type e h.1)

type_byte-type_of : (n : ℕ) (type : PacketType) → type_of n ≡ some type → type_byte type ≡ n
unfolding type_of type_byte IsNumbered
type_byte-type_of n type e = omega (arith, numbered_lem 0 n packet_types type e (ground arith))

module _ (c : ProtocolV5) (b : List ℕ) (bytes : AreBytes b) (type : PacketType) (fragment : Bool)
    (payload : List ℕ) (long : metadata_size type fragment + 16 ≤ length b)
    (plain : (fragment && not (is_carrier type)) ≡ false)
    (version : is_handshake type ≡ true → get_or b 9 0 ≡ protocol_version_v5)
    (same : fragmented (read_packet c b type fragment payload) ≡ fragment) where
  behind : (n : ℕ) → AreBytes (drop n b)
  behind n = All-drop (λ x. x < 256) n b bytes

  room : (n : ℕ) → length (drop n b) ≡ length b - n
  room n = length-drop n b

  xs : List ℕ
  xs = drop 9 b

  later : (n : ℕ) → drop n xs ≡ drop (9 + n) b
  later n = unfold xs in drop-drop 9 n b

  take_8_2 : take 10 xs ≡ take 8 xs ++ take 2 (drop 17 b)
  take_8_2 = take_add 8 2 xs ∙ ap (λ l. take 8 xs ++ take 2 l) (later 8)

  take_8_2_2 : take 12 xs ≡ take 8 xs ++ (take 2 (drop 17 b) ++ take 2 (drop 19 b))
  take_8_2_2 =
      take_add 8 4 xs
      ∙ ap (λ l. take 8 xs ++ l)
          (take_add 2 2 (drop 8 xs)
            ∙ ap₂ (λ l m. take 2 l ++ take 2 m) (later 8) (drop-drop 8 2 xs ∙ later 10))

  take_8_4_4 : take 16 xs ≡ take 8 xs ++ (take 4 (drop 17 b) ++ take 4 (drop 21 b))
  take_8_4_4 =
      take_add 8 8 xs
      ∙ ap (λ l. take 8 xs ++ l)
          (take_add 4 4 (drop 8 xs)
            ∙ ap₂ (λ l m. take 4 l ++ take 4 m) (later 8) (drop-drop 8 4 xs ∙ later 12))

  take_1_8 : 0 < length xs → take 9 xs ≡ get_or b 9 0 ∷ take 8 (drop 10 b)
  take_1_8 h =
      take_one xs h ∙ ap₂ (λ x l. x ∷ take 8 l) (unfold xs in get_or-drop 9 0 0 b) (later 1)
    where
      take_one : (l : List ℕ) → 0 < length l → take 9 l ≡ get_or l 0 0 ∷ take 8 (drop 1 l)
      take_one [] h = absurd (omega arith)
      take_one (y ∷ ys) h = refl

  fields_lem :
      metadata_fields (read_packet c b type fragment payload)
      ≡ take (metadata_size type fragment - 9) xs
  unfolding metadata_fields read_packet metadata_size xs
  fields_lem = ground (
    arith,
    same,
    plain,
    version,
    long,
    take_8_2,
    take_8_2_2,
    take_8_4_4,
    take_1_8,
    room 9,
    room 10,
    room 17,
    room 19,
    room 21,
    store64_take (drop 9 b) (behind 9),
    store64_take (drop 10 b) (behind 10),
    store16_take (drop 17 b) (behind 17),
    store16_take (drop 19 b) (behind 19),
    store32_take (drop 17 b) (behind 17),
    store32_take (drop 21 b) (behind 21),
  )

  pub first_lem :
      let first = get_or b 0 0 in
      type_of (first % 0x20) ≡ some type
      → (first / 0x40 % 2 == 1) ≡ fragment
      → (first / 0x80 % 2 == 1) ≡ c.encrypting
      → (first / 0x20 % 2 == 1) ≡ false
      → first_byte c.encrypting (read_packet c b type fragment payload) ≡ get_or b 0 0
  unfolding first_byte read_packet
  first_lem t f e r =
      ground
        (arith, same, type_byte-type_of (get_or b 0 0 % 0x20) type t, f, e, r, byte_lem b bytes)
    where
      byte_lem : (l : List ℕ) → AreBytes l → get_or l 0 0 < 256
      byte_lem [] v = omega arith
      byte_lem (x ∷ l) v = v.0

  pub metadata_lem :
      first_byte c.encrypting (read_packet c b type fragment payload) ≡ get_or b 0 0
      → 9 ≤ metadata_size type fragment
      → metadata c.encrypting (read_packet c b type fragment payload)
        ≡ take (metadata_size type fragment) b
  unfolding metadata read_packet xs
  metadata_lem first m =
      ap₂ (λ x l. x ∷ l) first
        (ap₂ (λ l k. l ++ k) (store64_take (drop 1 b) (behind 1) (omega (arith, room 1, long, m)))
          fields_lem)
      ∙ sym (whole (metadata_size type fragment) b m (omega (arith, long)))
    where
      whole :
          (n : ℕ) (l : List ℕ)
          → 9 ≤ n
          → 0 < length l
          → take n l ≡ get_or l 0 0 ∷ (take 8 (drop 1 l) ++ take (n - 9) (drop 9 l))
      whole n [] h e = absurd (omega arith)
      whole n (x ∷ l) h e =
          ap (λ k. take k (x ∷ l)) {x = n} {y = suc (8 + (n - 9))} (omega (arith, h))
          ∙ ap (λ t. x ∷ t) (take_add 8 (n - 9) l)

  pub sealed_lem :
      drop (metadata_size type fragment) b
      ≡ take 16 (drop (metadata_size type fragment) b) ++ drop (metadata_size type fragment + 16) b
  sealed_lem =
      sym (take-append-drop 16 (drop (metadata_size type fragment) b))
      ∙ ap (λ l. take 16 (drop (metadata_size type fragment) b) ++ l)
          (drop-drop (metadata_size type fragment) 16 b)
