-- ===== src/Relay/Records.antt =====
-- A record that one end of a relay encodes, decoded by the other.
use tuntom.Base.{
  List, ap, append_assoc, arith, drop, drop-drop, drop_at, length, length-append, length-drop, refl,
  some, sym, ℕ, ◌++◌, ◌+◌, ◌<◌, ◌^◌, ◌∙◌, ◌∷◌, ◌≡◌, ◌≤◌,
}
use tuntom.Wire.{store_be32, load_be32, store_be64, load_be64}
use tuntom.Wire.Laws.{load_be32-store_be32, length-store_be64, load_be64-store_be64}
use tuntom.Relay.{
  header_size, frame_limit, RecordType, payload_data, type_byte, type_of, marked, accept_view,
  decode, header, encode, wrap,
}

-- What follows the eight bytes that name the record.
fields : ℕ → ℕ → ℕ → List ℕ → List ℕ
fields channel epoch size payload =
    store_be32 channel
    ++ (store_be32 (header_size + size) ++ (store_be64 epoch ++ (store_be64 0 ++ payload)))

header-fields :
    (kind : RecordType) (channel epoch size : ℕ) (payload : List ℕ)
    → header kind channel epoch size ++ payload
      ≡ b'T' ∷ b'T' ∷ b'R' ∷ 1 ∷ type_byte kind ∷ 0 ∷ 0 ∷ 0 ∷ fields channel epoch size payload
unfolding header fields
header-fields kind channel epoch size payload = simp append_assoc refl

-- The places of the fields.
module _ (channel epoch size : ℕ) (payload : List ℕ) where
  drop_4 :
      drop 4 (fields channel epoch size payload)
      ≡ store_be32 (header_size + size) ++ (store_be64 epoch ++ (store_be64 0 ++ payload))
  unfolding fields
  drop_4 = drop_at 4 (store_be32 channel) _ (unfold store_be32 in refl)

  drop_8 :
      drop 8 (fields channel epoch size payload) ≡ store_be64 epoch ++ (store_be64 0 ++ payload)
  drop_8 =
      sym (drop-drop 4 4 (fields channel epoch size payload))
      ∙ ap (drop 4) drop_4
      ∙ drop_at 4 (store_be32 (header_size + size)) _ (unfold store_be32 in refl)

  drop_16 : drop 16 (fields channel epoch size payload) ≡ store_be64 0 ++ payload
  drop_16 =
      sym (drop-drop 8 8 (fields channel epoch size payload))
      ∙ ap (drop 8) drop_8
      ∙ drop_at 8 (store_be64 epoch) (store_be64 0 ++ payload) (length-store_be64 epoch)

  drop_24 : drop 24 (fields channel epoch size payload) ≡ payload
  drop_24 =
      sym (drop-drop 16 8 (fields channel epoch size payload))
      ∙ ap (drop 8) drop_16
      ∙ drop_at 8 (store_be64 0) payload (length-store_be64 0)

  length-fields : length (fields channel epoch size payload) ≡ 24 + length payload
  length-fields =
      omega (arith, ap length drop_24, length-drop 24 (fields channel epoch size payload), long)
    where
      long : 24 ≤ length (fields channel epoch size payload)
      long =
          unfold fields in
          unfold store_be32 in
          omega (
            arith,
            length-append (store_be64 epoch) (store_be64 0 ++ payload),
            length-append (store_be64 0) payload,
            length-store_be64 epoch,
            length-store_be64 0,
          )

type_of-type_byte : (kind : RecordType) → type_of (type_byte kind) ≡ some kind
unfolding type_of type_byte
type_of-type_byte kind = ground arith

read_record :
    (kind : RecordType) (channel epoch : ℕ) (payload rest : List ℕ)
    → length rest ≡ 24 + length payload
    → load_be32 rest ≡ channel
    → load_be32 (drop 4 rest) ≡ header_size + length payload
    → load_be64 (drop 8 rest) ≡ epoch
    → load_be64 (drop 16 rest) ≡ 0
    → drop 24 rest ≡ payload
    → length payload ≤ frame_limit
    → decode (b'T' ∷ b'T' ∷ b'R' ∷ 1 ∷ type_byte kind ∷ 0 ∷ 0 ∷ 0 ∷ rest)
      ≡ accept_view
          (record { kind = kind; channel = channel; epoch = epoch; owner = 0; payload = payload })
unfolding decode marked
read_record kind channel epoch payload rest l c n e o p short =
    ground (arith, l, c, n, e, o, p, short, type_of-type_byte kind)

decode-header :
    (kind : RecordType) (channel epoch : ℕ) (payload : List ℕ)
    → channel < 2 ^ 32
    → epoch < 2 ^ 64
    → length payload ≤ frame_limit
    → decode (header kind channel epoch (length payload) ++ payload)
      ≡ accept_view
          (record { kind = kind; channel = channel; epoch = epoch; owner = 0; payload = payload })
decode-header kind channel epoch payload c e short =
    let n : ℕ = length payload in
    rw (header-fields kind channel epoch n payload) (
      read_record kind channel epoch payload (fields channel epoch n payload)
        (length-fields channel epoch n payload) (unfold fields in load_be32-store_be32 channel _ c)
        (ap load_be32 (drop_4 channel epoch n payload)
          ∙ load_be32-store_be32 (header_size + n) _ (omega (arith, short)))
        (ap load_be64 (drop_8 channel epoch n payload) ∙ load_be64-store_be64 epoch _ e)
        (ap load_be64 (drop_16 channel epoch n payload)
          ∙ load_be64-store_be64 0 payload (omega arith))
        (drop_24 channel epoch n payload) short)

-- A record that is encoded is decoded to its type, channel, epoch and payload, with no owner, where it
-- meets the conditions of its type, and to nothing where it does not.
pub decode-encode_record :
    (kind : RecordType) (channel epoch : ℕ) (payload b : List ℕ)
    → channel < 2 ^ 32
    → epoch < 2 ^ 64
    → encode kind channel epoch payload ≡ some b
    → decode b
      ≡ accept_view
          (record { kind = kind; channel = channel; epoch = epoch; owner = 0; payload = payload })
decode-encode_record kind channel epoch payload b c e h =
    let (short, shape) = encoded_lem in
    rw shape (decode-header kind channel epoch payload c e short)
  where
    encoded_lem :
        (length payload ≤ frame_limit) × (b ≡ header kind channel epoch (length payload) ++ payload)
    encoded_lem = unfold encode in ground (arith, h)

-- A frame that is wrapped in a buffer is decoded as the record of data that it is.
pub decode-wrap :
    (channel epoch capacity : ℕ) (frame b : List ℕ)
    → channel < 2 ^ 32
    → epoch < 2 ^ 64
    → wrap frame capacity channel epoch ≡ some b
    → (decode b
        ≡ accept_view (record {
          kind = payload_data;
          channel = channel;
          epoch = epoch;
          owner = 0;
          payload = frame;
        }))
      × (length b ≤ capacity)
decode-wrap channel epoch capacity frame b c e h =
    let (short, room, shape) = wrapped_lem in
    rw shape (
      decode-header payload_data channel epoch frame c e short,
      omega (arith, room, length_wrapped),
    )
  where
    wrapped_lem :
        (length frame ≤ frame_limit)
        × (length frame + header_size ≤ capacity)
        × (b ≡ header payload_data channel epoch (length frame) ++ frame)
    wrapped_lem = unfold wrap in ground (arith, h)

    length_wrapped :
        length (header payload_data channel epoch (length frame) ++ frame)
        ≡ length frame + header_size
    length_wrapped =
        ap length (header-fields payload_data channel epoch (length frame) frame)
        ∙ omega (arith, length-fields channel epoch (length frame) frame)
