-- ===== src/SwitchProtocol/Canonical.antt =====
-- Every accepted frame has one encoding: encoding what was decoded gives the bytes back.
use tuntom.Base.{
  All, All-drop, AreBytes, List, [], ap, arith, drop, drop_past, get_or, length, length-drop, ok,
  refl, some, subst, suc, sym, zero, ℕ, ◌*◌, ◌++◌, ◌+◌, ◌-◌, ◌<◌, ◌^◌, ◌∙◌, ◌∷◌, ◌≡◌, ◌≤◌,
}
use tuntom.Wire.{load_be64, load_be32, store_be32}
use tuntom.Wire.Laws.{store_be64-load_be64, store_be32-load_be32, load_be64-lt, load_be32-lt}
use tuntom.SwitchProtocol.{
  Opcode, switch_packet, exit_packet, opcode_byte, opcode_of, FrameView, max_labels,
  decode_switch_frame, store_labels, encode_switch_frame, protocol_version,
}
use tuntom.SwitchProtocol.Frame.{frame_bytes, encode_lem, Encodes}

-- The labels that a view gives by index.
pub load_labels : ℕ → List ℕ → List ℕ
load_labels zero bytes = []
load_labels (suc n) bytes = load_be64 bytes ∷ load_labels n (drop 8 bytes)

-- What a decoder that succeeds has checked.
pub record Decoded (bytes : List ℕ) (frame : FrameView) : Type 0 where
  pub long : 8 ≤ length bytes
  pub version : get_or bytes 0 0 ≡ protocol_version
  pub known : opcode_of (get_or bytes 1 0) ≡ some frame.opcode
  pub reserved : get_or bytes 2 0 ≡ 0
  pub count : frame.label_count ≡ get_or bytes 3 0
  pub positive : 0 < frame.label_count
  pub few : frame.label_count ≤ max_labels
  pub total : load_be32 (drop 4 bytes) ≡ length bytes
  pub payload_room : 8 + frame.label_count * 8 < length bytes
  pub labels : frame.labels ≡ drop 8 bytes
  pub payload : frame.payload ≡ drop (8 + frame.label_count * 8) bytes
  pub payload_size : frame.payload_size ≡ length bytes - (8 + frame.label_count * 8)

pub decoded_lem :
    (bytes : List ℕ) (frame : FrameView)
    → decode_switch_frame bytes ≡ some frame
    → Decoded bytes frame
unfolding decode_switch_frame
decoded_lem bytes frame e = ground arith

load_labels-words :
    (n : ℕ) (bytes : List ℕ) → AreBytes bytes → All (λ l. l < 2 ^ 64) (load_labels n bytes)
unfolding load_labels
load_labels-words zero bytes v = tt
load_labels-words (suc n) bytes v =
    (load_be64-lt bytes v, load_labels-words n (drop 8 bytes) (All-drop _ 8 bytes v))

store_labels-load_labels :
    (n : ℕ) (bytes : List ℕ)
    → AreBytes bytes
    → n * 8 ≤ length bytes
    → store_labels (load_labels n bytes) ++ drop (n * 8) bytes ≡ bytes
unfolding store_labels load_labels
store_labels-load_labels zero bytes v h = refl
store_labels-load_labels (suc n) (a ∷ b ∷ c ∷ d ∷ e ∷ f ∷ g ∷ i ∷ rest) v h =
    rw
      (
        store_be64-load_be64 a b c d e f g i rest v,
        drop_past (suc n * 8) (n * 8) (a ∷ b ∷ c ∷ d ∷ e ∷ f ∷ g ∷ i ∷ []) rest (omega arith),
      )
      (ap (λ t. a ∷ b ∷ c ∷ d ∷ e ∷ f ∷ g ∷ i ∷ t)
        (store_labels-load_labels n rest v.1.1.1.1.1.1.1.1 (omega arith)))
store_labels-load_labels (suc n) _ v h = absurd (omega arith)

length-load_labels : (n : ℕ) (bytes : List ℕ) → length (load_labels n bytes) ≡ n
unfolding load_labels
length-load_labels zero bytes = refl
length-load_labels (suc n) bytes = ap suc (length-load_labels n (drop 8 bytes))

-- The labels of a view, in order.
abbrev pub frame_labels : FrameView → List ℕ
frame_labels frame = load_labels frame.label_count frame.labels

opcode_byte-opcode_of : (b : ℕ) (op : Opcode) → opcode_of b ≡ some op → opcode_byte op ≡ b
unfolding opcode_of
opcode_byte-opcode_of b switch_packet e = ground arith
opcode_byte-opcode_of b exit_packet e = ground arith

payload_length :
    (bytes : List ℕ) (frame : FrameView)
    → Decoded bytes frame
    → length frame.payload ≡ length bytes - (8 + frame.label_count * 8)
payload_length bytes frame d = ap length d.payload ∙ length-drop (8 + frame.label_count * 8) bytes

pub Decoded-Encodes :
    (bytes : List ℕ) (frame : FrameView)
    → AreBytes bytes
    → Decoded bytes frame
    → Encodes (frame_labels frame) frame.payload
Decoded-Encodes bytes frame v d = record {
  some_label = omega (arith, length-load_labels frame.label_count frame.labels, d.positive);
  few_labels = omega (arith, length-load_labels frame.label_count frame.labels, d.few);
  words =
      load_labels-words frame.label_count frame.labels
        (subst AreBytes (sym d.labels) (All-drop _ 8 bytes v));
  some_payload = omega (arith, payload_length bytes frame d, d.payload_room);
  fits = omega (
    arith,
    payload_length bytes frame d,
    d.payload_room,
    d.total,
    load_be32-lt (drop 4 bytes) (All-drop _ 4 bytes v),
    length-load_labels frame.label_count frame.labels,
  );
}

pub frame_bytes_lem :
    (bytes : List ℕ) (frame : FrameView)
    → AreBytes bytes
    → Decoded bytes frame
    → frame_bytes frame.opcode (frame_labels frame) frame.payload ≡ bytes
unfolding frame_bytes
frame_bytes_lem (a ∷ b ∷ c ∷ d ∷ e ∷ f ∷ g ∷ h ∷ rest) frame v x =
    rw (size, ← body)
      (ground (
        arith,
        opcode_byte-opcode_of b frame.opcode x.known,
        length-load_labels frame.label_count frame.labels,
        x.version,
        x.reserved,
        x.count,
      ))
  where
    size :
        store_be32 (8 + length (frame_labels frame) * 8 + length frame.payload) ≡ e ∷ f ∷ g ∷ h ∷ []
    size =
        ap store_be32 {y = load_be32 (e ∷ f ∷ g ∷ h ∷ rest)} (
          omega (
            arith,
            payload_length _ frame x,
            x.payload_room,
            x.total,
            length-load_labels frame.label_count frame.labels,
          ))
        ∙ store_be32-load_be32 e f g h rest v.1.1.1.1

    body : store_labels (frame_labels frame) ++ frame.payload ≡ rest
    body =
        rw (x.labels, x.payload)
          (ap (◌++◌ (store_labels (load_labels frame.label_count rest))) (
              drop_past (8 + frame.label_count * 8) (frame.label_count * 8)
                (a ∷ b ∷ c ∷ d ∷ e ∷ f ∷ g ∷ h ∷ []) rest (omega arith))
            ∙ store_labels-load_labels frame.label_count rest v.1.1.1.1.1.1.1.1
                (omega (arith, x.payload_room)))
frame_bytes_lem _ frame v x = absurd (omega (arith, x.long))

-- Encoding what was decoded gives the received bytes back.
pub encode-decode :
    (bytes : List ℕ) (frame : FrameView)
    → AreBytes bytes
    → decode_switch_frame bytes ≡ some frame
    → encode_switch_frame frame.opcode (frame_labels frame) frame.payload ≡ ok bytes
encode-decode bytes frame v e =
    encode_lem frame.opcode (frame_labels frame) frame.payload (Decoded-Encodes bytes frame v d)
    ∙ ap ok (frame_bytes_lem bytes frame v d)
  where
    d : Decoded bytes frame
    d = decoded_lem bytes frame e
