-- ===== src/SwitchProtocol/Frame.antt =====
-- Label frames: decoding after encoding, and encoding after decoding.
use tuntom.Base.{
  All, List, [], ap, append_assoc, arith, dec_lt, drop, drop_at, drop_past, get_elem?, get_or,
  length, length-append, none, ok, refl, some, suc, sym, zero, ℕ, ◌*◌, ◌++◌, ◌+◌, ◌<◌, ◌^◌, ◌∙◌,
  ◌∷◌, ◌≡◌, ◌≤◌,
}
use tuntom.Wire.{store_be64, load_be64, load_be32, store_be32}
use tuntom.Wire.Laws.{load_be32-store_be32, length-store_be64, load_be64-store_be64}
use tuntom.SwitchProtocol.{
  Opcode, switch_packet, exit_packet, opcode_byte, opcode_of, FrameView, label, max_labels,
  decode_switch_frame, store_labels, encode_switch_frame, protocol_version,
}

-- What `encode_switch_header` asks of its arguments.
pub record Encodes (labels payload : List ℕ) : Type 0 where
  pub some_label : 0 < length labels
  pub few_labels : length labels ≤ max_labels
  pub words : All (λ l. l < 2 ^ 64) labels
  pub some_payload : 0 < length payload
  pub fits : 8 + length labels * 8 + length payload < 2 ^ 32

-- The bytes of a frame.
unfoldable pub frame_bytes : Opcode → List ℕ → List ℕ → List ℕ
frame_bytes op labels payload =
    (protocol_version
      ∷ opcode_byte op
      ∷ 0
      ∷ length labels
      ∷ (store_be32 (8 + length labels * 8 + length payload) ++ store_labels labels))
    ++ payload

pub encode_lem :
    (op : Opcode) (labels payload : List ℕ)
    → Encodes labels payload
    → encode_switch_frame op labels payload ≡ ok (frame_bytes op labels payload)
unfolding encode_switch_frame frame_bytes
encode_lem op labels payload v = ground arith

pub length-store_labels : (labels : List ℕ) → length (store_labels labels) ≡ length labels * 8
unfolding store_labels
length-store_labels [] = omega arith
length-store_labels (l ∷ ls) = omega (
  arith,
  length-append (store_be64 l) (store_labels ls),
  length-store_be64 l,
  length-store_labels ls,
)

-- Each stored label is loaded from its place.
load-store_labels :
    (labels rest : List ℕ) (i : ℕ)
    → All (λ l. l < 2 ^ 64) labels
    → i < length labels
    → get_elem? labels i ≡ some (load_be64 (drop (i * 8) (store_labels labels ++ rest)))
unfolding store_labels
load-store_labels [] rest i v h = elim h [ ]
load-store_labels (l ∷ ls) rest zero v h =
    rw (append_assoc (store_be64 l) (store_labels ls) rest)
      (ap some (sym (load_be64-store_be64 l (store_labels ls ++ rest) v.0)))
load-store_labels (l ∷ ls) rest (suc i) v h =
    rw (append_assoc (store_be64 l) (store_labels ls) rest) (
      load-store_labels ls rest i v.1 (omega arith)
      ∙ ap (λ bytes. some (load_be64 bytes))
          (sym (
            drop_past (suc i * 8) (i * 8) (store_be64 l) (store_labels ls ++ rest)
              (omega (arith, length-store_be64 l)))))

length-frame_bytes :
    (op : Opcode) (labels payload : List ℕ)
    → length (frame_bytes op labels payload) ≡ 8 + length labels * 8 + length payload
unfolding frame_bytes store_be32
length-frame_bytes op labels payload =
    omega (arith, length-append (store_labels labels) payload, length-store_labels labels)

-- The view of a frame.
pub view : Opcode → List ℕ → List ℕ → FrameView
view op labels payload = record {
  opcode = op;
  labels = store_labels labels ++ payload;
  label_count = length labels;
  payload = payload;
  payload_size = length payload;
}

opcode_of-opcode_byte : (op : Opcode) → opcode_of (opcode_byte op) ≡ some op
unfolding opcode_of
opcode_of-opcode_byte switch_packet = refl
opcode_of-opcode_byte exit_packet = refl

module _ (op : Opcode) (labels payload : List ℕ) where
  total_length :
      8 + length labels * 8 + length payload < 2 ^ 32
      → load_be32 (drop 4 (frame_bytes op labels payload)) ≡ 8 + length labels * 8 + length payload
  unfolding frame_bytes store_be32
  total_length h =
      load_be32-store_be32 (8 + length labels * 8 + length payload) (store_labels labels ++ payload)
        h

  payload_start : drop (8 + length labels * 8) (frame_bytes op labels payload) ≡ payload
  unfolding frame_bytes store_be32
  payload_start =
      drop_at (8 + length labels * 8)
        (protocol_version
          ∷ opcode_byte op
          ∷ 0
          ∷ length labels
          ∷ (store_be32 (8 + length labels * 8 + length payload) ++ store_labels labels))
        payload (omega (arith, length-store_labels labels))

  header_fields :
      (get_or (frame_bytes op labels payload) 0 0 ≡ protocol_version)
      × (get_or (frame_bytes op labels payload) 1 0 ≡ opcode_byte op)
      × (get_or (frame_bytes op labels payload) 2 0 ≡ 0)
      × (get_or (frame_bytes op labels payload) 3 0 ≡ length labels)
      × (drop 8 (frame_bytes op labels payload) ≡ store_labels labels ++ payload)
  unfolding frame_bytes store_be32
  header_fields = (refl, refl, refl, refl, refl)

pub decode_lem :
    (op : Opcode) (labels payload : List ℕ)
    → Encodes labels payload
    → decode_switch_frame (frame_bytes op labels payload) ≡ some (view op labels payload)
unfolding decode_switch_frame view
decode_lem op labels payload v = ground (
  arith,
  header_fields op labels payload,
  total_length op labels payload v.fits,
  payload_start op labels payload,
  length-frame_bytes op labels payload,
  opcode_of-opcode_byte op,
)

get_elem?_out : (labels : List ℕ) (i : ℕ) → length labels ≤ i → get_elem? labels i ≡ none
get_elem?_out [] i h = refl
get_elem?_out (l ∷ ls) zero h = elim h [ ]
get_elem?_out (l ∷ ls) (suc i) h = get_elem?_out ls i (omega arith)

pub label_lem :
    (op : Opcode) (labels payload : List ℕ)
    → All (λ l. l < 2 ^ 64) labels
    → (i : ℕ) → label (view op labels payload) i ≡ get_elem? labels i
unfolding label view
label_lem op labels payload v i = elim (dec_lt i (length labels)) [
  | yes h ↦ ground (arith, load-store_labels labels payload i v h)
  | no h ↦ ground (arith, get_elem?_out labels i)
]

-- A decoded frame is the encoded one: the opcode, the payload, and every label by its index.
pub decode-encode :
    (op : Opcode) (labels payload : List ℕ)
    → Encodes labels payload
    → (bytes : List ℕ) × (frame : FrameView) × (encode_switch_frame op labels payload ≡ ok bytes)
      × (decode_switch_frame bytes ≡ some frame)
      × (frame.opcode ≡ op)
      × (frame.payload ≡ payload)
      × (frame.label_count ≡ length labels)
      × ((i : ℕ) → label frame i ≡ get_elem? labels i)
unfolding view
decode-encode op labels payload v = (
  frame_bytes op labels payload,
  view op labels payload,
  encode_lem op labels payload v,
  decode_lem op labels payload v,
  refl,
  refl,
  refl,
  label_lem op labels payload v.words,
)
