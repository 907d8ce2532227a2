-- ===== src/SwitchProtocol.antt =====
-- src/ipc/switch_protocol.hpp: registration records and label frames between a tunnel, an adapter
-- and the switch. A decoder's `false` is `none`; what a function throws is an `err`. A pointer into
-- the received bytes is the rest of the list.
pub mod Frame
pub mod Canonical
pub mod Registration
pub mod Relabel
mod Tests
use tuntom.Base.{
  Bool, List, Option, Result, [], drop, err, get_or, if◌then◌else◌, length, ltb, none, not, ok, set,
  some, take, true, ℕ, ◌&&◌, ◌*◌, ◌++◌, ◌+◌, ◌-◌, ◌==◌, ◌>>=◌, ◌||◌, ◌∷◌,
}
use tuntom.Wire.{store_be64, load_be64, load_be32, store_be32}

abbrev pub protocol_version : ℕ
protocol_version = 1

abbrev pub base_header_size : ℕ
base_header_size = 8

abbrev pub label_size : ℕ
label_size = 8

abbrev pub max_labels : ℕ
max_labels = 8

abbrev pub max_port_id_size : ℕ
max_port_id_size = 63

pub data Opcode : Type 0 where
  switch_packet exit_packet : Opcode

abbrev pub opcode_byte : Opcode → ℕ
opcode_byte switch_packet = 1
opcode_byte exit_packet = 2

-- The cast from a byte, with the check that follows it.
unfoldable pub opcode_of : ℕ → Option Opcode
opcode_of b = if b == 1 then some switch_packet else if b == 2 then some exit_packet else none

pub data Error : Type 0 where
  invalid_port_id_length invalid_port_id : Error
  invalid_frame frame_too_large relabel_invalid_frame change_invalid_frame : Error

-- Printable ASCII without the space.
unfoldable pub printable : ℕ → Bool
printable b = not (ltb b 0x21 || ltb 0x7e b)

pub all_printable : List ℕ → Bool
all_printable [] = true
all_printable (b ∷ bs) = printable b && all_printable bs

unfoldable pub encode_switch_registration : List ℕ → Result Error (List ℕ)
unfolding all_printable
encode_switch_registration port_id =
    if length port_id == 0 || ltb max_port_id_size (length port_id)
    then err invalid_port_id_length
    else if not (all_printable port_id)
    then err invalid_port_id
    else ok (b'T' ∷ b'T' ∷ b'P' ∷ protocol_version ∷ length port_id ∷ 0 ∷ 0 ∷ 0 ∷ port_id)

unfoldable pub decode_switch_registration : List ℕ → Option (List ℕ)
unfolding all_printable
decode_switch_registration bytes =
    if ltb (length bytes) 8
      || not (get_or bytes 0 0 == b'T')
      || not (get_or bytes 1 0 == b'T')
      || not (get_or bytes 2 0 == b'P')
      || not (get_or bytes 3 0 == protocol_version)
      || not (get_or bytes 5 0 == 0)
      || not (get_or bytes 6 0 == 0)
      || not (get_or bytes 7 0 == 0)
    then none
    else (let id_size = get_or bytes 4 0 in
        if id_size == 0 || ltb max_port_id_size id_size || not (length bytes == 8 + id_size)
        then none
        else if all_printable (take id_size (drop 8 bytes))
        then some (take id_size (drop 8 bytes))
        else none)

-- `labels` and `payload` point into the frame.
pub record FrameView : Type 0 where
  pub opcode : Opcode
  pub labels : List ℕ
  pub label_count : ℕ
  pub payload : List ℕ
  pub payload_size : ℕ

-- `SwitchFrameView::label`; out of range it throws.
unfoldable pub label : FrameView → ℕ → Option ℕ
label frame index =
    if ltb index frame.label_count
    then some (load_be64 (drop (index * label_size) frame.labels))
    else none

unfoldable pub decode_switch_frame : List ℕ → Option FrameView
decode_switch_frame bytes =
    if ltb (length bytes) base_header_size
      || not (get_or bytes 0 0 == protocol_version)
      || not (get_or bytes 2 0 == 0)
    then none
    else elim (opcode_of (get_or bytes 1 0)) [
      | none ↦ none
      | some op ↦
          let count = get_or bytes 3 0 in
          let header_size = base_header_size + count * label_size in
          if count == 0 || ltb max_labels count
          then none
          else if not (load_be32 (drop 4 bytes) == length bytes) || ltb (length bytes) header_size
          then none
          else if length bytes - header_size == 0
          then none
          else some (record {
            opcode = op;
            labels = drop base_header_size bytes;
            label_count = count;
            payload = drop header_size bytes;
            payload_size = length bytes - header_size;
          })
    ]

pub store_labels : List ℕ → List ℕ
store_labels [] = []
store_labels (l ∷ ls) = store_be64 l ++ store_labels ls

-- The bytes that `encode_switch_header` writes, from the first on; their number is its result.
unfoldable pub encode_switch_header : Opcode → List ℕ → ℕ → Result Error (List ℕ)
unfolding store_labels
encode_switch_header op labels payload_size =
    let header_size = base_header_size + length labels * label_size in
    if length labels == 0 || ltb max_labels (length labels) || payload_size == 0
    then err invalid_frame
    else if ltb (0xffff_ffff - header_size) payload_size
    then err frame_too_large
    else ok (
        protocol_version
        ∷ opcode_byte op
        ∷ 0
        ∷ length labels
        ∷ (store_be32 (header_size + payload_size) ++ store_labels labels))

unfoldable pub encode_switch_frame : Opcode → List ℕ → List ℕ → Result Error (List ℕ)
unfolding encode_switch_header
encode_switch_frame op labels payload =
    encode_switch_header op labels (length payload) >>= λ header. ok (header ++ payload)

-- Overwrites the bytes from `at` on.
pub write_at : ℕ → List ℕ → List ℕ → List ℕ
write_at at new bytes = take at bytes ++ (new ++ drop (at + length new) bytes)

unfoldable pub replace_top_switch_label : List ℕ → ℕ → Result Error (List ℕ)
unfolding write_at
replace_top_switch_label frame label = elim (decode_switch_frame frame) [
  | none ↦ err relabel_invalid_frame
  | some _ ↦ ok (write_at base_header_size (store_be64 label) frame)
]

unfoldable pub set_switch_opcode : List ℕ → Opcode → Result Error (List ℕ)
set_switch_opcode frame op = elim (decode_switch_frame frame) [
  | none ↦ err change_invalid_frame
  | some _ ↦ ok (set frame 1 (opcode_byte op))
]
