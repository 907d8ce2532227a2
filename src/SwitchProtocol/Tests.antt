-- ===== src/SwitchProtocol/Tests.antt =====
-- Frames and records on concrete bytes, and the theorems at them.
use tuntom.Base.{List, [], arith, get_elem?, ok, refl, set, some, ℕ, ◌↔◌, ◌∷◌, ◌≡◌}
use tuntom.Wire.{store_be64, load_be64, load_be32, store_be32}
use tuntom.SwitchProtocol.{
  switch_packet, exit_packet, opcode_of, FrameView, label, decode_switch_frame, encode_switch_frame,
  encode_switch_registration, decode_switch_registration, printable, replace_top_switch_label,
  set_switch_opcode,
}
use tuntom.SwitchProtocol.Frame.{decode-encode}
use tuntom.SwitchProtocol.Canonical.{frame_labels, encode-decode}
use tuntom.SwitchProtocol.Registration.{registration_iff}
use tuntom.SwitchProtocol.Relabel.{edits_lem}

abbrev frame_wire : List ℕ
frame_wire = 1 ∷ 2 ∷ 0 ∷ 1 ∷ 0 ∷ 0 ∷ 0 ∷ 18 ∷ 0 ∷ 0 ∷ 0 ∷ 0 ∷ 0 ∷ 0 ∷ 1 ∷ 7 ∷ 69 ∷ 70 ∷ []

abbrev frame_view : FrameView
frame_view = record {
  opcode = exit_packet;
  labels = 0 ∷ 0 ∷ 0 ∷ 0 ∷ 0 ∷ 0 ∷ 1 ∷ 7 ∷ 69 ∷ 70 ∷ [];
  label_count = 1;
  payload = 69 ∷ 70 ∷ [];
  payload_size = 2;
}

encode_runs : encode_switch_frame exit_packet (263 ∷ []) (69 ∷ 70 ∷ []) ≡ ok frame_wire
unfolding encode_switch_frame store_be32 store_be64
encode_runs = refl

decode_runs : decode_switch_frame frame_wire ≡ some frame_view
unfolding decode_switch_frame load_be32 opcode_of
decode_runs = refl

label_runs : label frame_view 0 ≡ some 263
unfolding label load_be64
label_runs = refl

decode-encode_example :
    (bytes : List ℕ) × (frame : FrameView) × (encode_switch_frame exit_packet
        (263 ∷ [])
        (69 ∷ 70 ∷ [])
      ≡ ok bytes)
    × (decode_switch_frame bytes ≡ some frame)
    × (frame.opcode ≡ exit_packet)
    × (frame.payload ≡ 69 ∷ 70 ∷ [])
    × (frame.label_count ≡ 1)
    × ((i : ℕ) → label frame i ≡ get_elem? (263 ∷ []) i)
decode-encode_example = decode-encode exit_packet (263 ∷ []) (69 ∷ 70 ∷ []) (omega arith)

encode-decode_example :
    encode_switch_frame exit_packet (frame_labels frame_view) (69 ∷ 70 ∷ []) ≡ ok frame_wire
encode-decode_example = encode-decode frame_wire frame_view (omega arith) decode_runs

edits_lem_example :
    (replace_top_switch_label frame_wire 9
      ≡ encode_switch_frame exit_packet (set (frame_labels frame_view) 0 9) (69 ∷ 70 ∷ []))
    × (set_switch_opcode frame_wire switch_packet
        ≡ encode_switch_frame switch_packet (frame_labels frame_view) (69 ∷ 70 ∷ []))
edits_lem_example =
    edits_lem frame_wire frame_view 9 switch_packet (omega arith) decode_runs (omega arith)

registration_iff_example :
    (decode_switch_registration (b'T' ∷ b'T' ∷ b'P' ∷ 1 ∷ 1 ∷ 0 ∷ 0 ∷ 0 ∷ b'a' ∷ [])
      ≡ some (b'a' ∷ []))
    ↔ (encode_switch_registration (b'a' ∷ [])
        ≡ ok (b'T' ∷ b'T' ∷ b'P' ∷ 1 ∷ 1 ∷ 0 ∷ 0 ∷ 0 ∷ b'a' ∷ []))
registration_iff_example = registration_iff (b'a' ∷ []) _

registration_runs :
    encode_switch_registration (b'a' ∷ []) ≡ ok (b'T' ∷ b'T' ∷ b'P' ∷ 1 ∷ 1 ∷ 0 ∷ 0 ∷ 0 ∷ b'a' ∷ [])
unfolding encode_switch_registration printable
registration_runs = refl
