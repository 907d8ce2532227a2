-- ===== src/SwitchProtocol/Relabel.antt =====
-- The in-place edits of the switch: a new top label, a new opcode.
use tuntom.Base.{
  AreBytes, List, [], ap, append_assoc, arith, drop, drop_at, length, ok, refl, set, some, sym,
  take, ℕ, ◌++◌, ◌+◌, ◌<◌, ◌^◌, ◌∙◌, ◌∷◌, ◌≡◌,
}
use tuntom.Wire.{store_be64, store_be32}
use tuntom.Wire.Laws.{length-store_be64}
use tuntom.SwitchProtocol.{
  Opcode, FrameView, decode_switch_frame, store_labels, write_at, encode_switch_frame,
  replace_top_switch_label, set_switch_opcode,
}
use tuntom.SwitchProtocol.Frame.{frame_bytes, encode_lem, decode_lem, Encodes}
use tuntom.SwitchProtocol.Canonical.{
  Decoded, decoded_lem, frame_labels, Decoded-Encodes, frame_bytes_lem,
}

after_top :
    (op : Opcode) (old : ℕ) (labels payload : List ℕ) (n : ℕ)
    → n ≡ 16
    → drop n (frame_bytes op (old ∷ labels) payload) ≡ store_labels labels ++ payload
unfolding frame_bytes store_be32 store_labels
after_top op old labels payload n e =
    ap (λ k. drop k (frame_bytes op (old ∷ labels) payload)) e
    ∙ ap (drop 8) (append_assoc (store_be64 old) (store_labels labels) payload)
    ∙ drop_at 8 (store_be64 old) (store_labels labels ++ payload) (length-store_be64 old)

written :
    (op : Opcode) (old new : ℕ) (labels payload : List ℕ)
    → write_at 8 (store_be64 new) (frame_bytes op (old ∷ labels) payload)
      ≡ frame_bytes op (new ∷ labels) payload
unfolding write_at
written op old new labels payload =
    rw
      (after_top op old labels payload (8 + length (store_be64 new))
        (omega (arith, length-store_be64 new)))
      (unfold frame_bytes store_be32 store_labels in
        ap (λ t. take 8 (frame_bytes op (old ∷ labels) payload) ++ t)
          (sym (append_assoc (store_be64 new) (store_labels labels) payload)))

-- Relabelling encodes the frame with the new label on top.
replace_lem :
    (op : Opcode) (labels payload : List ℕ) (new : ℕ)
    → Encodes labels payload
    → replace_top_switch_label (frame_bytes op labels payload) new
      ≡ ok (frame_bytes op (set labels 0 new) payload)
unfolding replace_top_switch_label
replace_lem op [] payload new v = absurd (omega (arith, v.some_label))
replace_lem op (old ∷ labels) payload new v =
    rw (decode_lem op (old ∷ labels) payload v, replace_top_switch_label)
      (ap ok (written op old new labels payload))

opcode_lem :
    (op op' : Opcode) (labels payload : List ℕ)
    → Encodes labels payload
    → set_switch_opcode (frame_bytes op labels payload) op' ≡ ok (frame_bytes op' labels payload)
unfolding set_switch_opcode
opcode_lem op op' labels payload v =
    rw (decode_lem op labels payload v, set_switch_opcode) (unfold frame_bytes in refl)

Encodes-set :
    (labels payload : List ℕ) (new : ℕ)
    → new < 2 ^ 64
    → Encodes labels payload
    → Encodes (set labels 0 new) payload
Encodes-set [] payload new h v = v
Encodes-set (l ∷ labels) payload new h v = record {
  some_label = v.some_label;
  few_labels = v.few_labels;
  words = (h, v.words.1);
  some_payload = v.some_payload;
  fits = v.fits;
}

-- An accepted frame is edited into the frame with the new top label, or with the new opcode, and
-- with everything else as it was.
pub edits_lem :
    (bytes : List ℕ) (frame : FrameView) (new : ℕ) (op : Opcode)
    → AreBytes bytes
    → decode_switch_frame bytes ≡ some frame
    → new < 2 ^ 64
    → (replace_top_switch_label bytes new
        ≡ encode_switch_frame frame.opcode (set (frame_labels frame) 0 new) frame.payload)
      × (set_switch_opcode bytes op ≡ encode_switch_frame op (frame_labels frame) frame.payload)
edits_lem bytes frame new op v e h = (
  ap (λ b. replace_top_switch_label b new) (sym same)
      ∙ replace_lem frame.opcode (frame_labels frame) frame.payload new fits
      ∙ sym (
          encode_lem frame.opcode (set (frame_labels frame) 0 new) frame.payload
            (Encodes-set (frame_labels frame) frame.payload new h fits)),
  ap (λ b. set_switch_opcode b op) (sym same)
      ∙ opcode_lem frame.opcode op (frame_labels frame) frame.payload fits
      ∙ sym (encode_lem op (frame_labels frame) frame.payload fits),
)
  where
    d : Decoded bytes frame
    d = decoded_lem bytes frame e

    fits : Encodes (frame_labels frame) frame.payload
    fits = Decoded-Encodes bytes frame v d

    same : frame_bytes frame.opcode (frame_labels frame) frame.payload ≡ bytes
    same = frame_bytes_lem bytes frame v d
