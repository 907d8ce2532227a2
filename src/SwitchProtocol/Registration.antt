-- ===== src/SwitchProtocol/Registration.antt =====
-- Registration records: the decoder accepts exactly what the encoder produces.
use tuntom.Base.{
  List, [], ap, arith, length, length-take, ok, refl, some, suc, take, zero, ℕ, ◌↔◌, ◌∷◌, ◌≡◌,
}
use tuntom.SwitchProtocol.{encode_switch_registration, decode_switch_registration}

take_whole : (n : ℕ) (xs : List ℕ) → length xs ≡ n → take n xs ≡ xs
take_whole zero [] e = refl
take_whole zero (x ∷ xs) e = absurd (omega arith)
take_whole (suc n) [] e = refl
take_whole (suc n) (x ∷ xs) e = ap (◌∷◌ x) (take_whole n xs (omega arith))

decode_encoded :
    (port_id bytes : List ℕ)
    → encode_switch_registration port_id ≡ ok bytes
    → decode_switch_registration bytes ≡ some port_id
unfolding encode_switch_registration decode_switch_registration
decode_encoded port_id bytes e = ground (arith, take_whole (length port_id) port_id)

encode_decoded :
    (port_id bytes : List ℕ)
    → decode_switch_registration bytes ≡ some port_id
    → encode_switch_registration port_id ≡ ok bytes
unfolding encode_switch_registration decode_switch_registration
encode_decoded port_id (a ∷ b ∷ c ∷ d ∷ e ∷ f ∷ g ∷ h ∷ rest) eq =
    ground (arith, take_whole e rest, length-take e rest)
encode_decoded port_id _ eq = ground arith

-- A record decodes to a port name exactly when it is the encoding of that name.
pub registration_iff :
    (port_id bytes : List ℕ)
    → (decode_switch_registration bytes ≡ some port_id)
      ↔ (encode_switch_registration port_id ≡ ok bytes)
registration_iff port_id bytes = (encode_decoded port_id bytes, decode_encoded port_id bytes)
