-- ===== src/ProtocolV5/Tests.antt =====
-- The codec with a cipher that changes nothing.
use tuntom.Base.{
  AreBytes, List, [], arith, bytes_equal, bytes_equal→≡, false, if◌then◌else◌, length, none, ok,
  refl, replicate, some, ℕ, ◌%◌, ◌++◌, ◌∷◌, ◌≡◌,
}
use tuntom.Packet.{Packet, user_data, protocol_version_v5}
use tuntom.Wire.{store_be16, store_be64, load_be16, load_be32, load_be64}
use tuntom.Ascon.{Ascon, IsAscon, Authenticates}
use tuntom.ProtocolV5.{
  ProtocolV5, type_byte, type_of, fragmented, metadata_size, first_byte, metadata_fields, metadata,
  seal, encode_into,
}
use tuntom.ProtocolV5.Decode.{
  accepted, admissible, canonical_fragment, check_packet, decode_typed, decode_with_scratch,
  read_packet, unseal,
}
use tuntom.ProtocolV5.Exact.{encode_into-decode_with_scratch}
use tuntom.ProtocolV5.Layout.{seen}
use tuntom.ProtocolV5.Roundtrip.{decode_with_scratch-encode_into}

abbrev length_ascon : Ascon
length_ascon = record {
  mac = λ key id input. replicate 16 (length input % 256);
  encrypt = λ key nonce ad plain. (plain, replicate 16 7);
  decrypt = λ key nonce ad cipher tag. some cipher;
}

length-IsAscon : IsAscon length_ascon
length-IsAscon = record {
  mac_size = λ key id input. refl;
  tag_size = λ key nonce ad plain. refl;
  ciphertext_size = λ key nonce ad plain. refl;
  decrypts = λ key nonce ad plain. refl;
}

abbrev sender : ProtocolV5
sender = record {
  tunnel_id = 7;
  tx_key = replicate 16 1;
  rx_key = replicate 16 2;
  encrypting = false;
}

abbrev receiver : ProtocolV5
receiver = record {
  tunnel_id = 7;
  tx_key = replicate 16 2;
  rx_key = replicate 16 1;
  encrypting = false;
}

-- The second fragment of a packet of ten bytes.
abbrev fragment : Packet
fragment = record {
  type = user_data;
  tunnel_id = 0;
  protocol_version = protocol_version_v5;
  sequence = 5;
  message_id = 9;
  fragment_offset = 8;
  original_length = 10;
  payload = 1 ∷ 2 ∷ [];
}

abbrev fragment_wire : List ℕ
fragment_wire =
    67
    ∷ (replicate 7 0
        ++ (5 ∷ (replicate 7 0 ++ (9 ∷ 0 ∷ 8 ∷ 0 ∷ 10 ∷ (replicate 16 23 ++ (1 ∷ 2 ∷ []))))))

fragment_encoded : encode_into length_ascon sender fragment ≡ ok fragment_wire
unfolding encode_into metadata_size fragmented metadata first_byte type_byte metadata_fields
    store_be16 store_be64 seal
fragment_encoded = refl

decode_with_scratch-encode_into_example :
    decode_with_scratch length_ascon receiver fragment_wire
    ≡ check_packet (seen receiver fragment) (fragmented fragment)
decode_with_scratch-encode_into_example =
    decode_with_scratch-encode_into length_ascon length-IsAscon sender receiver fragment
      fragment_wire (record { same_tunnel = refl; same_key = refl; same_mode = refl }) (omega arith)
      (omega arith) fragment_encoded

-- The same cipher, with the tag checked.
abbrev checking_ascon : Ascon
checking_ascon = record length_ascon {
  decrypt =
      λ key nonce ad cipher tag. if bytes_equal tag (replicate 16 7) then some cipher else none;
}

checking-IsAscon : IsAscon checking_ascon
unfolding bytes_equal
checking-IsAscon = record {
  mac_size = λ key id input. refl;
  tag_size = λ key nonce ad plain. refl;
  ciphertext_size = λ key nonce ad plain. refl;
  decrypts = λ key nonce ad plain. refl;
}

checking-Authenticates : Authenticates checking_ascon
checking-Authenticates = record {
  encrypts =
      λ key nonce ad cipher tag plain l h. ground (arith, h, bytes_equal→≡ tag (replicate 16 7));
}

wire-AreBytes : AreBytes fragment_wire
wire-AreBytes = ground arith

fragment_decoded :
    decode_with_scratch checking_ascon receiver fragment_wire
    ≡ some (record fragment { tunnel_id = 7 })
unfolding decode_with_scratch type_of decode_typed admissible metadata_size unseal read_packet
    check_packet canonical_fragment accepted load_be16 load_be32 load_be64 bytes_equal
fragment_decoded = refl

encode_into-decode_with_scratch_example :
    encode_into checking_ascon sender (record fragment { tunnel_id = 7 }) ≡ ok fragment_wire
encode_into-decode_with_scratch_example =
    encode_into-decode_with_scratch checking_ascon checking-IsAscon checking-Authenticates sender
      receiver fragment_wire (record fragment { tunnel_id = 7 }) wire-AreBytes
      (record { same_tunnel = refl; same_key = refl; same_mode = refl }) fragment_decoded
