-- ===== src/V5Extension/Tests.antt =====
-- A challenge, and the theorem at it.
use tuntom.Base.{[], arith, some, ◌∷◌, ◌≡◌}
use tuntom.V5Extension.{AuthChallenge, encode_challenge, decode_challenge}
use tuntom.V5Extension.Roundtrip.{decode-encode_challenge}

abbrev challenge : AuthChallenge
challenge = record { id = 258; lifetime_seconds = 30; challenge = 7 ∷ 8 ∷ 9 ∷ [] }

decode-encode_challenge_example : decode_challenge (encode_challenge challenge) ≡ some challenge
decode-encode_challenge_example =
    decode-encode_challenge challenge (omega arith) (omega arith) (omega arith) (omega arith)
      (omega arith)
