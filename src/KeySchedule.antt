-- ===== src/KeySchedule.antt =====
-- src/akdf.hpp, src/x25519.hpp, the direction keys of src/ascon.hpp, and the expansions of
-- src/session.hpp. The Montgomery ladder of the vendored library is a parameter.
use tuntom.Base.{
  Bool, List, Option, [], bytes_equal, if◌then◌else◌, length, none, replicate, some, ℕ, ◌++◌, ◌∷◌,
}
use tuntom.Wire.{store_be64}
use tuntom.Ascon.{Ascon}

-- `crypto_x25519_public_key` and `crypto_x25519`.
pub record X25519 : Type 0 where
  pub public_key : List ℕ → List ℕ
  pub raw_shared : List ℕ → List ℕ → List ℕ

-- `shared`: a result of zeroes is refused.
unfoldable pub shared : X25519 → List ℕ → List ℕ → Option (List ℕ)
shared x secret peer =
    let output = x.raw_shared secret peer in
    if bytes_equal output (replicate 32 0) then none else some output

pub client_to_server : List ℕ
client_to_server =
    b'T' ∷ b'U' ∷ b'N' ∷ b'T' ∷ b'O' ∷ b'M' ∷ b'-' ∷ b'V' ∷ b'4' ∷ b'-' ∷ b'C' ∷ b'L' ∷ b'I' ∷ b'E'
    ∷ b'N' ∷ b'T' ∷ b'-' ∷ b'T' ∷ b'O' ∷ b'-' ∷ b'S' ∷ b'E' ∷ b'R' ∷ b'V' ∷ b'E' ∷ b'R' ∷ []

pub server_to_client : List ℕ
server_to_client =
    b'T' ∷ b'U' ∷ b'N' ∷ b'T' ∷ b'O' ∷ b'M' ∷ b'-' ∷ b'V' ∷ b'4' ∷ b'-' ∷ b'S' ∷ b'E' ∷ b'R' ∷ b'V'
    ∷ b'E' ∷ b'R' ∷ b'-' ∷ b'T' ∷ b'O' ∷ b'-' ∷ b'C' ∷ b'L' ∷ b'I' ∷ b'E' ∷ b'N' ∷ b'T' ∷ []

unfoldable pub derive_direction_key : Ascon → List ℕ → ℕ → Bool → List ℕ
derive_direction_key ascon master id to_server =
    ascon.mac master id (if to_server then client_to_server else server_to_client)

pub extract_label : List ℕ
extract_label =
    b'T' ∷ b'U' ∷ b'N' ∷ b'T' ∷ b'O' ∷ b'M' ∷ b'-' ∷ b'A' ∷ b'K' ∷ b'D' ∷ b'F' ∷ b'-' ∷ b'v' ∷ b'1'
    ∷ b'-' ∷ b'E' ∷ b'X' ∷ b'T' ∷ b'R' ∷ b'A' ∷ b'C' ∷ b'T' ∷ []

-- `akdf::extract`: the label with its NUL, then the secret.
unfoldable pub extract : Ascon → List ℕ → ℕ → List ℕ → List ℕ
extract ascon psk id dh = ascon.mac psk id (extract_label ++ (0 ∷ dh))

-- `akdf::expand`.
unfoldable pub akdf_expand : Ascon → List ℕ → ℕ → List ℕ → List ℕ → List ℕ
akdf_expand ascon prk id label transcript =
    ascon.mac prk id (label ++ (0 ∷ (store_be64 (length transcript) ++ (transcript ++ (1 ∷ [])))))

-- `SessionProtocol::expand`.
unfoldable pub expand : Ascon → List ℕ → ℕ → List ℕ → List ℕ → List ℕ
expand ascon master id label transcript = ascon.mac master id (label ++ (0 ∷ transcript))

pub init_bind_0 : List ℕ
init_bind_0 =
    b'V' ∷ b'4' ∷ b'-' ∷ b'I' ∷ b'N' ∷ b'I' ∷ b'T' ∷ b'-' ∷ b'B' ∷ b'I' ∷ b'N' ∷ b'D' ∷ b'-' ∷ b'0'
    ∷ []

pub init_bind_1 : List ℕ
init_bind_1 =
    b'V' ∷ b'4' ∷ b'-' ∷ b'I' ∷ b'N' ∷ b'I' ∷ b'T' ∷ b'-' ∷ b'B' ∷ b'I' ∷ b'N' ∷ b'D' ∷ b'-' ∷ b'1'
    ∷ []

-- `SessionProtocol::commitment`: 32 bytes that bind a response to its INIT.
unfoldable pub commitment : Ascon → List ℕ → ℕ → List ℕ → List ℕ
commitment ascon master id init =
    expand ascon master id init_bind_0 init ++ expand ascon master id init_bind_1 init

pub akdf_c2s : List ℕ
akdf_c2s =
    b'T' ∷ b'U' ∷ b'N' ∷ b'T' ∷ b'O' ∷ b'M' ∷ b'-' ∷ b'A' ∷ b'K' ∷ b'D' ∷ b'F' ∷ b'-' ∷ b'v' ∷ b'1'
    ∷ b'-' ∷ b'C' ∷ b'2' ∷ b'S' ∷ []

pub akdf_s2c : List ℕ
akdf_s2c =
    b'T' ∷ b'U' ∷ b'N' ∷ b'T' ∷ b'O' ∷ b'M' ∷ b'-' ∷ b'A' ∷ b'K' ∷ b'D' ∷ b'F' ∷ b'-' ∷ b'v' ∷ b'1'
    ∷ b'-' ∷ b'S' ∷ b'2' ∷ b'C' ∷ []

pub akdf_hint : List ℕ
akdf_hint =
    b'T' ∷ b'U' ∷ b'N' ∷ b'T' ∷ b'O' ∷ b'M' ∷ b'-' ∷ b'A' ∷ b'K' ∷ b'D' ∷ b'F' ∷ b'-' ∷ b'v' ∷ b'1'
    ∷ b'-' ∷ b'H' ∷ b'I' ∷ b'N' ∷ b'T' ∷ []

pub session_c2s : List ℕ
session_c2s =
    b'V' ∷ b'4' ∷ b'-' ∷ b'S' ∷ b'E' ∷ b'S' ∷ b'S' ∷ b'I' ∷ b'O' ∷ b'N' ∷ b'-' ∷ b'C' ∷ b'2' ∷ b'S'
    ∷ []

pub session_s2c : List ℕ
session_s2c =
    b'V' ∷ b'4' ∷ b'-' ∷ b'S' ∷ b'E' ∷ b'S' ∷ b'S' ∷ b'I' ∷ b'O' ∷ b'N' ∷ b'-' ∷ b'S' ∷ b'2' ∷ b'C'
    ∷ []

pub session_hint : List ℕ
session_hint =
    b'V' ∷ b'4' ∷ b'-' ∷ b'S' ∷ b'E' ∷ b'S' ∷ b'S' ∷ b'I' ∷ b'O' ∷ b'N' ∷ b'-' ∷ b'H' ∷ b'I' ∷ b'N'
    ∷ b'T' ∷ []

-- The keys of a session for the two directions, and the hint that names it on the wire.
pub record SessionKeys : Type 0 where
  pub c2s : List ℕ
  pub s2c : List ℕ
  pub hint : List ℕ

-- The expansions of `SessionProtocol::derive`: with PFS from the DH secret, else from the master key.
unfoldable pub derive_keys : Ascon → List ℕ → ℕ → Bool → List ℕ → List ℕ → SessionKeys
derive_keys ascon master id pfs transcript dh =
    let prk = extract ascon master id dh in
    if pfs
    then record {
      c2s = akdf_expand ascon prk id akdf_c2s transcript;
      s2c = akdf_expand ascon prk id akdf_s2c transcript;
      hint = akdf_expand ascon prk id akdf_hint transcript;
    }
    else record {
      c2s = expand ascon master id session_c2s transcript;
      s2c = expand ascon master id session_s2c transcript;
      hint = expand ascon master id session_hint transcript;
    }
