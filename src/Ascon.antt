-- ===== src/Ascon.antt =====
-- The interface of src/ascon.hpp that the codec and the handshake call. A key, a nonce and a tag are
-- byte strings of 16; `decrypt` answers the plaintext where the tag fits.
use tuntom.Base.{List, Option, length, some, ℕ, ◌≡◌}

pub record Ascon : Type 0 where
  -- key, tunnel, input
  pub mac : List ℕ → ℕ → List ℕ → List ℕ
  -- key, nonce, associated data, plaintext; the ciphertext and the tag
  pub encrypt : List ℕ → List ℕ → List ℕ → List ℕ → List ℕ × List ℕ
  -- key, nonce, associated data, ciphertext, tag
  pub decrypt : List ℕ → List ℕ → List ℕ → List ℕ → List ℕ → Option (List ℕ)

-- The sizes that the code writes into its buffers, and that decryption undoes encryption.
pub record IsAscon (a : Ascon) : Type 0 where
  pub mac_size : (key : List ℕ) (id : ℕ) (input : List ℕ) → length (a.mac key id input) ≡ 16
  pub tag_size : (key nonce ad plain : List ℕ) → length (a.encrypt key nonce ad plain).1 ≡ 16
  pub ciphertext_size :
      (key nonce ad plain : List ℕ) → length (a.encrypt key nonce ad plain).0 ≡ length plain
  pub decrypts :
      (key nonce ad plain : List ℕ)
      → a.decrypt key nonce ad (a.encrypt key nonce ad plain).0 (a.encrypt key nonce ad plain).1
        ≡ some plain

-- What is decrypted is what the ciphertext and the tag were made of.
pub record Authenticates (a : Ascon) : Type 0 where
  pub encrypts :
      (key nonce ad cipher tag plain : List ℕ)
      → length tag ≡ 16
      → a.decrypt key nonce ad cipher tag ≡ some plain
      → a.encrypt key nonce ad plain ≡ (cipher, tag)
