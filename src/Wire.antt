-- ===== src/Wire.antt =====
-- src/wire.hpp: big-endian loads and stores. A byte string is a list of numbers below 256, a pointer
-- into it is the rest of the list. The low byte of a shifted value is zero, so `|` is `+` there.
pub mod Laws
use tuntom.Base.{List, [], get_or, suc, zero, ℕ, ◌%◌, ◌*◌, ◌++◌, ◌+◌, ◌/◌, ◌^◌, ◌∷◌}

-- `store_be64` writes the low byte last and shifts it out, `n` times.
pub store_be : ℕ → ℕ → List ℕ
store_be zero v = []
store_be (suc n) v = store_be n (v / 256) ++ (v % 256 ∷ [])

-- `load_be64` shifts the value and adds the next byte, `n` times.
pub load_be_from : ℕ → ℕ → List ℕ → ℕ
load_be_from zero acc bytes = acc
load_be_from (suc n) acc [] = load_be_from n (acc * 256) []
load_be_from (suc n) acc (b ∷ bytes) = load_be_from n (acc * 256 + b) bytes

unfoldable pub store_be64 : ℕ → List ℕ
unfolding store_be
store_be64 v = store_be 8 v

unfoldable pub load_be64 : List ℕ → ℕ
unfolding load_be_from
load_be64 bytes = load_be_from 8 0 bytes

unfoldable pub store_be16 : ℕ → List ℕ
store_be16 v = v / 2 ^ 8 % 256 ∷ v % 256 ∷ []

unfoldable pub load_be16 : List ℕ → ℕ
load_be16 bytes = get_or bytes 0 0 * 2 ^ 8 + get_or bytes 1 0

unfoldable pub load_be32 : List ℕ → ℕ
load_be32 bytes =
    get_or bytes 0 0 * 2 ^ 24
    + get_or bytes 1 0 * 2 ^ 16
    + get_or bytes 2 0 * 2 ^ 8
    + get_or bytes 3 0

unfoldable pub store_be32 : ℕ → List ℕ
store_be32 v = v / 2 ^ 24 % 256 ∷ v / 2 ^ 16 % 256 ∷ v / 2 ^ 8 % 256 ∷ v % 256 ∷ []
