-- ===== src/Wire/Laws.antt =====
-- Stores and loads are inverse.
use tuntom.Base.{
  AreBytes, List, [], arith, get_or, length, length-append, refl, suc, zero, ℕ, ◌%◌, ◌*◌, ◌++◌, ◌+◌,
  ◌/◌, ◌<◌, ◌^◌, ◌∷◌, ◌≡◌,
}
use tuntom.Wire.{
  store_be, load_be_from, store_be64, load_be64, store_be16, load_be16, load_be32, store_be32,
}

pub load_be32-store_be32 :
    (v : ℕ) (rest : List ℕ) → v < 2 ^ 32 → load_be32 (store_be32 v ++ rest) ≡ v
unfolding load_be32 store_be32
load_be32-store_be32 v rest h = omega arith

pub load_be16-store_be16 :
    (v : ℕ) (rest : List ℕ) → v < 2 ^ 16 → load_be16 (store_be16 v ++ rest) ≡ v
unfolding load_be16 store_be16
load_be16-store_be16 v rest h = omega arith

pub length-store_be : (n v : ℕ) → length (store_be n v) ≡ n
unfolding store_be
length-store_be zero v = refl
length-store_be (suc n) v =
    omega (arith, length-append (store_be n (v / 256)) (v % 256 ∷ []), length-store_be n (v / 256))

pub length-store_be64 : (v : ℕ) → length (store_be64 v) ≡ 8
unfolding store_be64
length-store_be64 v = length-store_be 8 v

pub load_be64-store_be64 :
    (v : ℕ) (rest : List ℕ) → v < 2 ^ 64 → load_be64 (store_be64 v ++ rest) ≡ v
unfolding load_be64 store_be64
load_be64-store_be64 v rest h = omega arith

-- Eight bytes are what is stored for the number that is loaded from them.
pub store_be64-load_be64 :
    (a b c d e f g h : ℕ) (rest : List ℕ)
    → AreBytes (a ∷ b ∷ c ∷ d ∷ e ∷ f ∷ g ∷ h ∷ rest)
    → store_be64 (load_be64 (a ∷ b ∷ c ∷ d ∷ e ∷ f ∷ g ∷ h ∷ rest))
      ≡ a ∷ b ∷ c ∷ d ∷ e ∷ f ∷ g ∷ h ∷ []
unfolding load_be64 store_be64
store_be64-load_be64 a b c d e f g h rest v = ground arith

pub store_be32-load_be32 :
    (a b c d : ℕ) (rest : List ℕ)
    → AreBytes (a ∷ b ∷ c ∷ d ∷ rest)
    → store_be32 (load_be32 (a ∷ b ∷ c ∷ d ∷ rest)) ≡ a ∷ b ∷ c ∷ d ∷ []
unfolding load_be32 store_be32
store_be32-load_be32 a b c d rest v = ground arith

-- `k` times 256, `n` times.
abbrev scale : ℕ → ℕ → ℕ
scale zero k = k
scale (suc n) k = scale n (k * 256)

load_be_from-lt :
    (n acc k : ℕ) (bytes : List ℕ) → acc < k → AreBytes bytes → load_be_from n acc bytes < scale n k
unfolding load_be_from
load_be_from-lt zero acc k bytes h v = h
load_be_from-lt (suc n) acc k [] h v = load_be_from-lt n (acc * 256) (k * 256) [] (omega arith) v
load_be_from-lt (suc n) acc k (b ∷ bytes) h v =
    load_be_from-lt n (acc * 256 + b) (k * 256) bytes (omega arith) v.1

pub load_be64-lt : (bytes : List ℕ) → AreBytes bytes → load_be64 bytes < 2 ^ 64
unfolding load_be64
load_be64-lt bytes v = load_be_from-lt 8 0 1 bytes (omega arith) v

pub get_or-byte : (bytes : List ℕ) (i : ℕ) → AreBytes bytes → get_or bytes i 0 < 256
get_or-byte [] i v = omega arith
get_or-byte (b ∷ bytes) zero v = v.0
get_or-byte (b ∷ bytes) (suc i) v = get_or-byte bytes i v.1

pub load_be32-lt : (bytes : List ℕ) → AreBytes bytes → load_be32 bytes < 2 ^ 32
unfolding load_be32
load_be32-lt bytes v = omega (
  arith,
  get_or-byte bytes 0 v,
  get_or-byte bytes 1 v,
  get_or-byte bytes 2 v,
  get_or-byte bytes 3 v,
)
