-- ===== src/V5Extension/Roundtrip.antt =====
-- What is encoded is decoded again.
use tuntom.Base.{
  List, [], ap, append-nil, arith, drop, drop-drop, drop_past, false, get_or, length, length-append,
  ltb, refl, some, sym, take, take_all, take_prefix, ℕ, ◌%◌, ◌++◌, ◌+◌, ◌/◌, ◌<◌, ◌==◌, ◌^◌, ◌||◌,
  ◌∙◌, ◌∷◌, ◌≡◌, ◌≤◌,
}
use tuntom.Wire.{store_be16, load_be16, store_be32, load_be32, store_be64, load_be64}
use tuntom.Wire.Laws.{
  load_be32-store_be32, load_be16-store_be16, length-store_be64, load_be64-store_be64,
}
use tuntom.V5Extension.{
  AuthChallenge, AuthFailed, RelocateBind, max_auth_field, encode_challenge, decode_challenge,
  encode_ok, decode_ok, encode_failed, decode_failed, encode_bind, decode_bind,
}

-- What a decoder reads is enough for its answer.
read_ok :
    (b : List ℕ) (id : ℕ)
    → length b ≡ 12
    → get_or b 0 0 ≡ 1
    → get_or b 1 0 ≡ 0
    → load_be16 (drop 2 b) ≡ 0
    → load_be64 (drop 4 b) ≡ id
    → 0 < id
    → decode_ok b ≡ some id
unfolding decode_ok
read_ok b id l f z y i h = ground arith

read_challenge :
    (b : List ℕ) (v : AuthChallenge)
    → length b ≡ 20 + length v.challenge
    → get_or b 0 0 ≡ 1
    → get_or b 1 0 ≡ 1
    → load_be16 (drop 2 b) ≡ 0
    → load_be64 (drop 4 b) ≡ v.id
    → load_be32 (drop 12 b) ≡ v.lifetime_seconds
    → load_be32 (drop 16 b) ≡ length v.challenge
    → drop 20 b ≡ v.challenge
    → 0 < v.id
    → 0 < v.lifetime_seconds
    → length v.challenge ≤ max_auth_field
    → decode_challenge b ≡ some v
unfolding decode_challenge
read_challenge b v l f m z i t n c h k s = ground (arith, i, t, c)

read_failed :
    (b : List ℕ) (v : AuthFailed)
    → length b ≡ 16
    → get_or b 0 0 ≡ 1
    → get_or b 1 0 ≡ 0
    → load_be16 (drop 2 b) ≡ v.reason
    → load_be64 (drop 4 b) ≡ v.id
    → load_be32 (drop 12 b) ≡ v.retry_after_seconds
    → 0 < v.id
    → 1 ≤ v.reason
    → v.reason ≤ 6
    → decode_failed b ≡ some v
unfolding decode_failed
read_failed b v l f z r i t h k s = ground (arith, r, i, t)

-- The header, then the identifier, then the rest.
framed : (a b c d id : ℕ) (rest : List ℕ) → List ℕ
framed a b c d id rest = a ∷ b ∷ c ∷ d ∷ (store_be64 id ++ rest)

drop-framed : (a b c d id : ℕ) (rest : List ℕ) → drop 12 (framed a b c d id rest) ≡ rest
unfolding framed
drop-framed a b c d id rest =
    drop_past 8 0 (store_be64 id) rest (omega (arith, length-store_be64 id))

length-framed :
    (a b c d id : ℕ) (rest : List ℕ) → length (framed a b c d id rest) ≡ 12 + length rest
unfolding framed
length-framed a b c d id rest =
    omega (arith, length-append (store_be64 id) rest, length-store_be64 id)

id-framed :
    (a b c d id : ℕ) (rest : List ℕ)
    → id < 2 ^ 64
    → load_be64 (drop 4 (framed a b c d id rest)) ≡ id
unfolding framed
id-framed a b c d id rest h = load_be64-store_be64 id rest h

decode-encode_ok : (id : ℕ) → 0 < id → id < 2 ^ 64 → decode_ok (encode_ok id) ≡ some id
unfolding encode_ok framed load_be16
decode-encode_ok id h k =
    rw (nonzero, encode_ok, sym (append-nil (store_be64 id)))
      (read_ok (framed 1 0 0 0 id []) id (length-framed 1 0 0 0 id []) refl refl refl
        (id-framed 1 0 0 0 id [] k) h)
  where
    nonzero : (id == 0) ≡ false
    nonzero = ground arith

drop-framed_further :
    (a b c d id n : ℕ) (rest : List ℕ) → drop (12 + n) (framed a b c d id rest) ≡ drop n rest
drop-framed_further a b c d id n rest =
    sym (drop-drop 12 n (framed a b c d id rest)) ∙ ap (drop n) (drop-framed a b c d id rest)

-- A challenge with an identifier and a lifetime that fit their fields and are not 0, and at most
-- 4096 bytes, decodes from its encoding.
pub decode-encode_challenge :
    (v : AuthChallenge)
    → 0 < v.id
    → v.id < 2 ^ 64
    → 0 < v.lifetime_seconds
    → v.lifetime_seconds < 2 ^ 32
    → length v.challenge ≤ max_auth_field
    → decode_challenge (encode_challenge v) ≡ some v
unfolding encode_challenge framed load_be16 store_be32
decode-encode_challenge v h k p q s =
    rw (valid, encode_challenge)
      (read_challenge b v (omega (arith, length-framed 1 1 0 0 v.id rest)) refl refl refl
        (id-framed 1 1 0 0 v.id rest k)
        (ap load_be32 (drop-framed 1 1 0 0 v.id rest) ∙ load_be32-store_be32 v.lifetime_seconds _ q)
        (ap load_be32 (drop-framed_further 1 1 0 0 v.id 4 rest)
          ∙ load_be32-store_be32 (length v.challenge) _ (omega (arith, s)))
        (drop-framed_further 1 1 0 0 v.id 8 rest) h p s)
  where
    rest : List ℕ
    rest = store_be32 v.lifetime_seconds ++ (store_be32 (length v.challenge) ++ v.challenge)

    b : List ℕ
    b = framed 1 1 0 0 v.id rest

    valid :
        (v.id == 0 || v.lifetime_seconds == 0 || ltb max_auth_field (length v.challenge)) ≡ false
    valid = ground arith

-- A refusal with an identifier that is not 0, one of the six reasons and a delay of 32 bits decodes
-- from its encoding.
decode-encode_failed :
    (v : AuthFailed)
    → 0 < v.id
    → v.id < 2 ^ 64
    → 1 ≤ v.reason
    → v.reason ≤ 6
    → v.retry_after_seconds < 2 ^ 32
    → decode_failed (encode_failed v) ≡ some v
unfolding encode_failed framed store_be16 store_be32
decode-encode_failed v h k p q r =
    rw (nonzero, encode_failed)
      (read_failed b v
        (omega (arith, length-framed 1 0 (v.reason / 2 ^ 8 % 256) (v.reason % 256) v.id rest)) refl
        refl (load_be16-store_be16 v.reason _ (omega (arith, q)))
        (id-framed 1 0 (v.reason / 2 ^ 8 % 256) (v.reason % 256) v.id rest k)
        (ap load_be32 (drop-framed 1 0 (v.reason / 2 ^ 8 % 256) (v.reason % 256) v.id rest)
          ∙ load_be32-store_be32 v.retry_after_seconds [] r)
        h p q)
  where
    rest : List ℕ
    rest = store_be32 v.retry_after_seconds

    b : List ℕ
    b = framed 1 0 (v.reason / 2 ^ 8 % 256) (v.reason % 256) v.id rest

    nonzero : (v.id == 0) ≡ false
    nonzero = ground arith

read_bind :
    (b : List ℕ) (v : RelocateBind)
    → length b ≡ 68
    → get_or b 0 0 ≡ 1
    → get_or b 1 0 ≡ 0
    → load_be16 (drop 2 b) ≡ 0
    → take 32 (drop 4 b) ≡ v.token
    → take 32 (drop 36 b) ≡ v.binder
    → decode_bind b ≡ some v
unfolding decode_bind
read_bind b v l f m z t c = ground (arith, t, c)

-- A relocation binding with a token and a binder of 32 bytes decodes from its encoding.
decode-encode_bind :
    (v : RelocateBind)
    → length v.token ≡ 32
    → length v.binder ≡ 32
    → decode_bind (encode_bind v) ≡ some v
unfolding encode_bind load_be16
decode-encode_bind v h k =
    read_bind (1 ∷ 0 ∷ 0 ∷ 0 ∷ (v.token ++ v.binder)) v
      (omega (arith, length-append v.token v.binder, h, k)) refl refl refl
      (ap (λ n. take n (v.token ++ v.binder)) (sym h) ∙ take_prefix v.token v.binder)
      (ap (take 32) (drop_past 32 0 v.token v.binder (omega (arith, h)))
        ∙ ap (λ n. take n v.binder) (sym k)
        ∙ take_all v.binder)
