-- ===== src/V5Extension.antt =====
-- src/v5_extension.hpp: the messages of authentication and relocation. `encode` answers no bytes for a
-- value that has no encoding.
pub mod Roundtrip
mod Tests
use tuntom.Base.{
  Bool, List, Option, [], drop, get_or, if◌then◌else◌, leb, length, ltb, none, not, some, take,
  true, ℕ, ◌&&◌, ◌++◌, ◌+◌, ◌==◌, ◌||◌, ◌∷◌,
}
use tuntom.Wire.{store_be16, load_be16, store_be32, load_be32, store_be64, load_be64}

abbrev pub format : ℕ
format = 1

abbrev pub max_auth_field : ℕ
max_auth_field = 4096

abbrev pub relocate_token_size : ℕ
relocate_token_size = 32

abbrev pub relocate_binder_size : ℕ
relocate_binder_size = 32

-- `AuthMethod::password_challenge`, the only method.
abbrev pub password_challenge : ℕ
password_challenge = 1

pub record AuthChallenge : Type 0 where
  pub id : ℕ
  pub lifetime_seconds : ℕ
  pub challenge : List ℕ

pub record AuthFailed : Type 0 where
  pub id : ℕ
  pub reason : ℕ
  pub retry_after_seconds : ℕ

pub record RelocateBind : Type 0 where
  pub token : List ℕ
  pub binder : List ℕ

unfoldable pub encode_challenge : AuthChallenge → List ℕ
encode_challenge v =
    if v.id == 0 || v.lifetime_seconds == 0 || ltb max_auth_field (length v.challenge)
    then []
    else (format ∷ password_challenge ∷ 0 ∷ 0 ∷ [])
      ++ (store_be64 v.id
          ++ (store_be32 v.lifetime_seconds ++ (store_be32 (length v.challenge) ++ v.challenge)))

unfoldable pub decode_challenge : List ℕ → Option AuthChallenge
decode_challenge b =
    let id = load_be64 (drop 4 b) in
    let lifetime = load_be32 (drop 12 b) in
    let n = load_be32 (drop 16 b) in
    if ltb (length b) 20
      || not (get_or b 0 0 == format)
      || not (load_be16 (drop 2 b) == 0)
      || not (get_or b 1 0 == password_challenge)
    then none
    else if id == 0 || lifetime == 0 || ltb max_auth_field n || not (length b == 20 + n)
    then none
    else some (record { id = id; lifetime_seconds = lifetime; challenge = drop 20 b })

unfoldable pub encode_ok : ℕ → List ℕ
encode_ok id = if id == 0 then [] else (format ∷ 0 ∷ 0 ∷ 0 ∷ []) ++ store_be64 id

unfoldable pub decode_ok : List ℕ → Option ℕ
decode_ok b =
    let id = load_be64 (drop 4 b) in
    if not (length b == 12)
      || not (get_or b 0 0 == format)
      || not (get_or b 1 0 == 0)
      || not (load_be16 (drop 2 b) == 0)
    then none
    else if id == 0
    then none
    else some id

unfoldable pub encode_failed : AuthFailed → List ℕ
encode_failed v =
    if v.id == 0
    then []
    else (format ∷ 0 ∷ [])
      ++ (store_be16 v.reason ++ (store_be64 v.id ++ store_be32 v.retry_after_seconds))

unfoldable pub decode_failed : List ℕ → Option AuthFailed
decode_failed b =
    let reason = load_be16 (drop 2 b) in
    let id = load_be64 (drop 4 b) in
    if not (length b == 16) || not (get_or b 0 0 == format) || not (get_or b 1 0 == 0)
    then none
    else if not (id == 0) && leb 1 reason && leb reason 6
    then some (record { id = id; reason = reason; retry_after_seconds = load_be32 (drop 12 b) })
    else none

unfoldable pub encode_bind : RelocateBind → List ℕ
encode_bind v = (format ∷ 0 ∷ 0 ∷ 0 ∷ []) ++ (v.token ++ v.binder)

unfoldable pub decode_bind : List ℕ → Option RelocateBind
decode_bind b =
    if not (length b == 4 + relocate_token_size + relocate_binder_size)
      || not (get_or b 0 0 == format)
      || not (get_or b 1 0 == 0)
      || not (load_be16 (drop 2 b) == 0)
    then none
    else some (record {
      token = take relocate_token_size (drop 4 b);
      binder = take relocate_binder_size (drop (4 + relocate_token_size) b);
    })

pub record AuthResponse : Type 0 where
  pub id : ℕ
  pub username : List ℕ
  pub response : List ℕ

unfoldable pub encode_response : AuthResponse → List ℕ
encode_response v =
    if v.id == 0
      || length v.username == 0
      || ltb 255 (length v.username)
      || ltb max_auth_field (length v.response)
    then []
    else (format ∷ password_challenge ∷ length v.username ∷ 0 ∷ [])
      ++ (store_be64 v.id ++ (store_be32 (length v.response) ++ (v.username ++ v.response)))

-- The loop over the bytes of the user name.
unfoldable pub all_graphic : List ℕ → Bool
all_graphic [] = true
all_graphic (b ∷ bs) = not (ltb b 0x21 || ltb 0x7e b) && all_graphic bs

unfoldable pub decode_response : List ℕ → Option AuthResponse
decode_response b =
    let un = get_or b 2 0 in
    let rn = load_be32 (drop 12 b) in
    let id = load_be64 (drop 4 b) in
    let username = take un (drop 16 b) in
    if ltb (length b) 16
      || not (get_or b 0 0 == format)
      || not (get_or b 3 0 == 0)
      || not (get_or b 1 0 == password_challenge)
    then none
    else if id == 0 || un == 0 || ltb max_auth_field rn || not (length b == 16 + un + rn)
    then none
    else if not (all_graphic username)
    then none
    else some (record { id = id; username = username; response = drop (16 + un) b })
