-- ===== src/Payloads/E2eKey.antt =====
-- src/payloads/e2e_key_payloads.rs: publishing and fetching the keys of end-to-end encryption.
pub mod Inverse
pub mod RoundTrip
pub mod Total
use chatix_protocol.Base.{
  ℕ, ◌+◌, Bool, List, [], ◌∷◌, ◌++◌, Option, none, some, ok, err, ◌>>=◌, ◌>>◌, ltb, ◌==◌,
  if◌then◌else◌, length, index, slice, slice_to, slice_from,
}
use chatix_protocol.Error.{IoResult, data_error}
use chatix_protocol.Sizes.{ml_kem_768_ek_size, ml_dsa_65_vk_size}
use chatix_protocol.Payloads.Common.{
  encode_sized_string, decode_sized_string, add_usize, require_fully_consumed, decode_bool,
  encode_bool, try_into,
}

-- src/crypto/e2e.rs
pub record E2ePublicKey : Type 0 where
  pub x25519_public : List ℕ
  pub ml_kem_ek : List ℕ
  pub dsa_verifying_key : List ℕ

abbrev pub e2e_public_key_size : ℕ
e2e_public_key_size = 32 + ml_kem_768_ek_size + ml_dsa_65_vk_size

-- The bytes that the function appends to `out`.
unfoldable pub encode_e2e_public_key : E2ePublicKey → List ℕ
encode_e2e_public_key key = key.x25519_public ++ (key.ml_kem_ek ++ key.dsa_verifying_key)

unfoldable pub decode_e2e_public_key : List ℕ → IoResult E2ePublicKey
unfolding try_into
decode_e2e_public_key bytes = do
  (if ltb (length bytes) e2e_public_key_size
      then err (data_error "e2e public key bundle too short")
      else ok tt)
  front ← slice_to bytes 32
  x25519_public ← try_into 32 front (data_error "invalid x25519 key length")
  let ml_kem_end = 32 + ml_kem_768_ek_size
  ml_kem_ek ← slice bytes 32 ml_kem_end
  dsa_verifying_key ← slice bytes ml_kem_end e2e_public_key_size
  ok (record {
    x25519_public = x25519_public;
    ml_kem_ek = ml_kem_ek;
    dsa_verifying_key = dsa_verifying_key;
  })

pub record PublishE2eKeyPayload : Type 0 where
  pub key : E2ePublicKey

unfoldable pub encode_publish_e2e_key : PublishE2eKeyPayload → List ℕ
encode_publish_e2e_key p = encode_e2e_public_key p.key

unfoldable pub decode_publish_e2e_key : List ℕ → IoResult PublishE2eKeyPayload
unfolding require_fully_consumed
decode_publish_e2e_key bytes = do
  key ← decode_e2e_public_key bytes
  require_fully_consumed bytes e2e_public_key_size "publish_e2e_key"
  ok (record { key = key })

pub record PublishE2eKeyResultPayload : Type 0 where
  pub success : Bool
  pub message : List ℕ

unfoldable pub encode_publish_e2e_key_result : PublishE2eKeyResultPayload → IoResult (List ℕ)
unfolding encode_bool
encode_publish_e2e_key_result p = do
  message ← encode_sized_string p.message
  ok (encode_bool p.success ∷ message)

unfoldable pub decode_publish_e2e_key_result : List ℕ → IoResult PublishE2eKeyResultPayload
unfolding require_fully_consumed decode_bool
decode_publish_e2e_key_result bytes = do
  (if length bytes == 0 then err (data_error "publish_e2e_key_result payload too short") else ok tt)
  first ← index bytes 0
  success ← decode_bool first "publish_e2e_key_result success"
  after_success ← slice_from bytes 1
  (message, consumed) ← decode_sized_string after_success
  require_fully_consumed bytes (add_usize 1 consumed) "publish_e2e_key_result"
  ok (record { success = success; message = message })

pub record FetchE2eKeyPayload : Type 0 where
  pub target_username : List ℕ

unfoldable pub encode_fetch_e2e_key : FetchE2eKeyPayload → IoResult (List ℕ)
encode_fetch_e2e_key p = encode_sized_string p.target_username

unfoldable pub decode_fetch_e2e_key : List ℕ → IoResult FetchE2eKeyPayload
unfolding require_fully_consumed
decode_fetch_e2e_key bytes = do
  (target_username, consumed) ← decode_sized_string bytes
  require_fully_consumed bytes consumed "fetch_e2e_key"
  ok (record { target_username = target_username })

pub data E2eKeyStatus : Type 0 where
  found not_found : E2eKeyStatus

unfoldable pub e2e_key_status_as_u8 : E2eKeyStatus → ℕ
e2e_key_status_as_u8 found = 0
e2e_key_status_as_u8 not_found = 1

unfoldable pub e2e_key_status_from_u8 : ℕ → IoResult E2eKeyStatus
e2e_key_status_from_u8 v =
    if v == 0
    then ok found
    else if v == 1
    then ok not_found
    else err (data_error "unknown e2e_key status")

pub record E2eKeyResponsePayload : Type 0 where
  pub username : List ℕ
  pub key : Option E2ePublicKey

-- What follows the username.
unfoldable pub encode_key_status : Option E2ePublicKey → List ℕ
unfolding e2e_key_status_as_u8
encode_key_status (some key) = e2e_key_status_as_u8 found ∷ encode_e2e_public_key key
encode_key_status none = e2e_key_status_as_u8 not_found ∷ []

unfoldable pub encode_e2e_key_response : E2eKeyResponsePayload → IoResult (List ℕ)
encode_e2e_key_response p = do
  out ← encode_sized_string p.username
  ok (out ++ encode_key_status p.key)

unfoldable pub decode_e2e_key_response : List ℕ → IoResult E2eKeyResponsePayload
unfolding e2e_key_status_from_u8 require_fully_consumed
decode_e2e_key_response bytes = do
  (username, consumed) ← decode_sized_string bytes
  rest ← slice_from bytes consumed
  (if length rest == 0 then err (data_error "e2e_key_response missing status byte") else ok tt)
  byte ← index rest 0
  status ← e2e_key_status_from_u8 byte
  elim status [
    | found ↦ do
      tail ← slice_from rest 1
      key ← decode_e2e_public_key tail
      require_fully_consumed bytes (add_usize (add_usize consumed 1) e2e_public_key_size)
          "e2e_key_response"
      ok (record { username = username; key = some key })
    | not_found ↦ do
      require_fully_consumed bytes (add_usize consumed 1) "e2e_key_response"
      ok (record { username = username; key = none })
  ]
