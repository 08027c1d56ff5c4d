-- ===== src/Payloads/E2eKey/RoundTrip.antt =====
-- Published and fetched keys are read back as they were written.
use chatix_protocol.Base.{
  ℕ, ◌+◌, ◌≡◌, arith, Bool, List, [], ◌∷◌, ◌++◌, ok, ◌>>=◌, length, length-append, Option, none,
  some, slice_to-append, slice_from-append, index, slice-append,
}
use mathlib.Core.List.{append-nil, append_assoc}
use chatix_protocol.Error.{IoError}
use chatix_protocol.Sizes.{ml_kem_768_ek_size, ml_dsa_65_vk_size}
use chatix_protocol.Payloads.Common.{try_into, decode_bool, encode_bool, require_fully_consumed}
use chatix_protocol.Payloads.Common.Sized.{
  sized_string, encode_sized_string-ok, IsSizedString, length-sized_string, slice_from-sized_string,
  decode_sized_string-front, decode_sized_string-whole,
}
use chatix_protocol.Payloads.E2eKey.{
  E2ePublicKey, e2e_public_key_size, encode_e2e_public_key, decode_e2e_public_key,
  encode_publish_e2e_key, decode_publish_e2e_key, encode_publish_e2e_key_result,
  decode_publish_e2e_key_result, encode_fetch_e2e_key, decode_fetch_e2e_key, e2e_key_status_as_u8,
  e2e_key_status_from_u8, encode_key_status, encode_e2e_key_response, decode_e2e_key_response,
}

pub record IsPublicKey (k : E2ePublicKey) : Type 0 where
  pub x25519_public : length k.x25519_public ≡ 32
  pub ml_kem_ek : length k.ml_kem_ek ≡ ml_kem_768_ek_size
  pub dsa_verifying_key : length k.dsa_verifying_key ≡ ml_dsa_65_vk_size

module _ (k : E2ePublicKey) (v : IsPublicKey k) where
  length-encode_e2e_public_key : length (encode_e2e_public_key k) ≡ e2e_public_key_size
  unfolding encode_e2e_public_key
  length-encode_e2e_public_key = omega (
    arith,
    length-append k.x25519_public (k.ml_kem_ek ++ k.dsa_verifying_key),
    length-append k.ml_kem_ek k.dsa_verifying_key,
    v.x25519_public,
    v.ml_kem_ek,
    v.dsa_verifying_key,
  )

  decode_e2e_public_key_lem : decode_e2e_public_key (encode_e2e_public_key k) ≡ ok k
  unfolding encode_e2e_public_key decode_e2e_public_key try_into
  decode_e2e_public_key_lem =
      let x : List ℕ = k.x25519_public in
      let ek : List ℕ = k.ml_kem_ek in
      let vk : List ℕ = k.dsa_verifying_key in
      ground (
        arith,
        v.x25519_public,
        v.ml_kem_ek,
        v.dsa_verifying_key,
        length-append x (ek ++ vk),
        length-append ek vk,
        length-append x ek,
        slice_to-append {E = IoError} x (ek ++ vk) 32,
        slice-append {E = IoError} x ek vk 32 (32 + ml_kem_768_ek_size),
        append_assoc x ek vk,
        slice-append {E = IoError} (x ++ ek) vk [] (32 + ml_kem_768_ek_size) e2e_public_key_size,
        append-nil vk,
      )

  pub decode_publish_e2e_key_lem :
      decode_publish_e2e_key (encode_publish_e2e_key (record { key = k })) ≡ ok (record { key = k })
  unfolding encode_publish_e2e_key decode_publish_e2e_key require_fully_consumed
  decode_publish_e2e_key_lem =
      ground (arith, decode_e2e_public_key_lem, length-encode_e2e_public_key)

pub decode_publish_e2e_key_result_lem :
    (b : Bool) (s : List ℕ)
    → IsSizedString s
    → (encode_publish_e2e_key_result (record { success = b; message = s })
        >>= decode_publish_e2e_key_result)
      ≡ ok (record { success = b; message = s })
unfolding encode_publish_e2e_key_result decode_publish_e2e_key_result require_fully_consumed
    decode_bool encode_bool index
decode_publish_e2e_key_result_lem b s v = ground (
  arith,
  encode_sized_string-ok s v.short,
  decode_sized_string-whole s v,
  slice_from-append {E = IoError} (encode_bool b ∷ []) (sized_string s) 1,
  v.short,
)

pub decode_fetch_e2e_key_lem :
    (s : List ℕ)
    → IsSizedString s
    → (encode_fetch_e2e_key (record { target_username = s }) >>= decode_fetch_e2e_key)
      ≡ ok (record { target_username = s })
unfolding encode_fetch_e2e_key decode_fetch_e2e_key require_fully_consumed
decode_fetch_e2e_key_lem s v =
    ground (arith, encode_sized_string-ok s v.short, decode_sized_string-whole s v)

module _ (s : List ℕ) (v : IsSizedString s) where
  response_found :
      (k : E2ePublicKey)
      → IsPublicKey k
      → (encode_e2e_key_response (record { username = s; key = some k })
          >>= decode_e2e_key_response)
        ≡ ok (record { username = s; key = some k })
  unfolding encode_e2e_key_response decode_e2e_key_response require_fully_consumed encode_key_status
      e2e_key_status_as_u8 e2e_key_status_from_u8 index
  response_found k w = ground (
    arith,
    encode_sized_string-ok s v.short,
    decode_sized_string-front s v (0 ∷ encode_e2e_public_key k),
    length-sized_string s (0 ∷ encode_e2e_public_key k),
    slice_from-sized_string s (0 ∷ encode_e2e_public_key k),
    slice_from-append {E = IoError} (0 ∷ []) (encode_e2e_public_key k) 1,
    decode_e2e_public_key_lem k w,
    length-encode_e2e_public_key k w,
    v.short,
  )

  response_not_found :
      (encode_e2e_key_response (record { username = s; key = none }) >>= decode_e2e_key_response)
      ≡ ok (record { username = s; key = none })
  unfolding encode_e2e_key_response decode_e2e_key_response require_fully_consumed encode_key_status
      e2e_key_status_as_u8 e2e_key_status_from_u8 index
  response_not_found = ground (
    arith,
    encode_sized_string-ok s v.short,
    decode_sized_string-front s v (1 ∷ []),
    length-sized_string s (1 ∷ []),
    slice_from-sized_string s (1 ∷ []),
    v.short,
  )

unfoldable pub IsKeyOption : Option E2ePublicKey → Type 0
IsKeyOption none = Unit {0}
IsKeyOption (some k) = IsPublicKey k

pub decode_e2e_key_response_lem :
    (s : List ℕ) (k : Option E2ePublicKey)
    → IsSizedString s
    → IsKeyOption k
    → (encode_e2e_key_response (record { username = s; key = k }) >>= decode_e2e_key_response)
      ≡ ok (record { username = s; key = k })
unfolding IsKeyOption
decode_e2e_key_response_lem s none v w = response_not_found s v
decode_e2e_key_response_lem s (some k) v w = response_found s v k w
