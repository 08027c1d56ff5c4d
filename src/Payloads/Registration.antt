-- ===== src/Payloads/Registration.antt =====
-- src/payloads/registration_payloads.rs: a device claims a username.
pub mod Inverse
pub mod RoundTrip
pub mod Total
use chatix_protocol.Base.{
  Bool, List, ◌∷◌, ok, err, ◌>>=◌, ◌>>◌, ◌==◌, if◌then◌else◌, length, index, slice_from,
}
use chatix_protocol.Error.{IoResult, data_error}
use chatix_protocol.Payloads.Common.{
  encode_sized_string, decode_sized_string, add_usize, require_fully_consumed, decode_bool,
  encode_bool,
}
use chatix_protocol.Base.{ℕ}

pub record RegisterDevicePayload : Type 0 where
  pub username : List ℕ

unfoldable pub encode_register_device : RegisterDevicePayload → IoResult (List ℕ)
encode_register_device p = encode_sized_string p.username

unfoldable pub decode_register_device : List ℕ → IoResult RegisterDevicePayload
unfolding require_fully_consumed
decode_register_device bytes = do
  (username, consumed) ← decode_sized_string bytes
  require_fully_consumed bytes consumed "register_device"
  ok (record { username = username })

pub record RegisterResponsePayload : Type 0 where
  pub success : Bool
  pub message : List ℕ

unfoldable pub encode_register_response : RegisterResponsePayload → IoResult (List ℕ)
unfolding encode_bool
encode_register_response p = do
  message ← encode_sized_string p.message
  ok (encode_bool p.success ∷ message)

unfoldable pub decode_register_response : List ℕ → IoResult RegisterResponsePayload
unfolding require_fully_consumed decode_bool
decode_register_response bytes = do
  (if length bytes == 0 then err (data_error "register_response payload too short") else ok tt)
  first ← index bytes 0
  success ← decode_bool first "register_response success"
  after_success ← slice_from bytes 1
  (message, consumed) ← decode_sized_string after_success
  require_fully_consumed bytes (add_usize 1 consumed) "register_response"
  ok (record { success = success; message = message })
