-- ===== src/Payloads/Close.antt =====
-- src/payloads/close_payloads.rs and src/payloads/error_payloads.rs: the end of a connection.
pub mod Inverse
pub mod RoundTrip
pub mod Total
use chatix_protocol.Base.{
  ℕ, List, ◌∷◌, ok, err, ◌>>=◌, ◌>>◌, ◌==◌, if◌then◌else◌, length, index, slice_from,
}
use chatix_protocol.Error.{IoResult, data_error, data_error_at}
use chatix_protocol.Payloads.Common.{
  encode_sized_string, decode_sized_string, add_usize, require_fully_consumed,
}

pub data CloseReason : Type 0 where
  normal protocol_error timeout server_shutdown client_request : CloseReason

unfoldable pub close_reason_from_u8 : ℕ → IoResult CloseReason
close_reason_from_u8 value =
    if value == 0
    then ok normal
    else if value == 1
    then ok protocol_error
    else if value == 2
    then ok timeout
    else if value == 3
    then ok server_shutdown
    else if value == 4
    then ok client_request
    else err (data_error_at "unknown close reason: " value)

unfoldable pub close_reason_as_u8 : CloseReason → ℕ
close_reason_as_u8 normal = 0
close_reason_as_u8 protocol_error = 1
close_reason_as_u8 timeout = 2
close_reason_as_u8 server_shutdown = 3
close_reason_as_u8 client_request = 4

pub record ClosePayload : Type 0 where
  pub reason : CloseReason
  pub message : List ℕ

unfoldable pub encode_close : ClosePayload → IoResult (List ℕ)
unfolding close_reason_as_u8
encode_close p = do
  msg_bytes ← encode_sized_string p.message
  ok (close_reason_as_u8 p.reason ∷ msg_bytes)

unfoldable pub decode_close : List ℕ → IoResult ClosePayload
unfolding close_reason_from_u8 require_fully_consumed
decode_close bytes = do
  (if length bytes == 0 then err (data_error "close payload too short") else ok tt)
  first ← index bytes 0
  reason ← close_reason_from_u8 first
  after_reason ← slice_from bytes 1
  (message, consumed) ← decode_sized_string after_reason
  require_fully_consumed bytes (add_usize 1 consumed) "close"
  ok (record { reason = reason; message = message })

pub record ErrorPayload : Type 0 where
  pub message : List ℕ

unfoldable pub encode_error : ErrorPayload → IoResult (List ℕ)
encode_error p = encode_sized_string p.message

unfoldable pub decode_error : List ℕ → IoResult ErrorPayload
unfolding require_fully_consumed
decode_error bytes = do
  (message, consumed) ← decode_sized_string bytes
  require_fully_consumed bytes consumed "error"
  ok (record { message = message })
