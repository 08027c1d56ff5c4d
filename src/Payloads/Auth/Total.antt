-- ===== src/Payloads/Auth/Total.antt =====
-- No decoder of the payloads of identity panics, whatever the bytes.
use chatix_protocol.Error.{IoError}
use chatix_protocol.Base.{
  slice_to-ne-panic, slice-ne-panic, slice_from-ne-panic, ℕ, ◌≢◌, arith, List, panic, length-drop,
}
use chatix_protocol.Payloads.Common.{try_into, require_fully_consumed}
use chatix_protocol.Payloads.Common.Sized.{decode_sized_bytes-ne-panic}
use chatix_protocol.Payloads.Auth.{
  decode_auth_challenge, decode_auth_response, decode_auth_accept, decode_auth_reject,
}

pub decode_auth_challenge-ne-panic : (bytes : List ℕ) → decode_auth_challenge bytes ≢ panic
unfolding decode_auth_challenge
decode_auth_challenge-ne-panic bytes = grind (arith, length-drop)

try_into-ne-panic : (n : ℕ) (xs : List ℕ) (e : IoError) → try_into n xs e ≢ panic
unfolding try_into
try_into-ne-panic n xs e = ground arith

pub decode_auth_response-ne-panic : (bytes : List ℕ) → decode_auth_response bytes ≢ panic
unfolding decode_auth_response require_fully_consumed
decode_auth_response-ne-panic bytes = grind (
  arith, slice_to-ne-panic, slice-ne-panic, slice_from-ne-panic, try_into-ne-panic,
  decode_sized_bytes-ne-panic,
)

pub decode_auth_accept-ne-panic : (bytes : List ℕ) → decode_auth_accept bytes ≢ panic
unfolding decode_auth_accept
decode_auth_accept-ne-panic bytes = grind (arith, length-drop)

pub decode_auth_reject-ne-panic : (bytes : List ℕ) → decode_auth_reject bytes ≢ panic
unfolding decode_auth_reject
decode_auth_reject-ne-panic bytes = grind (arith, length-drop)
