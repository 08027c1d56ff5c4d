-- ===== src/Payloads/Hello/Total.antt =====
-- No decoder of the payloads of the handshake panics, whatever the bytes.
use chatix_protocol.Base.{
  ℕ, ◌≢◌, arith, List, panic, slice, slice_from, slice_to, length-drop, index-ne-panic,
}
use chatix_protocol.Payloads.Common.{try_into, require_fully_consumed, decode_bool}
use chatix_protocol.Payloads.Common.Total.{decode_sized_string-consumed}
use chatix_protocol.Payloads.Common.Sized.{decode_sized_string-ne-panic}
use chatix_protocol.Payloads.Hello.{
  decode_client_hello, decode_server_hello, decode_client_finish, decode_server_accept,
}

pub decode_client_hello-ne-panic : (bytes : List ℕ) → decode_client_hello bytes ≢ panic
unfolding decode_client_hello slice_from slice_to slice try_into require_fully_consumed
decode_client_hello-ne-panic bytes =
    grind (arith, decode_sized_string-ne-panic, decode_sized_string-consumed, length-drop)

pub decode_server_hello-ne-panic : (bytes : List ℕ) → decode_server_hello bytes ≢ panic
unfolding decode_server_hello slice_from slice_to slice try_into require_fully_consumed
decode_server_hello-ne-panic bytes =
    grind (arith, decode_sized_string-ne-panic, decode_sized_string-consumed, length-drop)

pub decode_client_finish-ne-panic : (bytes : List ℕ) → decode_client_finish bytes ≢ panic
unfolding decode_client_finish decode_bool
decode_client_finish-ne-panic bytes = grind (arith, length-drop, index-ne-panic)

pub decode_server_accept-ne-panic : (bytes : List ℕ) → decode_server_accept bytes ≢ panic
unfolding decode_server_accept decode_bool
decode_server_accept-ne-panic bytes = grind (arith, length-drop, index-ne-panic)
