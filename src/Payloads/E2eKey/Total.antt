-- ===== src/Payloads/E2eKey/Total.antt =====
-- No decoder of the payloads of keys panics, whatever the bytes.
use chatix_protocol.Base.{
  ℕ, ◌≢◌, arith, List, panic, slice, slice_from, slice_to, length-drop, index-ne-panic,
}
use chatix_protocol.Payloads.Common.{try_into, require_fully_consumed, decode_bool}
use chatix_protocol.Payloads.Common.Total.{decode_sized_string-consumed}
use chatix_protocol.Payloads.Common.Sized.{decode_sized_string-ne-panic}
use chatix_protocol.Payloads.E2eKey.{
  decode_e2e_public_key, decode_publish_e2e_key, decode_publish_e2e_key_result,
  decode_fetch_e2e_key, decode_e2e_key_response, e2e_key_status_from_u8,
}

decode_e2e_public_key-ne-panic : (bytes : List ℕ) → decode_e2e_public_key bytes ≢ panic
unfolding decode_e2e_public_key slice_to slice try_into
decode_e2e_public_key-ne-panic bytes = grind (arith, length-drop)

pub decode_publish_e2e_key-ne-panic : (bytes : List ℕ) → decode_publish_e2e_key bytes ≢ panic
unfolding decode_publish_e2e_key require_fully_consumed
decode_publish_e2e_key-ne-panic bytes = grind (arith, decode_e2e_public_key-ne-panic, length-drop)

pub decode_publish_e2e_key_result-ne-panic :
    (bytes : List ℕ) → decode_publish_e2e_key_result bytes ≢ panic
unfolding decode_publish_e2e_key_result slice_from require_fully_consumed decode_bool
decode_publish_e2e_key_result-ne-panic bytes =
    grind (
      arith, decode_sized_string-ne-panic, decode_sized_string-consumed, length-drop,
      index-ne-panic,
    )

pub decode_fetch_e2e_key-ne-panic : (bytes : List ℕ) → decode_fetch_e2e_key bytes ≢ panic
unfolding decode_fetch_e2e_key require_fully_consumed
decode_fetch_e2e_key-ne-panic bytes =
    grind (arith, decode_sized_string-ne-panic, decode_sized_string-consumed, length-drop)

pub decode_e2e_key_response-ne-panic : (bytes : List ℕ) → decode_e2e_key_response bytes ≢ panic
unfolding decode_e2e_key_response slice_from require_fully_consumed e2e_key_status_from_u8
decode_e2e_key_response-ne-panic bytes = grind (
  arith, decode_e2e_public_key-ne-panic, decode_sized_string-ne-panic, decode_sized_string-consumed,
  length-drop, index-ne-panic,
)
