-- ===== src/Payloads/Account/Total.antt =====
-- No decoder of the payloads of accounts panics, whatever the bytes.
use chatix_protocol.Base.{
  ℕ, ◌≢◌, arith, List, panic, slice, slice_from, length-drop, index-ne-panic,
}
use chatix_protocol.Payloads.Common.{try_into, require_fully_consumed, decode_bool}
use chatix_protocol.Payloads.Common.Total.{decode_sized_string-consumed}
use chatix_protocol.Payloads.Common.Sized.{decode_sized_string-ne-panic}
use chatix_protocol.Payloads.Account.{decode_query_account_status, decode_account_status_response}

pub decode_query_account_status-ne-panic :
    (bytes : List ℕ) → decode_query_account_status bytes ≢ panic
unfolding decode_query_account_status require_fully_consumed
decode_query_account_status-ne-panic bytes = grind (arith, length-drop)

pub decode_account_status_response-ne-panic :
    (bytes : List ℕ) → decode_account_status_response bytes ≢ panic
unfolding decode_account_status_response slice_from slice try_into require_fully_consumed
    decode_bool
decode_account_status_response-ne-panic bytes =
    grind (
      arith, decode_sized_string-ne-panic, decode_sized_string-consumed, length-drop,
      index-ne-panic,
    )
