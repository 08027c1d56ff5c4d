-- ===== src/Payloads/Close/Total.antt =====
-- No decoder of the payloads of the end of a connection panics, whatever the bytes.
use chatix_protocol.Base.{ℕ, ◌≢◌, arith, List, panic, slice_from, length-drop, index-ne-panic}
use chatix_protocol.Payloads.Common.{require_fully_consumed}
use chatix_protocol.Payloads.Common.Total.{decode_sized_string-consumed}
use chatix_protocol.Payloads.Common.Sized.{decode_sized_string-ne-panic}
use chatix_protocol.Payloads.Close.{decode_close, decode_error, close_reason_from_u8}

pub decode_close-ne-panic : (bytes : List ℕ) → decode_close bytes ≢ panic
unfolding decode_close slice_from require_fully_consumed close_reason_from_u8
decode_close-ne-panic bytes =
    grind (
      arith, decode_sized_string-ne-panic, decode_sized_string-consumed, length-drop,
      index-ne-panic,
    )

pub decode_error-ne-panic : (bytes : List ℕ) → decode_error bytes ≢ panic
unfolding decode_error require_fully_consumed
decode_error-ne-panic bytes =
    grind (arith, decode_sized_string-ne-panic, decode_sized_string-consumed, length-drop)
