-- ===== src/Payloads/Registration/Total.antt =====
-- No decoder of the payloads of registration panics, whatever the bytes.
use chatix_protocol.Base.{ℕ, ◌≢◌, arith, List, panic, slice_from, length-drop, index-ne-panic}
use chatix_protocol.Payloads.Common.{require_fully_consumed, decode_bool}
use chatix_protocol.Payloads.Common.Total.{decode_sized_string-consumed}
use chatix_protocol.Payloads.Common.Sized.{decode_sized_string-ne-panic}
use chatix_protocol.Payloads.Registration.{decode_register_device, decode_register_response}

pub decode_register_device-ne-panic : (bytes : List ℕ) → decode_register_device bytes ≢ panic
unfolding decode_register_device require_fully_consumed
decode_register_device-ne-panic bytes =
    grind (arith, decode_sized_string-ne-panic, decode_sized_string-consumed, length-drop)

pub decode_register_response-ne-panic : (bytes : List ℕ) → decode_register_response bytes ≢ panic
unfolding decode_register_response slice_from require_fully_consumed decode_bool
decode_register_response-ne-panic bytes =
    grind (
      arith, decode_sized_string-ne-panic, decode_sized_string-consumed, length-drop,
      index-ne-panic,
    )
