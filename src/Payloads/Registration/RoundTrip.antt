-- ===== src/Payloads/Registration/RoundTrip.antt =====
-- The payloads of registration are read back as they were written.
use chatix_protocol.Base.{ℕ, ◌≡◌, arith, Bool, List, [], ◌∷◌, ok, ◌>>=◌, slice_from-append, index}
use chatix_protocol.Error.{IoError}
use chatix_protocol.Payloads.Common.{decode_bool, encode_bool, require_fully_consumed}
use chatix_protocol.Payloads.Common.Sized.{
  sized_string, encode_sized_string-ok, IsSizedString, decode_sized_string-whole,
}
use chatix_protocol.Payloads.Registration.{
  encode_register_device, decode_register_device, encode_register_response,
  decode_register_response,
}

pub decode_register_device_lem :
    (s : List ℕ)
    → IsSizedString s
    → (encode_register_device (record { username = s }) >>= decode_register_device)
      ≡ ok (record { username = s })
unfolding encode_register_device decode_register_device require_fully_consumed
decode_register_device_lem s v =
    ground (arith, encode_sized_string-ok s v.short, decode_sized_string-whole s v)

pub decode_register_response_lem :
    (b : Bool) (s : List ℕ)
    → IsSizedString s
    → (encode_register_response (record { success = b; message = s }) >>= decode_register_response)
      ≡ ok (record { success = b; message = s })
unfolding encode_register_response decode_register_response require_fully_consumed decode_bool
    encode_bool index
decode_register_response_lem b s v = ground (
  arith,
  encode_sized_string-ok s v.short,
  decode_sized_string-whole s v,
  slice_from-append {E = IoError} (encode_bool b ∷ []) (sized_string s) 1,
  v.short,
)
