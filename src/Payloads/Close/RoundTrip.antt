-- ===== src/Payloads/Close/RoundTrip.antt =====
-- The payloads that end a connection are read back as they were written.
use chatix_protocol.Base.{ℕ, ◌≡◌, refl, arith, List, [], ◌∷◌, ok, ◌>>=◌, slice_from-append, index}
use chatix_protocol.Error.{IoError}
use chatix_protocol.Payloads.Common.{require_fully_consumed}
use chatix_protocol.Payloads.Common.Sized.{
  sized_string, encode_sized_string-ok, IsSizedString, decode_sized_string-whole,
}
use chatix_protocol.Payloads.Close.{
  CloseReason, normal, protocol_error, timeout, server_shutdown, client_request, close_reason_as_u8,
  close_reason_from_u8, encode_close, decode_close, encode_error, decode_error,
}

close_reason_from_u8_lem : (r : CloseReason) → close_reason_from_u8 (close_reason_as_u8 r) ≡ ok r
unfolding close_reason_from_u8 close_reason_as_u8
close_reason_from_u8_lem normal = refl
close_reason_from_u8_lem protocol_error = refl
close_reason_from_u8_lem timeout = refl
close_reason_from_u8_lem server_shutdown = refl
close_reason_from_u8_lem client_request = refl

pub decode_close_lem :
    (r : CloseReason) (s : List ℕ)
    → IsSizedString s
    → (encode_close (record { reason = r; message = s }) >>= decode_close)
      ≡ ok (record { reason = r; message = s })
unfolding encode_close decode_close require_fully_consumed close_reason_from_u8 index
decode_close_lem r s v = ground (
  arith,
  encode_sized_string-ok s v.short,
  decode_sized_string-whole s v,
  close_reason_from_u8_lem r,
  slice_from-append {E = IoError} (close_reason_as_u8 r ∷ []) (sized_string s) 1,
  v.short,
)

pub decode_error_lem :
    (s : List ℕ)
    → IsSizedString s
    → (encode_error (record { message = s }) >>= decode_error) ≡ ok (record { message = s })
unfolding encode_error decode_error require_fully_consumed
decode_error_lem s v =
    ground (arith, encode_sized_string-ok s v.short, decode_sized_string-whole s v)
