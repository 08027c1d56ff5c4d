-- ===== src/Payloads/Close/Inverse.antt =====
-- The payloads of the end of a connection: what the decoders accept is what the encoders write.
use chatix_protocol.Base.{
  ℕ, ◌≡◌, sym, subst, arith, List, [], ◌∷◌, ok, AreBytes, slice_from, index, >>=-eq-ok,
  Result-cases, inl, inr,
}
use chatix_protocol.Payloads.Common.{require_fully_consumed, decode_sized_string}
use chatix_protocol.Payloads.Common.Sized.{IsSizedString}
use chatix_protocol.Payloads.Common.Inverse.{
  decode_sized_string-IsSizedString, decode_sized_string-whole_inv,
}
use chatix_protocol.PacketType.{error, close}
use chatix_protocol.Payloads.OfType.{IsPayload}
use chatix_protocol.Payloads.Close.{
  ErrorPayload, encode_error, decode_error, ClosePayload, encode_close, decode_close,
  close_reason_from_u8, close_reason_as_u8,
}

pub decode_error_inv :
    (bytes : List ℕ) (p : ErrorPayload)
    → AreBytes bytes
    → decode_error bytes ≡ ok p
    → IsPayload error p × (encode_error p ≡ ok bytes)
unfolding encode_error decode_error require_fully_consumed IsPayload
decode_error_inv bytes p h e =
    let ((s, n), d, e') = >>=-eq-ok (decode_sized_string bytes) _ e in
    let (short, q) = decode_sized_string-whole_inv bytes h d in
    let same : p.message ≡ s = ground arith in
    (subst IsSizedString (sym same) (decode_sized_string-IsSizedString bytes h d), ground arith)

pub decode_close_inv :
    (bytes : List ℕ) (p : ClosePayload)
    → AreBytes bytes
    → decode_close bytes ≡ ok p
    → IsPayload close p × (encode_close p ≡ ok bytes)
unfolding encode_close decode_close slice_from require_fully_consumed index IsPayload
    close_reason_from_u8 close_reason_as_u8
decode_close_inv [] p h e = absurd (ground arith)
decode_close_inv (b ∷ bytes) p h e = elim (Result-cases (decode_sized_string bytes)) [
  | inl ((s, n), d) ↦
      let (short, q) = decode_sized_string-whole_inv bytes h.1 d in
      let same : p.message ≡ s = ground arith in
      (subst IsSizedString (sym same) (decode_sized_string-IsSizedString bytes h.1 d), ground arith)
  | inr f ↦ absurd (ground arith)
]
