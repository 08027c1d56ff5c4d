-- ===== src/Payloads/Registration/Inverse.antt =====
-- The payloads of registration: what the decoders accept is what the encoders write.
use chatix_protocol.Base.{
  ℕ, ◌≡◌, sym, subst, arith, List, [], ◌∷◌, ok, AreBytes, slice_from, index, >>=-eq-ok,
  Result-cases, inl, inr,
}
use chatix_protocol.Payloads.Common.{
  require_fully_consumed, decode_bool, encode_bool, decode_sized_string,
}
use chatix_protocol.Payloads.Common.Sized.{IsSizedString}
use chatix_protocol.Payloads.Common.Inverse.{
  decode_sized_string-IsSizedString, decode_sized_string-whole_inv,
}
use chatix_protocol.PacketType.{register_device, register_response}
use chatix_protocol.Payloads.OfType.{IsPayload}
use chatix_protocol.Payloads.Registration.{
  RegisterDevicePayload, encode_register_device, decode_register_device, RegisterResponsePayload,
  encode_register_response, decode_register_response,
}

pub decode_register_device_inv :
    (bytes : List ℕ) (p : RegisterDevicePayload)
    → AreBytes bytes
    → decode_register_device bytes ≡ ok p
    → IsPayload register_device p × (encode_register_device p ≡ ok bytes)
unfolding encode_register_device decode_register_device require_fully_consumed IsPayload
decode_register_device_inv bytes p h e =
    let ((s, n), d, e') = >>=-eq-ok (decode_sized_string bytes) _ e in
    let (short, q) = decode_sized_string-whole_inv bytes h d in
    let same : p.username ≡ s = ground arith in
    (subst IsSizedString (sym same) (decode_sized_string-IsSizedString bytes h d), ground arith)

pub decode_register_response_inv :
    (bytes : List ℕ) (p : RegisterResponsePayload)
    → AreBytes bytes
    → decode_register_response bytes ≡ ok p
    → IsPayload register_response p × (encode_register_response p ≡ ok bytes)
unfolding encode_register_response decode_register_response slice_from require_fully_consumed index
    IsPayload decode_bool encode_bool
decode_register_response_inv [] p h e = absurd (ground arith)
decode_register_response_inv (b ∷ bytes) p h e = elim (Result-cases (decode_sized_string bytes)) [
  | inl ((s, n), d) ↦
      let (short, q) = decode_sized_string-whole_inv bytes h.1 d in
      let same : p.message ≡ s = ground arith in
      (subst IsSizedString (sym same) (decode_sized_string-IsSizedString bytes h.1 d), ground arith)
  | inr f ↦ absurd (ground arith)
]
