-- ===== src/Payloads/Auth/Inverse.antt =====
-- The payloads of identity: what the decoders accept is what the encoders write.
use chatix_protocol.Base.{
  ℕ, ◌≤◌, ◌≡◌, ap, arith, List, ◌++◌, ok, AreBytes, length, length-append, Result-cases, inl, inr,
  slice_to-append, slice_from-append, slice-append,
}
use chatix_protocol.Payloads.Auth.RoundTrip.{decode_auth_response_lem}
use chatix_protocol.Sizes.{ml_dsa_65_vk_size, ml_dsa_65_sig_size}
use mathlib.Core.List.{append_assoc}
use chatix_protocol.Error.{IoError}
use chatix_protocol.Payloads.Common.{
  try_into, require_fully_consumed, decode_sized_bytes, encode_sized_bytes,
}
use chatix_protocol.Payloads.Common.Inverse.{
  decode_sized_bytes-ReadBytes, decode_sized_bytes-whole_inv, split_front, encoded_inv,
}
use chatix_protocol.PacketType.{auth_challenge, auth_response, auth_accept, auth_reject}
use chatix_protocol.Payloads.OfType.{IsPayload}
use chatix_protocol.Payloads.Auth.{
  AuthChallengePayload, encode_auth_challenge, decode_auth_challenge, AuthResponsePayload,
  encode_auth_response, decode_auth_response, AuthAcceptPayload, encode_auth_accept,
  decode_auth_accept, AuthRejectPayload, encode_auth_reject, decode_auth_reject, fixed,
}

module _ (key sig : List ℕ) (key_size : length key ≡ ml_dsa_65_vk_size)
    (sig_size : length sig ≡ ml_dsa_65_sig_size) where
  auth_response_token :
      (rest : List ℕ) (p : AuthResponsePayload)
      → AreBytes rest
      → decode_auth_response (key ++ (sig ++ rest)) ≡ ok p
      → (c : List ℕ) × (m : ℕ) × (decode_sized_bytes rest ≡ ok (c, m)) × (length rest ≡ m)
  unfolding decode_auth_response require_fully_consumed try_into
  auth_response_token rest p h e = elim (Result-cases (decode_sized_bytes rest)) [
    | inl ((c, n), d) ↦
        let (short, q) = decode_sized_bytes-whole_inv rest h d in
        (
          c,
          n,
          d,
          ground (
            arith,
            length-append key (sig ++ rest),
            length-append sig rest,
            length-append key sig,
            slice_to-append {E = IoError} key (sig ++ rest) ml_dsa_65_vk_size,
            slice-append {E = IoError} key sig rest ml_dsa_65_vk_size fixed,
            append_assoc key sig rest,
            slice_from-append {E = IoError} (key ++ sig) rest fixed,
          ),
        )
    | inr f ↦ absurd (
        ground (
          arith,
          length-append key sig,
          slice_to-append {E = IoError} key (sig ++ rest) ml_dsa_65_vk_size,
          slice-append {E = IoError} key sig rest ml_dsa_65_vk_size fixed,
          append_assoc key sig rest,
          slice_from-append {E = IoError} (key ++ sig) rest fixed,
        ))
  ]

  auth_response_after :
      (rest : List ℕ) (p : AuthResponsePayload)
      → AreBytes rest
      → decode_auth_response (key ++ (sig ++ rest)) ≡ ok p
      → IsPayload auth_response p × (encode_auth_response p ≡ ok (key ++ (sig ++ rest)))
  unfolding encode_auth_response IsPayload
  auth_response_after rest p h e =
      let (c, n, d, whole) = auth_response_token rest p h e in
      let r = decode_sized_bytes-ReadBytes rest h d in
      let token : encode_sized_bytes c ≡ ok rest =
        (decode_sized_bytes-whole_inv rest h d).1 whole in
      encoded_inv encode_auth_response decode_auth_response
        (record { public_key = key; signature = sig; attestation_token = c }) p
        (key ++ (sig ++ rest)) (IsPayload auth_response) (key_size, sig_size, r.short)
        (ground (arith, token)) (decode_auth_response_lem key sig c key_size sig_size r.short) e

auth_response_long :
    (bytes : List ℕ) (p : AuthResponsePayload)
    → decode_auth_response bytes ≡ ok p
    → fixed ≤ length bytes
unfolding decode_auth_response
auth_response_long bytes p e = ground arith

pub decode_auth_response_inv :
    (bytes : List ℕ) (p : AuthResponsePayload)
    → AreBytes bytes
    → decode_auth_response bytes ≡ ok p
    → IsPayload auth_response p × (encode_auth_response p ≡ ok bytes)
decode_auth_response_inv bytes p h e =
    let long = auth_response_long bytes p e in
    let (key, others, i, a, q) = split_front ml_dsa_65_vk_size bytes h (omega arith) in
    let (signature, rest, j, b, r) =
      split_front ml_dsa_65_sig_size others a
        (omega (arith, ap length q, length-append key others, i.size)) in
    let whole : bytes ≡ key ++ (signature ++ rest) = rw r at q in
    rw whole (auth_response_after key signature i.size j.size rest p b (rw whole at e))

pub decode_auth_challenge_inv :
    (bytes : List ℕ) (p : AuthChallengePayload)
    → AreBytes bytes
    → decode_auth_challenge bytes ≡ ok p
    → IsPayload auth_challenge p × (encode_auth_challenge p ≡ bytes)
unfolding encode_auth_challenge decode_auth_challenge IsPayload
decode_auth_challenge_inv bytes p h e = (ground arith, grind (arith))

pub decode_auth_accept_inv :
    (bytes : List ℕ) (p : AuthAcceptPayload)
    → AreBytes bytes
    → decode_auth_accept bytes ≡ ok p
    → IsPayload auth_accept p × (encode_auth_accept p ≡ bytes)
unfolding encode_auth_accept decode_auth_accept IsPayload
decode_auth_accept_inv bytes p h e = (tt, grind (arith))

pub decode_auth_reject_inv :
    (bytes : List ℕ) (p : AuthRejectPayload)
    → AreBytes bytes
    → decode_auth_reject bytes ≡ ok p
    → IsPayload auth_reject p × (encode_auth_reject p ≡ bytes)
unfolding encode_auth_reject decode_auth_reject IsPayload
decode_auth_reject_inv bytes p h e = (tt, grind (arith))
