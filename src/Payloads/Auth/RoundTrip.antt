-- ===== src/Payloads/Auth/RoundTrip.antt =====
-- The proof of identity is read back as it was written.
use chatix_protocol.Base.{
  ℕ, ◌<◌, ◌^◌, ◌≡◌, arith, List, [], ◌++◌, ok, ◌>>=◌, length, length-append, to_be_bytes,
  length-to_be_bytes, slice_to-append, slice_from-append, slice-append,
}
use mathlib.Core.List.{append-nil, append_assoc}
use chatix_protocol.Error.{IoError}
use chatix_protocol.Sizes.{ml_dsa_65_sig_size, ml_dsa_65_vk_size}
use chatix_protocol.Payloads.Common.{try_into, require_fully_consumed}
use chatix_protocol.Payloads.Common.Sized.{
  sized_bytes, encode_sized_bytes-ok, decode_sized_bytes-append,
}
use chatix_protocol.Payloads.Auth.{
  encode_auth_challenge, decode_auth_challenge, fixed, encode_auth_response, decode_auth_response,
}

pub decode_auth_challenge_lem :
    (n : List ℕ)
    → length n ≡ 32
    → decode_auth_challenge (encode_auth_challenge (record { nonce = n }))
      ≡ ok (record { nonce = n })
unfolding encode_auth_challenge decode_auth_challenge
decode_auth_challenge_lem n h = ground arith

pub decode_auth_response_lem :
    (key sig token : List ℕ)
    → length key ≡ ml_dsa_65_vk_size
    → length sig ≡ ml_dsa_65_sig_size
    → length token < 2 ^ 32
    → (encode_auth_response
          (record { public_key = key; signature = sig; attestation_token = token })
        >>= decode_auth_response)
      ≡ ok (record { public_key = key; signature = sig; attestation_token = token })
unfolding encode_auth_response decode_auth_response require_fully_consumed try_into
decode_auth_response_lem key sig token hk hs ht = ground (
  arith,
  encode_sized_bytes-ok token,
  length-append key (sig ++ sized_bytes token),
  length-append sig (sized_bytes token),
  length-append key sig,
  length-append (to_be_bytes 4 (length token)) token,
  length-to_be_bytes 4 (length token),
  slice_to-append {E = IoError} key (sig ++ sized_bytes token) ml_dsa_65_vk_size,
  slice-append {E = IoError} key sig (sized_bytes token) ml_dsa_65_vk_size fixed,
  append_assoc key sig (sized_bytes token),
  slice_from-append {E = IoError} (key ++ sig) (sized_bytes token) fixed,
  decode_sized_bytes-append token [],
  append-nil (sized_bytes token),
)
