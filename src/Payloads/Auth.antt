-- ===== src/Payloads/Auth.antt =====
-- src/payloads/auth_payloads.rs: the proof of a client's identity.
pub mod Inverse
pub mod RoundTrip
pub mod Total
use mathlib.Core.Bool.{not}
use chatix_protocol.Base.{
  ℕ, ◌+◌, List, [], ◌++◌, ok, err, ◌>>=◌, ◌>>◌, ltb, ◌==◌, if◌then◌else◌, length, slice, slice_to,
  slice_from,
}
use chatix_protocol.Error.{IoResult, data_error}
use chatix_protocol.Sizes.{ml_dsa_65_sig_size, ml_dsa_65_vk_size}
use chatix_protocol.Payloads.Common.{
  encode_sized_bytes, decode_sized_bytes, add_usize, require_fully_consumed, try_into,
}

pub record AuthChallengePayload : Type 0 where
  pub nonce : List ℕ

unfoldable pub encode_auth_challenge : AuthChallengePayload → List ℕ
encode_auth_challenge p = p.nonce

unfoldable pub decode_auth_challenge : List ℕ → IoResult AuthChallengePayload
decode_auth_challenge bytes = do
  (if not (length bytes == 32)
      then err (data_error "auth_challenge must be exactly 32 bytes")
      else ok tt)
  ok (record { nonce = bytes })

pub record AuthResponsePayload : Type 0 where
  pub public_key : List ℕ
  pub signature : List ℕ
  pub attestation_token : List ℕ

-- `AuthResponsePayload::FIXED`
abbrev pub fixed : ℕ
fixed = ml_dsa_65_vk_size + ml_dsa_65_sig_size

unfoldable pub encode_auth_response : AuthResponsePayload → IoResult (List ℕ)
encode_auth_response p = do
  att ← encode_sized_bytes p.attestation_token
  ok (p.public_key ++ (p.signature ++ att))

unfoldable pub decode_auth_response : List ℕ → IoResult AuthResponsePayload
unfolding try_into require_fully_consumed
decode_auth_response bytes = do
  (if ltb (length bytes) (fixed + 4) then err (data_error "auth_response too short") else ok tt)
  front ← slice_to bytes ml_dsa_65_vk_size
  public_key ← try_into ml_dsa_65_vk_size front (data_error "invalid public key")
  second ← slice bytes ml_dsa_65_vk_size fixed
  signature ← try_into ml_dsa_65_sig_size second (data_error "invalid signature")
  tail ← slice_from bytes fixed
  (attestation_token, att_consumed) ← decode_sized_bytes tail
  require_fully_consumed bytes (add_usize fixed att_consumed) "auth_response"
  ok (record {
    public_key = public_key;
    signature = signature;
    attestation_token = attestation_token;
  })

-- The two results have no fields.
abbrev pub AuthAcceptPayload : Type 0
AuthAcceptPayload = Unit {0}

unfoldable pub encode_auth_accept : AuthAcceptPayload → List ℕ
encode_auth_accept p = []

unfoldable pub decode_auth_accept : List ℕ → IoResult AuthAcceptPayload
decode_auth_accept bytes = do
  (if not (length bytes == 0) then err (data_error "auth_accept payload must be empty") else ok tt)
  ok tt

abbrev pub AuthRejectPayload : Type 0
AuthRejectPayload = Unit {0}

unfoldable pub encode_auth_reject : AuthRejectPayload → List ℕ
encode_auth_reject p = []

unfoldable pub decode_auth_reject : List ℕ → IoResult AuthRejectPayload
decode_auth_reject bytes = do
  (if not (length bytes == 0) then err (data_error "auth_reject payload must be empty") else ok tt)
  ok tt
