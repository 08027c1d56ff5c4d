-- ===== src/Payloads/Account/Inverse.antt =====
-- The payloads of accounts: what the decoders accept is what the encoders write.
use chatix_protocol.Base.{
  ℕ, ◌+◌, ◌≡◌, refl, sym, subst, arith, List, [], ◌∷◌, ◌++◌, ok, AreBytes, length, slice,
  slice_from, index, length-append, length-to_be_bytes, ◌≢◌, take_all, to_be_bytes, from_be_bytes,
  Result-cases, inl, inr, slice_from-append,
}
use chatix_protocol.Error.{IoError}
use chatix_protocol.Payloads.Common.{
  try_into, require_fully_consumed, decode_bool, encode_bool, decode_sized_string,
}
use chatix_protocol.Payloads.Common.Sized.{
  sized_string, IsSizedString, encode_sized_string-ok, decode_sized_string-front,
  length-sized_string,
}
use chatix_protocol.Payloads.Common.Inverse.{
  from_be_bytes_small, decode_sized_string-ReadString, to_be_bytes_inv,
}
use chatix_protocol.PacketType.{query_account_status, account_status_response}
use chatix_protocol.Payloads.OfType.{IsPayload}
use chatix_protocol.Payloads.Account.{
  QueryAccountStatusPayload, encode_query_account_status, decode_query_account_status,
  AccountStatusResponsePayload, encode_account_status_response, decode_account_status_response,
}

pub decode_query_account_status_inv :
    (bytes : List ℕ) (p : QueryAccountStatusPayload)
    → AreBytes bytes
    → decode_query_account_status bytes ≡ ok p
    → IsPayload query_account_status p × (encode_query_account_status p ≡ bytes)
unfolding encode_query_account_status decode_query_account_status IsPayload require_fully_consumed
decode_query_account_status_inv bytes p h e = (tt, grind (arith))

module _ (s : List ℕ) (v : IsSizedString s) where
  after_flag :
      (b : ℕ) (rest : List ℕ)
      → slice_from {E = IoError} (b ∷ (sized_string s ++ rest)) (1 + (2 + length s)) ≡ ok rest
  after_flag b rest =
      slice_from-append (b ∷ sized_string s) rest (1 + (2 + length s))
        (omega (arith, length-append (to_be_bytes 2 (length s)) s, length-to_be_bytes 2 (length s)))

  first_flag :
      (b : ℕ) (rest : List ℕ)
      → slice_from {E = IoError} (b ∷ (sized_string s ++ rest)) 1 ≡ ok (sized_string s ++ rest)
  first_flag b rest = slice_from-append (b ∷ []) (sized_string s ++ rest) 1 refl

  without_fields :
      (b : ℕ) (p : AccountStatusResponsePayload)
      → decode_account_status_response (b ∷ (sized_string s ++ [])) ≢ ok p
  unfolding decode_account_status_response index
  without_fields b p e =
      ground (arith, first_flag b [], after_flag b [], decode_sized_string-front s v [], v.short)

  account_status_response_after :
      (b c : ℕ) (rest : List ℕ) (p : AccountStatusResponsePayload)
      → AreBytes rest
      → decode_account_status_response (b ∷ (sized_string s ++ c ∷ rest)) ≡ ok p
      → IsPayload account_status_response p
        × (encode_account_status_response p ≡ ok (b ∷ (sized_string s ++ c ∷ rest)))
  unfolding encode_account_status_response decode_account_status_response decode_bool encode_bool
      try_into slice index IsPayload
  account_status_response_after b c rest p h e =
      let same : p.ban_reason ≡ s =
        ground (arith, first_flag b (c ∷ rest), decode_sized_string-front s v (c ∷ rest)) in
      let size : length rest ≡ 8 = ground (
        arith,
        first_flag b (c ∷ rest),
        after_flag b (c ∷ rest),
        decode_sized_string-front s v (c ∷ rest),
        v.short,
      ) in
      let expiry : p.subscription_expiry_timestamp ≡ from_be_bytes rest = ground (
        arith,
        first_flag b (c ∷ rest),
        after_flag b (c ∷ rest),
        decode_sized_string-front s v (c ∷ rest),
        take_all rest 8,
        v.short,
      ) in
      (
        (subst IsSizedString (sym same) v, omega (arith, expiry, from_be_bytes_small rest h size)),
        ground (
          arith,
          encode_sized_string-ok s v.short,
          decode_sized_string-front s v (c ∷ rest),
          length-sized_string s (c ∷ rest),
          first_flag b (c ∷ rest),
          after_flag b (c ∷ rest),
          take_all rest 8,
          to_be_bytes_inv rest h,
          v.short,
        ),
      )

  account_status_response_of :
      (b : ℕ) (rest : List ℕ) (p : AccountStatusResponsePayload)
      → AreBytes rest
      → decode_account_status_response (b ∷ (sized_string s ++ rest)) ≡ ok p
      → IsPayload account_status_response p
        × (encode_account_status_response p ≡ ok (b ∷ (sized_string s ++ rest)))
  account_status_response_of b [] p h e = absurd (without_fields b p e)
  account_status_response_of b (c ∷ rest) p h e = account_status_response_after b c rest p h.1 e

pub decode_account_status_response_inv :
    (bytes : List ℕ) (p : AccountStatusResponsePayload)
    → AreBytes bytes
    → decode_account_status_response bytes ≡ ok p
    → IsPayload account_status_response p × (encode_account_status_response p ≡ ok bytes)
unfolding decode_account_status_response slice_from
decode_account_status_response_inv [] p h e = ground arith
decode_account_status_response_inv (b ∷ bytes) p h e =
    elim (Result-cases (decode_sized_string bytes)) [
      | inl ((s, n), d) ↦
          let r = decode_sized_string-ReadString bytes h.1 d in
          rw r.split (
            account_status_response_of s (record { text = r.is_text; short = r.short }) b r.rest p
              r.rest_bytes (rw r.split at e))
      | inr f ↦ absurd (ground arith)
    ]
