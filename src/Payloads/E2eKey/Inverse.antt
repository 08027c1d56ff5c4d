-- ===== src/Payloads/E2eKey/Inverse.antt =====
-- The payloads of keys: what the decoders accept is what the encoders write.
use chatix_protocol.Base.{
  ℕ, ◌≡◌, sym, ap, subst, arith, List, [], ◌∷◌, ◌++◌, ok, AreBytes, length, slice_from, index,
  length-append, >>=-eq-ok, Result-cases, inl, inr,
}
use chatix_protocol.Sizes.{ml_kem_768_ek_size}
use chatix_protocol.Payloads.E2eKey.RoundTrip.{
  IsPublicKey, IsKeyOption, decode_publish_e2e_key_lem, decode_e2e_key_response_lem,
}
use chatix_protocol.Payloads.Common.Inverse.{empty_of_length, encoded_bytes_inv}
use chatix_protocol.Base.{◌⊎◌, some, none, ◌≢◌}
use chatix_protocol.Payloads.Common.{
  require_fully_consumed, decode_bool, encode_bool, decode_sized_string,
}
use chatix_protocol.Payloads.Common.Sized.{
  sized_string, IsSizedString, encode_sized_string-ok, decode_sized_string-front,
  length-sized_string, slice_from-sized_string,
}
use chatix_protocol.Payloads.Common.Inverse.{
  decode_sized_string-IsSizedString, decode_sized_string-whole_inv, decode_sized_string-front_inv,
  split_front, encoded_inv,
}
use chatix_protocol.PacketType.{
  publish_e2e_key, publish_e2e_key_result, fetch_e2e_key, e2e_key_response,
}
use chatix_protocol.Payloads.OfType.{IsPayload}
use chatix_protocol.Payloads.E2eKey.{
  PublishE2eKeyPayload, encode_publish_e2e_key, decode_publish_e2e_key, PublishE2eKeyResultPayload,
  encode_publish_e2e_key_result, decode_publish_e2e_key_result, FetchE2eKeyPayload,
  encode_fetch_e2e_key, decode_fetch_e2e_key, E2eKeyResponsePayload, encode_e2e_key_response,
  decode_e2e_key_response, E2ePublicKey, e2e_public_key_size, encode_e2e_public_key,
  encode_key_status, e2e_key_status_as_u8, e2e_key_status_from_u8,
}

-- `k` is read from bytes of the size of a key: they are the key's encoding.
e2e_public_key_inv :
    (bytes : List ℕ)
    → AreBytes bytes
    → length bytes ≡ e2e_public_key_size
    → (k : E2ePublicKey) × IsPublicKey k × (bytes ≡ encode_e2e_public_key k)
unfolding encode_e2e_public_key
e2e_public_key_inv bytes h size =
    let (x, others, i, a, q) = split_front 32 bytes h (omega arith) in
    let (ek, vk, j, b, r) =
      split_front ml_kem_768_ek_size others a
        (omega (arith, ap length q, length-append x others, i.size)) in
    (
      record { x25519_public = x; ml_kem_ek = ek; dsa_verifying_key = vk },
      record {
        x25519_public = i.size;
        ml_kem_ek = j.size;
        dsa_verifying_key = omega (
          arith,
          ap length q,
          length-append x others,
          i.size,
          ap length r,
          length-append ek vk,
          j.size,
        );
      },
      rw r at q,
    )

publish_e2e_key_size :
    (bytes : List ℕ) (p : PublishE2eKeyPayload)
    → decode_publish_e2e_key bytes ≡ ok p
    → length bytes ≡ e2e_public_key_size
unfolding decode_publish_e2e_key require_fully_consumed
publish_e2e_key_size bytes p e = ground arith

pub decode_publish_e2e_key_inv :
    (bytes : List ℕ) (p : PublishE2eKeyPayload)
    → AreBytes bytes
    → decode_publish_e2e_key bytes ≡ ok p
    → IsPayload publish_e2e_key p × (encode_publish_e2e_key p ≡ bytes)
unfolding encode_publish_e2e_key IsPayload
decode_publish_e2e_key_inv bytes p h e =
    let (k, v, q) = e2e_public_key_inv bytes h (publish_e2e_key_size bytes p e) in
    encoded_bytes_inv encode_publish_e2e_key decode_publish_e2e_key (record { key = k }) p bytes
      (IsPayload publish_e2e_key) v q (decode_publish_e2e_key_lem k v) e

pub decode_fetch_e2e_key_inv :
    (bytes : List ℕ) (p : FetchE2eKeyPayload)
    → AreBytes bytes
    → decode_fetch_e2e_key bytes ≡ ok p
    → IsPayload fetch_e2e_key p × (encode_fetch_e2e_key p ≡ ok bytes)
unfolding encode_fetch_e2e_key decode_fetch_e2e_key require_fully_consumed IsPayload
decode_fetch_e2e_key_inv bytes p h e =
    let ((s, n), d, e') = >>=-eq-ok (decode_sized_string bytes) _ e in
    let (short, q) = decode_sized_string-whole_inv bytes h d in
    let same : p.target_username ≡ s = ground arith in
    (subst IsSizedString (sym same) (decode_sized_string-IsSizedString bytes h d), ground arith)

pub decode_publish_e2e_key_result_inv :
    (bytes : List ℕ) (p : PublishE2eKeyResultPayload)
    → AreBytes bytes
    → decode_publish_e2e_key_result bytes ≡ ok p
    → IsPayload publish_e2e_key_result p × (encode_publish_e2e_key_result p ≡ ok bytes)
unfolding encode_publish_e2e_key_result decode_publish_e2e_key_result slice_from
    require_fully_consumed index IsPayload decode_bool encode_bool
decode_publish_e2e_key_result_inv [] p h e = absurd (ground arith)
decode_publish_e2e_key_result_inv (b ∷ bytes) p h e =
    elim (Result-cases (decode_sized_string bytes)) [
      | inl ((s, n), d) ↦
          let (short, q) = decode_sized_string-whole_inv bytes h.1 d in
          let same : p.message ≡ s = ground arith in
          (
            subst IsSizedString (sym same) (decode_sized_string-IsSizedString bytes h.1 d),
            ground arith,
          )
      | inr f ↦ absurd (ground arith)
    ]

module _ (s : List ℕ) (v : IsSizedString s) where
  e2e_key_response_some :
      (rest : List ℕ) (p : E2eKeyResponsePayload)
      → AreBytes rest
      → length rest ≡ e2e_public_key_size
      → decode_e2e_key_response (sized_string s ++ 0 ∷ rest) ≡ ok p
      → IsPayload e2e_key_response p × (encode_e2e_key_response p ≡ ok (sized_string s ++ 0 ∷ rest))
  unfolding encode_e2e_key_response encode_key_status e2e_key_status_as_u8 IsKeyOption IsPayload
  e2e_key_response_some rest p h size e =
      let (k, w, q) = e2e_public_key_inv rest h size in
      let bytes : List ℕ = sized_string s ++ 0 ∷ rest in
      encoded_inv encode_e2e_key_response decode_e2e_key_response
        (record { username = s; key = some k }) p bytes (IsPayload e2e_key_response) (v, w)
        (ground (arith, encode_sized_string-ok s v.short, q))
        (decode_e2e_key_response_lem s (some k) v w) e

  e2e_key_response_none :
      (p : E2eKeyResponsePayload)
      → decode_e2e_key_response (sized_string s ++ 1 ∷ []) ≡ ok p
      → IsPayload e2e_key_response p × (encode_e2e_key_response p ≡ ok (sized_string s ++ 1 ∷ []))
  unfolding encode_e2e_key_response encode_key_status e2e_key_status_as_u8 IsKeyOption IsPayload
  e2e_key_response_none p e =
      encoded_inv encode_e2e_key_response decode_e2e_key_response
        (record { username = s; key = none }) p (sized_string s ++ 1 ∷ [])
        (IsPayload e2e_key_response) (v, tt) (ground (arith, encode_sized_string-ok s v.short))
        (decode_e2e_key_response_lem s none v tt) e

  -- The status byte, and how many bytes follow it.
  e2e_key_response_status :
      (b : ℕ) (rest : List ℕ) (p : E2eKeyResponsePayload)
      → decode_e2e_key_response (sized_string s ++ b ∷ rest) ≡ ok p
      → ((b ≡ 0) × (length rest ≡ e2e_public_key_size)) ⊎ ((b ≡ 1) × (length rest ≡ 0))
  unfolding decode_e2e_key_response require_fully_consumed e2e_key_status_from_u8 index
  e2e_key_response_status b rest p e = ground (
    arith,
    decode_sized_string-front s v (b ∷ rest),
    slice_from-sized_string s (b ∷ rest),
    length-sized_string s (b ∷ rest),
    v.short,
  )

  e2e_key_response_empty :
      (p : E2eKeyResponsePayload) → decode_e2e_key_response (sized_string s ++ []) ≢ ok p
  unfolding decode_e2e_key_response
  e2e_key_response_empty p e =
      ground (arith, decode_sized_string-front s v [], slice_from-sized_string s [])

  e2e_key_response_after :
      (rest : List ℕ) (p : E2eKeyResponsePayload)
      → AreBytes rest
      → decode_e2e_key_response (sized_string s ++ rest) ≡ ok p
      → IsPayload e2e_key_response p × (encode_e2e_key_response p ≡ ok (sized_string s ++ rest))
  e2e_key_response_after [] p h e = absurd (e2e_key_response_empty p e)
  e2e_key_response_after (b ∷ rest) p h e = elim (e2e_key_response_status b rest p e) [
    | inl (found, size) ↦ rw found (e2e_key_response_some rest p h.1 size (rw found at e))
    | inr (not_found, size) ↦
        let empty : rest ≡ [] = empty_of_length rest size in
        rw (not_found, empty) (e2e_key_response_none p (rw (not_found, empty) at e))
  ]

e2e_key_response_front :
    (bytes : List ℕ) (p : E2eKeyResponsePayload)
    → AreBytes bytes
    → decode_e2e_key_response bytes ≡ ok p
    → (s rest : List ℕ) × IsSizedString s × AreBytes rest × (bytes ≡ sized_string s ++ rest)
unfolding decode_e2e_key_response
e2e_key_response_front bytes p h e = decode_sized_string-front_inv bytes _ h e

pub decode_e2e_key_response_inv :
    (bytes : List ℕ) (p : E2eKeyResponsePayload)
    → AreBytes bytes
    → decode_e2e_key_response bytes ≡ ok p
    → IsPayload e2e_key_response p × (encode_e2e_key_response p ≡ ok bytes)
decode_e2e_key_response_inv bytes p h e =
    let (s, rest, v, b, q) = e2e_key_response_front bytes p h e in
    rw q (e2e_key_response_after s v rest p b (rw q at e))
