-- ===== src/Crypto/E2e/Verified.antt =====
-- What is decrypted was signed by the sender that is asked for.
use chatix_protocol.Base.{
  ℕ, ◌-◌, ◌≡◌, arith, true, List, ◌++◌, some, ok, err, length, take-append-drop, slice_to,
  slice_from, >>=-eq-ok, ok_or, ltb, if◌then◌else◌,
}
use chatix_protocol.Error.{ProtocolError, crypto_error}
use chatix_protocol.Crypto.Session.{array_from}
use chatix_protocol.Sizes.{ml_dsa_65_sig_size, ml_dsa_65_vk_size}
use chatix_protocol.Codec.Interfaces.{Aead}
use chatix_protocol.Crypto.Primitives.{X25519, MlKem, Hkdf, MlDsa}
use chatix_protocol.Crypto.E2e.{min_blob_len, decrypt_signed, verify_and_decrypt}

split_parts :
    (blob : List ℕ) (n : ℕ) {front back : List ℕ}
    → slice_to {E = ProtocolError} blob n ≡ ok front
    → slice_from {E = ProtocolError} blob n ≡ ok back
    → blob ≡ front ++ back
unfolding slice_to slice_from
split_parts blob n e f = ground (arith, take-append-drop n blob)

array_from-length :
    (bytes : List ℕ) {n : ℕ} {arr : List ℕ} → array_from n bytes ≡ ok arr → length bytes ≡ n
array_from-length bytes e = ground arith

module _ (dh : X25519) (kem : MlKem) (hkdf : Hkdf) (aead : Aead) (dsa : MlDsa) where
  -- When `verify_and_decrypt` gives a text, the blob is a signed part and a signature of the ML-
  -- DSA-65 size, the signature decodes and verifies for the signed part under the sender's
  -- verifying key that was given, and the text is what decrypting the signed part gives.
  pub verify_and_decrypt-verify :
      (blob sk seed vk : List ℕ) {text : List ℕ}
      → verify_and_decrypt dh kem hkdf aead dsa blob sk seed vk ≡ ok text
      → (signed sig : List ℕ) × (s : dsa.Signature) × (blob ≡ signed ++ sig)
        × (length sig ≡ ml_dsa_65_sig_size)
        × (dsa.sig_decode sig ≡ some s)
        × (dsa.verify (dsa.vk_decode vk) signed s ≡ true)
        × (decrypt_signed dh kem hkdf aead dsa signed sk seed ≡ ok text)
  unfolding verify_and_decrypt
  verify_and_decrypt-verify blob sk seed vk {text} h =
      let n = length blob - ml_dsa_65_sig_size in
      let (_, long, h₁) =
        >>=-eq-ok (if ltb (length blob) min_blob_len then err crypto_error else ok tt) _ h in
      let (signed, front, h₂) = >>=-eq-ok (slice_to {E = ProtocolError} blob n) _ h₁ in
      let (sig, back, h₃) = >>=-eq-ok (slice_from {E = ProtocolError} blob n) _ h₂ in
      let (vk_arr, sized, h₄) = >>=-eq-ok (array_from ml_dsa_65_vk_size vk) _ h₃ in
      let (sig_arr, sig_sized, h₅) = >>=-eq-ok (array_from ml_dsa_65_sig_size sig) _ h₄ in
      let (s, decoded, h₆) = >>=-eq-ok (ok_or (dsa.sig_decode sig_arr) crypto_error) _ h₅ in
      let (_, passed, h₇) =
        >>=-eq-ok (if dsa.verify (dsa.vk_decode vk_arr) signed s then ok tt else err crypto_error) _
          h₆ in
      (
        signed,
        sig,
        s,
        split_parts blob n front back,
        array_from-length sig sig_sized,
        ground arith,
        ground arith,
        h₇,
      )
