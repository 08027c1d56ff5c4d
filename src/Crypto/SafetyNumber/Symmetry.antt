-- ===== src/Crypto/SafetyNumber/Symmetry.antt =====
-- src/crypto/safety_number.rs: both users see the same number; a pinned key is checked for equality.
use chatix_protocol.Base.{
  ℕ, ◌≡◌, ◌≢◌, ◌↔◌, refl, sym, ap, ◌∙◌, arith, true, false, List, [], ◌∷◌, ok, bytes_eq_iff,
}
use chatix_protocol.Payloads.E2eKey.{E2ePublicKey}
use chatix_protocol.Crypto.Primitives.{Sha256}
use chatix_protocol.Crypto.SafetyNumber.{str_le, safety_number, key_eq, verify_key_unchanged}

-- The order of strings is total and antisymmetric.
str_le-total : (a b : List ℕ) → str_le a b ≡ false → str_le b a ≡ true
unfolding str_le
str_le-total [] b h = cc
str_le-total (x ∷ a) [] h = refl
str_le-total (x ∷ a) (y ∷ b) h = ground (arith, str_le-total a b)

str_le-antisym : (a b : List ℕ) → str_le a b ≡ true → str_le b a ≡ true → a ≡ b
unfolding str_le
str_le-antisym [] [] h k = refl
str_le-antisym [] (y ∷ b) h k = cc
str_le-antisym (x ∷ a) [] h k = cc
str_le-antisym (x ∷ a) (y ∷ b) h k = ground (arith, str_le-antisym a b)

module _ (sha256 : Sha256) where
  -- Two users with different identifiers compute the same safety number, whichever of them is the
  -- local one.
  pub safety_number_comm :
      (a : List ℕ) (ka : E2ePublicKey) (b : List ℕ) (kb : E2ePublicKey)
      → a ≢ b
      → safety_number sha256 a ka b kb ≡ safety_number sha256 b kb a ka
  unfolding safety_number
  safety_number_comm a ka b kb ne = ground (arith, str_le-total a b, str_le-antisym a b)

key_eq_sound : (a b : E2ePublicKey) → key_eq a b ≡ true → a ≡ b
unfolding key_eq
key_eq_sound a b h = ground (
  arith,
  bytes_eq_iff a.x25519_public b.x25519_public,
  bytes_eq_iff a.ml_kem_ek b.ml_kem_ek,
  bytes_eq_iff a.dsa_verifying_key b.dsa_verifying_key,
)

key_eq_refl : (a : E2ePublicKey) → key_eq a a ≡ true
unfolding key_eq
key_eq_refl a = ground (
  arith,
  bytes_eq_iff a.x25519_public a.x25519_public,
  bytes_eq_iff a.ml_kem_ek a.ml_kem_ek,
  bytes_eq_iff a.dsa_verifying_key a.dsa_verifying_key,
)

-- `verify_key_unchanged` succeeds exactly when the fetched key is the pinned one.
verify_key_unchanged_iff :
    (identifier : List ℕ) (pinned fetched : E2ePublicKey)
    → (verify_key_unchanged identifier pinned fetched ≡ ok tt) ↔ (pinned ≡ fetched)
unfolding verify_key_unchanged
verify_key_unchanged_iff identifier pinned fetched = (
  λ h. key_eq_sound pinned fetched (ground arith),
  λ e. ground (arith, ap (λ k. key_eq pinned k) (sym e) ∙ key_eq_refl pinned),
)
