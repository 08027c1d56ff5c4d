-- ===== src/Crypto/Primitives.antt =====
-- What src/crypto/ calls and does not implement: x25519-dalek, ml-kem, hkdf, sha2 and
-- ml-dsa. A random value is an
-- argument.
use chatix_protocol.Base.{ℕ, ◌*◌, ◌≤◌, ◌≡◌, List, Option, some, length, IsArray, Bool, true}
use chatix_protocol.Sizes.{
  ml_kem_768_ek_size, ml_kem_768_ct_size, ml_dsa_65_sig_size, ml_dsa_65_vk_size,
}

-- `PublicKey::from` and `diffie_hellman` of x25519-dalek, whose `EphemeralSecret` and `StaticSecret` are
-- both a scalar; a `StaticSecret` also has bytes.
pub record X25519 : Type 1 where
  pub EphemeralSecret : Type 0
  pub public_key : EphemeralSecret → List ℕ
  pub diffie_hellman : EphemeralSecret → List ℕ → List ℕ
  pub secret_to_bytes : EphemeralSecret → List ℕ
  pub secret_from_bytes : List ℕ → EphemeralSecret

-- Each side computes the same shared secret from the public key of the other.
pub record IsX25519 (dh : X25519) : Type 0 where
  pub length_public_key : (a : dh.EphemeralSecret) → length (dh.public_key a) ≡ 32
  pub diffie_hellman_comm :
      (a b : dh.EphemeralSecret)
      → dh.diffie_hellman a (dh.public_key b) ≡ dh.diffie_hellman b (dh.public_key a)
  pub secret_from_to_bytes :
      (a : dh.EphemeralSecret) → dh.secret_from_bytes (dh.secret_to_bytes a) ≡ a

-- `MlKem768` of ml-kem. A ciphertext is its bytes.
pub record MlKem : Type 1 where
  pub DecapsulationKey : Type 0
  pub EncapsulationKey : Type 0
  pub generate_keypair : List ℕ → DecapsulationKey × EncapsulationKey
  pub ek_to_bytes : EncapsulationKey → List ℕ
  pub ek_new : List ℕ → Option EncapsulationKey
  pub encapsulate : EncapsulationKey → List ℕ → List ℕ × List ℕ
  pub decapsulate : DecapsulationKey → List ℕ → List ℕ

-- A generated key is read back from its bytes, which have the size of FIPS 203, and what is encapsulated
-- for it comes out of its ciphertext.
pub record IsMlKem (kem : MlKem) : Type 0 where
  pub length_ek :
      (seed : List ℕ) → length (kem.ek_to_bytes (kem.generate_keypair seed).1) ≡ ml_kem_768_ek_size
  pub ek_new_to_bytes :
      (seed : List ℕ)
      → kem.ek_new (kem.ek_to_bytes (kem.generate_keypair seed).1)
        ≡ some (kem.generate_keypair seed).1
  pub length_ct :
      (ek : kem.EncapsulationKey) (r : List ℕ)
      → length (kem.encapsulate ek r).0 ≡ ml_kem_768_ct_size
  pub decapsulate_encapsulate :
      (seed r : List ℕ)
      → kem.decapsulate
          (kem.generate_keypair seed).0
          (kem.encapsulate (kem.generate_keypair seed).1 r).0
        ≡ (kem.encapsulate (kem.generate_keypair seed).1 r).1

-- `Hkdf<Sha256>` of hkdf, with no salt.
pub record Hkdf : Type 1 where
  pub Prk : Type 0
  pub new : List ℕ → Prk
  pub expand : Prk → List ℕ → ℕ → Option (List ℕ)

-- At most 255 blocks of 32 bytes can be asked for.
pub record IsHkdf (hkdf : Hkdf) : Type 0 where
  pub expand_ok :
      (k : hkdf.Prk) (info : List ℕ) (n : ℕ)
      → n ≤ 255 * 32
      → (out : List ℕ) × (hkdf.expand k info n ≡ some out) × (length out ≡ n)

-- `Sha256` of sha2, on all that the hasher was updated with.
pub record Sha256 : Type 0 where
  pub digest : List ℕ → List ℕ

pub record IsSha256 (sha256 : Sha256) : Type 0 where
  pub digest_array : (bytes : List ℕ) → IsArray 32 (sha256.digest bytes)

-- `MlDsa65` of ml-dsa.
pub record MlDsa : Type 1 where
  pub SigningKey : Type 0
  pub VerifyingKey : Type 0
  pub Signature : Type 0
  pub to_seed : SigningKey → List ℕ
  pub from_seed : List ℕ → SigningKey
  pub verifying_key : SigningKey → VerifyingKey
  pub vk_encode : VerifyingKey → List ℕ
  pub vk_decode : List ℕ → VerifyingKey
  pub sign : SigningKey → List ℕ → Signature
  pub sig_encode : Signature → List ℕ
  pub sig_decode : List ℕ → Option Signature
  pub verify : VerifyingKey → List ℕ → Signature → Bool

-- Encodings have the sizes of FIPS 204 and are read back, a key is its seed, and a signature verifies
-- under the verifying key of its signing key.
pub record IsMlDsa (dsa : MlDsa) : Type 0 where
  pub length_seed : (sk : dsa.SigningKey) → length (dsa.to_seed sk) ≡ 32
  pub from_seed_to_seed : (sk : dsa.SigningKey) → dsa.from_seed (dsa.to_seed sk) ≡ sk
  pub length_vk : (vk : dsa.VerifyingKey) → length (dsa.vk_encode vk) ≡ ml_dsa_65_vk_size
  pub vk_decode_encode : (vk : dsa.VerifyingKey) → dsa.vk_decode (dsa.vk_encode vk) ≡ vk
  pub length_sig : (s : dsa.Signature) → length (dsa.sig_encode s) ≡ ml_dsa_65_sig_size
  pub sig_decode_encode : (s : dsa.Signature) → dsa.sig_decode (dsa.sig_encode s) ≡ some s
  pub verify_sign :
      (sk : dsa.SigningKey) (m : List ℕ)
      → dsa.verify (dsa.verifying_key sk) m (dsa.sign sk m) ≡ true
