-- ===== src/Crypto/Session.antt =====
-- src/crypto/session.rs: the hybrid key exchange that gives a session its keys.
pub mod Agreement
pub mod Keys
pub mod Secured
use mathlib.Core.Bool.{not}
use chatix_protocol.Base.{
  ℕ, List, [], ◌∷◌, ◌++◌, Option, none, some, Result, ok, err, ◌>>=◌, ◌>>◌, ok_or, ◌==◌,
  if◌then◌else◌, length,
}
use chatix_protocol.Error.{ProtocolError, crypto_error}
use chatix_protocol.Sizes.{ml_kem_768_ek_size, ml_kem_768_ct_size}
use chatix_protocol.Crypto.Primitives.{X25519, MlKem, Hkdf}

pub record SessionKeys : Type 0 where
  pub client_to_server : List ℕ
  pub server_to_client : List ℕ

-- `b"chatix-c2s-v1"`
abbrev pub c2s_label : List ℕ
c2s_label =
    b'c' ∷ b'h' ∷ b'a' ∷ b't' ∷ b'i' ∷ b'x' ∷ b'-' ∷ b'c' ∷ b'2' ∷ b's' ∷ b'-' ∷ b'v' ∷ b'1' ∷ []

-- `b"chatix-s2c-v1"`
abbrev pub s2c_label : List ℕ
s2c_label =
    b'c' ∷ b'h' ∷ b'a' ∷ b't' ∷ b'i' ∷ b'x' ∷ b'-' ∷ b's' ∷ b'2' ∷ b'c' ∷ b'-' ∷ b'v' ∷ b'1' ∷ []

unfoldable pub handshake_context : List ℕ → List ℕ → List ℕ → List ℕ
handshake_context client_x25519_pk server_x25519_pk ml_kem_ciphertext =
    client_x25519_pk ++ (server_x25519_pk ++ ml_kem_ciphertext)

-- `Array::try_from` of a slice, with the error that the source gives it.
abbrev pub array_from : ℕ → List ℕ → Result ProtocolError (List ℕ)
array_from n bytes = if length bytes == n then ok bytes else err crypto_error

-- The `info` of the two expansions.
abbrev pub c2s_info : List ℕ → List ℕ
c2s_info context = context ++ c2s_label

abbrev pub s2c_info : List ℕ → List ℕ
s2c_info context = context ++ s2c_label

module _ (hkdf : Hkdf) where
  open hkdf use {new, expand}

  unfoldable pub derive_keys : List ℕ → List ℕ → List ℕ → Result ProtocolError SessionKeys
  derive_keys x25519_shared kyber_shared context = do
    let hk = new (x25519_shared ++ kyber_shared)
    c2s ← ok_or (expand hk (c2s_info context) 32) crypto_error
    s2c ← ok_or (expand hk (s2c_info context) 32) crypto_error
    ok (record { client_to_server = c2s; server_to_client = s2c })

module _ (dh : X25519) (kem : MlKem) where
  pub record ClientHandshakeState : Type 0 where
    pub x25519_secret : dh.EphemeralSecret
    pub ml_kem_dk : Option kem.DecapsulationKey
    pub x25519_public : List ℕ
    pub ml_kem_ek : List ℕ

  -- `ClientHandshakeState::generate`, from the two random values.
  unfoldable pub generate : dh.EphemeralSecret → List ℕ → Result ProtocolError ClientHandshakeState
  generate x25519_secret seed = do
    let ml_kem_dk = (kem.generate_keypair seed).0
    let ek_slice = kem.ek_to_bytes (kem.generate_keypair seed).1
    (if not (length ek_slice == ml_kem_768_ek_size) then err crypto_error else ok tt)
    ok (record {
      x25519_secret = x25519_secret;
      ml_kem_dk = some ml_kem_dk;
      x25519_public = dh.public_key x25519_secret;
      ml_kem_ek = ek_slice;
    })

module _ (dh : X25519) (kem : MlKem) (hkdf : Hkdf) where
  -- `ClientHandshakeState::derive_session_keys`
  unfoldable pub derive_session_keys :
      ClientHandshakeState dh kem → List ℕ → List ℕ → Result ProtocolError SessionKeys
  derive_session_keys state server_x25519_pk ml_kem_ciphertext = do
    let x25519_shared = dh.diffie_hellman state.x25519_secret server_x25519_pk
    dk ← ok_or state.ml_kem_dk crypto_error
    ct ← array_from ml_kem_768_ct_size ml_kem_ciphertext
    let kyber_shared = kem.decapsulate dk ct
    let context = handshake_context state.x25519_public server_x25519_pk ml_kem_ciphertext
    derive_keys hkdf x25519_shared kyber_shared context

pub record ServerHandshakeState : Type 0 where
  pub x25519_public : List ℕ
  pub ml_kem_ciphertext : List ℕ
  pub session_keys : SessionKeys

module _ (dh : X25519) (kem : MlKem) (hkdf : Hkdf) where
  -- `ServerHandshakeState::respond`, from the two random values.
  unfoldable pub respond :
      dh.EphemeralSecret → List ℕ → List ℕ → List ℕ → Result ProtocolError ServerHandshakeState
  respond server_secret r client_x25519_pk client_ml_kem_ek = do
    let server_public = dh.public_key server_secret
    let x25519_shared = dh.diffie_hellman server_secret client_x25519_pk
    ek_arr ← array_from ml_kem_768_ek_size client_ml_kem_ek
    ek ← ok_or (kem.ek_new ek_arr) crypto_error
    let ct_bytes = (kem.encapsulate ek r).0
    let kyber_shared = (kem.encapsulate ek r).1
    (if not (length ct_bytes == ml_kem_768_ct_size) then err crypto_error else ok tt)
    let context = handshake_context client_x25519_pk server_public ct_bytes
    session_keys ← derive_keys hkdf x25519_shared kyber_shared context
    ok (record {
      x25519_public = server_public;
      ml_kem_ciphertext = ct_bytes;
      session_keys = session_keys;
    })
