-- ===== src/Payloads/Hello.antt =====
-- src/payloads/hello_payloads.rs: the hellos of the handshake and their acknowledgement.
pub mod Inverse
pub mod RoundTrip
pub mod Total
use mathlib.Core.Bool.{not}
use chatix_protocol.Base.{
  ℕ, ◌+◌, Bool, List, [], ◌∷◌, ◌++◌, ok, err, ◌>>=◌, ◌>>◌, ltb, ◌==◌, if◌then◌else◌, length, index,
  slice, slice_to, slice_from,
}
use chatix_protocol.Error.{IoResult, data_error}
use chatix_protocol.Sizes.{ml_kem_768_ek_size, ml_kem_768_ct_size, ml_dsa_65_sig_size}
use chatix_protocol.Payloads.Common.{
  encode_sized_string, decode_sized_string, add_usize, require_fully_consumed, decode_bool,
  encode_bool, try_into,
}

pub record ClientHelloPayload : Type 0 where
  pub client_id : List ℕ
  pub x25519_public_key : List ℕ
  pub ml_kem_ek : List ℕ

unfoldable pub encode_client_hello : ClientHelloPayload → IoResult (List ℕ)
encode_client_hello p = do
  id ← encode_sized_string p.client_id
  ok (id ++ (p.x25519_public_key ++ p.ml_kem_ek))

unfoldable pub decode_client_hello : List ℕ → IoResult ClientHelloPayload
unfolding try_into require_fully_consumed
decode_client_hello bytes = do
  (client_id, consumed) ← decode_sized_string bytes
  after_id ← slice_from bytes consumed
  (if ltb (length after_id) (32 + ml_kem_768_ek_size)
      then err (data_error "client_hello too short for key material")
      else ok tt)
  front ← slice_to after_id 32
  x25519_public_key ← try_into 32 front (data_error "invalid x25519 key length")
  ml_kem_ek ← slice after_id 32 (32 + ml_kem_768_ek_size)
  require_fully_consumed bytes (add_usize (add_usize consumed 32) ml_kem_768_ek_size) "client_hello"
  ok (record {
    client_id = client_id;
    x25519_public_key = x25519_public_key;
    ml_kem_ek = ml_kem_ek;
  })

pub record ServerHelloPayload : Type 0 where
  pub server_id : List ℕ
  pub x25519_public_key : List ℕ
  pub ml_kem_ciphertext : List ℕ
  pub signature : List ℕ

unfoldable pub encode_server_hello : ServerHelloPayload → IoResult (List ℕ)
encode_server_hello p = do
  id ← encode_sized_string p.server_id
  ok (id ++ (p.x25519_public_key ++ (p.ml_kem_ciphertext ++ p.signature)))

unfoldable pub decode_server_hello : List ℕ → IoResult ServerHelloPayload
unfolding try_into require_fully_consumed
decode_server_hello bytes = do
  (server_id, consumed) ← decode_sized_string bytes
  after_id ← slice_from bytes consumed
  let fixed_len = 32 + ml_kem_768_ct_size + ml_dsa_65_sig_size
  (if ltb (length after_id) fixed_len
      then err (data_error "server_hello too short for key material")
      else ok tt)
  front ← slice_to after_id 32
  x25519_public_key ← try_into 32 front (data_error "invalid x25519 key length")
  let ml_kem_end = 32 + ml_kem_768_ct_size
  ml_kem_ciphertext ← slice after_id 32 ml_kem_end
  signature ← slice after_id ml_kem_end fixed_len
  require_fully_consumed bytes (add_usize consumed fixed_len) "server_hello"
  ok (record {
    server_id = server_id;
    x25519_public_key = x25519_public_key;
    ml_kem_ciphertext = ml_kem_ciphertext;
    signature = signature;
  })

pub record ClientFinishPayload : Type 0 where
  pub ready : Bool

unfoldable pub encode_client_finish : ClientFinishPayload → List ℕ
unfolding encode_bool
encode_client_finish p = encode_bool p.ready ∷ []

unfoldable pub decode_client_finish : List ℕ → IoResult ClientFinishPayload
unfolding decode_bool
decode_client_finish bytes = do
  (if not (length bytes == 1)
      then err (data_error "client_finish payload must be exactly 1 byte")
      else ok tt)
  byte ← index bytes 0
  ready ← decode_bool byte "client_finish ready"
  ok (record { ready = ready })

pub record ServerAcceptPayload : Type 0 where
  pub accepted : Bool

unfoldable pub encode_server_accept : ServerAcceptPayload → List ℕ
unfolding encode_bool
encode_server_accept p = encode_bool p.accepted ∷ []

unfoldable pub decode_server_accept : List ℕ → IoResult ServerAcceptPayload
unfolding decode_bool
decode_server_accept bytes = do
  (if not (length bytes == 1)
      then err (data_error "server_accept payload must be exactly 1 byte")
      else ok tt)
  byte ← index bytes 0
  accepted ← decode_bool byte "server_accept accepted"
  ok (record { accepted = accepted })
