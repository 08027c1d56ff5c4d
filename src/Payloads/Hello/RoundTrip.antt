-- ===== src/Payloads/Hello/RoundTrip.antt =====
-- The hellos are read back as they were written.
use chatix_protocol.Base.{
  ℕ, ◌+◌, ◌≡◌, refl, arith, Bool, true, false, List, [], ◌++◌, ok, ◌>>=◌, length, length-append,
  slice_to-append, index, slice-append,
}
use mathlib.Core.List.{append-nil, append_assoc}
use chatix_protocol.Error.{IoError}
use chatix_protocol.Sizes.{ml_kem_768_ek_size, ml_kem_768_ct_size, ml_dsa_65_sig_size}
use chatix_protocol.Payloads.Common.{try_into, decode_bool, encode_bool, require_fully_consumed}
use chatix_protocol.Payloads.Common.Sized.{
  encode_sized_string-ok, IsSizedString, length-sized_string, slice_from-sized_string,
  decode_sized_string-front,
}
use chatix_protocol.Payloads.Hello.{
  encode_client_hello, decode_client_hello, encode_server_hello, decode_server_hello,
  encode_client_finish, decode_client_finish, encode_server_accept, decode_server_accept,
}

module _ (s : List ℕ) (v : IsSizedString s) where
  pub decode_client_hello_lem :
      (x ek : List ℕ)
      → length x ≡ 32
      → length ek ≡ ml_kem_768_ek_size
      → (encode_client_hello (record { client_id = s; x25519_public_key = x; ml_kem_ek = ek })
          >>= decode_client_hello)
        ≡ ok (record { client_id = s; x25519_public_key = x; ml_kem_ek = ek })
  unfolding encode_client_hello decode_client_hello require_fully_consumed try_into
  decode_client_hello_lem x ek hx he = ground (
    arith,
    encode_sized_string-ok s v.short,
    decode_sized_string-front s v (x ++ ek),
    length-sized_string s (x ++ ek),
    slice_from-sized_string s (x ++ ek),
    length-append x ek,
    slice_to-append {E = IoError} x ek 32,
    slice-append {E = IoError} x ek [] 32 (32 + ml_kem_768_ek_size),
    append-nil ek,
    v.short,
  )

  pub decode_server_hello_lem :
      (x ct sig : List ℕ)
      → length x ≡ 32
      → length ct ≡ ml_kem_768_ct_size
      → length sig ≡ ml_dsa_65_sig_size
      → (encode_server_hello (record {
        server_id = s;
        x25519_public_key = x;
        ml_kem_ciphertext = ct;
        signature = sig;
      })
          >>= decode_server_hello)
        ≡ ok (record {
          server_id = s;
          x25519_public_key = x;
          ml_kem_ciphertext = ct;
          signature = sig;
        })
  unfolding encode_server_hello decode_server_hello require_fully_consumed try_into
  decode_server_hello_lem x ct sig hx hc hs = ground (
    arith,
    encode_sized_string-ok s v.short,
    decode_sized_string-front s v (x ++ (ct ++ sig)),
    length-sized_string s (x ++ (ct ++ sig)),
    slice_from-sized_string s (x ++ (ct ++ sig)),
    length-append x (ct ++ sig),
    length-append ct sig,
    length-append x ct,
    slice_to-append {E = IoError} x (ct ++ sig) 32,
    slice-append {E = IoError} x ct sig 32 (32 + ml_kem_768_ct_size),
    append_assoc x ct sig,
    slice-append {E = IoError} (x ++ ct) sig [] (32 + ml_kem_768_ct_size)
        (32 + ml_kem_768_ct_size + ml_dsa_65_sig_size),
    append-nil sig,
    v.short,
  )

pub decode_client_finish_lem :
    (b : Bool)
    → decode_client_finish (encode_client_finish (record { ready = b })) ≡ ok (record { ready = b })
unfolding encode_client_finish decode_client_finish encode_bool decode_bool index
decode_client_finish_lem true = refl
decode_client_finish_lem false = refl

pub decode_server_accept_lem :
    (b : Bool)
    → decode_server_accept (encode_server_accept (record { accepted = b }))
      ≡ ok (record { accepted = b })
unfolding encode_server_accept decode_server_accept encode_bool decode_bool index
decode_server_accept_lem true = refl
decode_server_accept_lem false = refl
