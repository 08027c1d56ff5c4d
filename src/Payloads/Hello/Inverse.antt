-- ===== src/Payloads/Hello/Inverse.antt =====
-- The payloads of the handshake: what the decoders accept is what the encoders write.
use chatix_protocol.Base.{
  ℕ, ◌+◌, ◌≡◌, ap, arith, List, ◌++◌, ok, AreBytes, length, index, length-append,
}
use chatix_protocol.Sizes.{ml_kem_768_ek_size, ml_kem_768_ct_size, ml_dsa_65_sig_size}
use chatix_protocol.Payloads.Hello.RoundTrip.{decode_client_hello_lem, decode_server_hello_lem}
use chatix_protocol.Payloads.Common.{require_fully_consumed, decode_bool, encode_bool}
use chatix_protocol.Payloads.Common.Sized.{
  sized_string, IsSizedString, encode_sized_string-ok, decode_sized_string-front,
  length-sized_string, slice_from-sized_string,
}
use chatix_protocol.Payloads.Common.Inverse.{
  decode_sized_string-front_inv, split_front, encoded_inv,
}
use chatix_protocol.PacketType.{client_hello, server_hello, client_finish, server_accept}
use chatix_protocol.Payloads.OfType.{IsPayload}
use chatix_protocol.Payloads.Hello.{
  ClientHelloPayload, encode_client_hello, decode_client_hello, ServerHelloPayload,
  encode_server_hello, decode_server_hello, ClientFinishPayload, encode_client_finish,
  decode_client_finish, ServerAcceptPayload, encode_server_accept, decode_server_accept,
}

module _ (s : List ℕ) (v : IsSizedString s) where
  client_hello_size :
      (rest : List ℕ) (p : ClientHelloPayload)
      → decode_client_hello (sized_string s ++ rest) ≡ ok p
      → length rest ≡ 32 + ml_kem_768_ek_size
  unfolding decode_client_hello require_fully_consumed
  client_hello_size rest p e = ground (
    arith,
    decode_sized_string-front s v rest,
    slice_from-sized_string s rest,
    length-sized_string s rest,
    v.short,
  )

  client_hello_after :
      (rest : List ℕ) (p : ClientHelloPayload)
      → AreBytes rest
      → decode_client_hello (sized_string s ++ rest) ≡ ok p
      → IsPayload client_hello p × (encode_client_hello p ≡ ok (sized_string s ++ rest))
  unfolding encode_client_hello IsPayload
  client_hello_after rest p h e =
      let size = client_hello_size rest p e in
      let (x, ek, i, a, q) = split_front 32 rest h (omega arith) in
      encoded_inv encode_client_hello decode_client_hello
        (record { client_id = s; x25519_public_key = x; ml_kem_ek = ek }) p (sized_string s ++ rest)
        (IsPayload client_hello) (v, i.size, omega (arith, ap length q, length-append x ek, i.size))
        (ground (arith, encode_sized_string-ok s v.short, q))
        (decode_client_hello_lem s v x ek i.size
          (omega (arith, ap length q, length-append x ek, i.size)))
        e

  server_hello_size :
      (rest : List ℕ) (p : ServerHelloPayload)
      → decode_server_hello (sized_string s ++ rest) ≡ ok p
      → length rest ≡ 32 + ml_kem_768_ct_size + ml_dsa_65_sig_size
  unfolding decode_server_hello require_fully_consumed
  server_hello_size rest p e = ground (
    arith,
    decode_sized_string-front s v rest,
    slice_from-sized_string s rest,
    length-sized_string s rest,
    v.short,
  )

  server_hello_after :
      (rest : List ℕ) (p : ServerHelloPayload)
      → AreBytes rest
      → decode_server_hello (sized_string s ++ rest) ≡ ok p
      → IsPayload server_hello p × (encode_server_hello p ≡ ok (sized_string s ++ rest))
  unfolding encode_server_hello IsPayload
  server_hello_after rest p h e =
      let size = server_hello_size rest p e in
      let (x, others, i, a, q) = split_front 32 rest h (omega arith) in
      let (ct, sig, j, b, r) =
        split_front ml_kem_768_ct_size others a
          (omega (arith, ap length q, length-append x others, i.size)) in
      encoded_inv encode_server_hello decode_server_hello
        (record { server_id = s; x25519_public_key = x; ml_kem_ciphertext = ct; signature = sig }) p
        (sized_string s ++ rest) (IsPayload server_hello)
        (
          v,
          i.size,
          j.size,
          omega (
            arith,
            ap length q,
            length-append x others,
            i.size,
            ap length r,
            length-append ct sig,
            j.size,
          ),
        )
        (ground (arith, encode_sized_string-ok s v.short, q, r))
        (decode_server_hello_lem s v x ct sig i.size j.size (
          omega (
            arith,
            ap length q,
            length-append x others,
            i.size,
            ap length r,
            length-append ct sig,
            j.size,
          )))
        e

pub decode_client_hello_inv :
    (bytes : List ℕ) (p : ClientHelloPayload)
    → AreBytes bytes
    → decode_client_hello bytes ≡ ok p
    → IsPayload client_hello p × (encode_client_hello p ≡ ok bytes)
unfolding decode_client_hello
decode_client_hello_inv bytes p h e =
    let (s, rest, v, b, q) = decode_sized_string-front_inv bytes _ h e in
    rw q (client_hello_after s v rest p b (rw q at e))

pub decode_server_hello_inv :
    (bytes : List ℕ) (p : ServerHelloPayload)
    → AreBytes bytes
    → decode_server_hello bytes ≡ ok p
    → IsPayload server_hello p × (encode_server_hello p ≡ ok bytes)
unfolding decode_server_hello
decode_server_hello_inv bytes p h e =
    let (s, rest, v, b, q) = decode_sized_string-front_inv bytes _ h e in
    rw q (server_hello_after s v rest p b (rw q at e))

pub decode_client_finish_inv :
    (bytes : List ℕ) (p : ClientFinishPayload)
    → AreBytes bytes
    → decode_client_finish bytes ≡ ok p
    → IsPayload client_finish p × (encode_client_finish p ≡ bytes)
unfolding encode_client_finish decode_client_finish IsPayload decode_bool index encode_bool
decode_client_finish_inv bytes p h e = (tt, grind (arith))

pub decode_server_accept_inv :
    (bytes : List ℕ) (p : ServerAcceptPayload)
    → AreBytes bytes
    → decode_server_accept bytes ≡ ok p
    → IsPayload server_accept p × (encode_server_accept p ≡ bytes)
unfolding encode_server_accept decode_server_accept IsPayload decode_bool index encode_bool
decode_server_accept_inv bytes p h e = (tt, grind (arith))
