-- ===== src/Crypto/Session/Agreement.antt =====
-- Client and server derive the same keys, and their codecs then understand each other.
use chatix_protocol.Base.{ℕ, ◌≡◌, refl, arith, List, ◌++◌, some, ok, length}
use chatix_protocol.Codec.{PacketCodec, establish_session}
use chatix_protocol.Codec.Sent.{Agree}
use chatix_protocol.Crypto.Primitives.{X25519, IsX25519, MlKem, IsMlKem, Hkdf, IsHkdf}
use chatix_protocol.Crypto.Session.{
  SessionKeys, ClientHandshakeState, ServerHandshakeState, derive_keys, generate,
  derive_session_keys, respond, c2s_label, s2c_label, handshake_context,
}

module _ (hkdf : Hkdf) (is_hkdf : IsHkdf hkdf) where
  -- Two keys of 32 bytes come out.
  derive_keys-ok :
      (x k context : List ℕ)
      → (keys : SessionKeys) × (derive_keys hkdf x k context ≡ ok keys)
        × (length keys.client_to_server ≡ 32)
        × (length keys.server_to_client ≡ 32)
  unfolding derive_keys
  derive_keys-ok x k context =
      let hk = hkdf.new (x ++ k) in
      let (c2s, e, h) = is_hkdf.expand_ok hk (context ++ c2s_label) 32 (omega arith) in
      let (s2c, e', h') = is_hkdf.expand_ok hk (context ++ s2c_label) 32 (omega arith) in
      (record { client_to_server = c2s; server_to_client = s2c }, ground (arith, e, e'), h, h')

module _ (dh : X25519) (kem : MlKem) (hkdf : Hkdf) (is_dh : IsX25519 dh) (is_kem : IsMlKem kem)
    (is_hkdf : IsHkdf hkdf) where
  -- A key exchange that nobody interferes with gives both sides the same keys.
  pub derive_session_keys-respond :
      (a b : dh.EphemeralSecret) (seed r : List ℕ)
      → (client : ClientHandshakeState dh kem) × (server : ServerHandshakeState) × (generate dh kem
            a seed
          ≡ ok client)
        × (respond dh kem hkdf b r client.x25519_public client.ml_kem_ek ≡ ok server)
        × (derive_session_keys dh kem hkdf client server.x25519_public server.ml_kem_ciphertext
            ≡ ok server.session_keys)
        × (length server.session_keys.client_to_server ≡ 32)
        × (length server.session_keys.server_to_client ≡ 32)
  unfolding generate respond derive_session_keys
  derive_session_keys-respond a b seed r =
      let pair = kem.generate_keypair seed in
      let sealed = kem.encapsulate pair.1 r in
      let context = handshake_context (dh.public_key a) (dh.public_key b) sealed.0 in
      let (keys, e, c2s, s2c) =
        derive_keys-ok hkdf is_hkdf (dh.diffie_hellman b (dh.public_key a)) sealed.1 context in
      (
        record {
          x25519_secret = a;
          ml_kem_dk = some pair.0;
          x25519_public = dh.public_key a;
          ml_kem_ek = kem.ek_to_bytes pair.1;
        },
        record {
          x25519_public = dh.public_key b;
          ml_kem_ciphertext = sealed.0;
          session_keys = keys;
        },
        ground (arith, is_kem.length_ek seed),
        ground (
          arith,
          is_kem.length_ek seed,
          is_kem.ek_new_to_bytes seed,
          is_kem.length_ct pair.1 r,
          e,
        ),
        ground (
          arith,
          is_kem.length_ct pair.1 r,
          is_kem.decapsulate_encapsulate seed r,
          is_dh.diffie_hellman_comm a b,
          e,
        ),
        c2s,
        s2c,
      )

  -- Whatever random values are drawn, a key exchange over a Diffie-Hellman function, a KEM and an
  -- HKDF that keep their documented laws, in which both sides get the other's public values
  -- unchanged, succeeds on both sides, and codecs on which the client and the server establish
  -- the session with the keys they derive agree, on the same 32 byte key, in both directions.
  pub establish_session-Agree :
      (c d : PacketCodec) (a b : dh.EphemeralSecret) (seed r : List ℕ)
      → (client : ClientHandshakeState dh kem) × (server : ServerHandshakeState)
        × (keys : SessionKeys) × (generate dh kem a seed ≡ ok client)
        × (respond dh kem hkdf b r client.x25519_public client.ml_kem_ek ≡ ok server)
        × (derive_session_keys dh kem hkdf client server.x25519_public server.ml_kem_ciphertext
            ≡ ok keys)
        × (let c' = establish_session c keys.client_to_server keys.server_to_client in
            let d' =
              establish_session d server.session_keys.server_to_client
                server.session_keys.client_to_server in
            Agree c'.session d'.session × Agree d'.session c'.session)
  unfolding establish_session
  establish_session-Agree c d a b seed r =
      let (client, server, made, answered, same, c2s, s2c) =
        derive_session_keys-respond a b seed r in
      (client, server, server.session_keys, made, answered, same, ((refl, c2s), (refl, s2c)))
