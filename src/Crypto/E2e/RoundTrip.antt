-- ===== src/Crypto/E2e/RoundTrip.antt =====
-- What is encrypted for a recipient is decrypted by that recipient.
use chatix_protocol.Base.{
  ℕ, ◌+◌, ◌-◌, ◌≤◌, ◌≡◌, arith, List, [], ◌++◌, some, ok, length, length-append, slice, slice_to,
  slice_from, slice-append, slice_to-append, slice_from-append,
}
use mathlib.Core.List.{append_assoc}
use chatix_protocol.Error.{ProtocolError}
use chatix_protocol.Sizes.{ml_kem_768_ct_size, ml_dsa_65_sig_size, nonce_len, gcm_tag_len}
use chatix_protocol.Payloads.E2eKey.{E2ePublicKey}
use chatix_protocol.Codec.Interfaces.{Aead, IsAead, max_sealed_len}
use chatix_protocol.Crypto.Primitives.{
  X25519, IsX25519, MlKem, IsMlKem, Hkdf, IsHkdf, MlDsa, IsMlDsa,
}
use chatix_protocol.Crypto.E2e.{
  sender_x25519_end, ml_kem_ct_end, aes_nonce_end, min_blob_len, E2eSecretKey, content_label,
  e2e_context, derive_e2e_key, generate_e2e_keypair, encrypt_and_sign, decrypt_signed,
  verify_and_decrypt,
}

-- The parts of what is signed.
module _ (pk ct nonce sealed : List ℕ) (hp : length pk ≡ 32) (hc : length ct ≡ ml_kem_768_ct_size)
    (hn : length nonce ≡ nonce_len) where
  abbrev signed : List ℕ
  signed = pk ++ (ct ++ (nonce ++ sealed))

  signed-front : slice_to {E = ProtocolError} signed sender_x25519_end ≡ ok pk
  signed-front = slice_to-append pk (ct ++ (nonce ++ sealed)) 32 hp

  signed-ct : slice {E = ProtocolError} signed sender_x25519_end ml_kem_ct_end ≡ ok ct
  signed-ct = slice-append pk ct (nonce ++ sealed) 32 ml_kem_ct_end hp (omega arith)

  signed-nonce : slice {E = ProtocolError} signed ml_kem_ct_end aes_nonce_end ≡ ok nonce
  signed-nonce = rw (← append_assoc pk ct (nonce ++ sealed)) (
      slice-append (pk ++ ct) nonce sealed ml_kem_ct_end aes_nonce_end
        (omega (arith, length-append pk ct)) (omega arith))

  signed-sealed : slice_from {E = ProtocolError} signed aes_nonce_end ≡ ok sealed
  signed-sealed =
      rw (← append_assoc pk ct (nonce ++ sealed), ← append_assoc (pk ++ ct) nonce sealed)
        (slice_from-append ((pk ++ ct) ++ nonce) sealed aes_nonce_end
          (omega (arith, length-append (pk ++ ct) nonce, length-append pk ct)))

  length-signed : length signed ≡ aes_nonce_end + length sealed
  length-signed = omega (
    arith,
    length-append pk (ct ++ (nonce ++ sealed)),
    length-append ct (nonce ++ sealed),
    length-append nonce sealed,
  )

module _ (hkdf : Hkdf) (is_hkdf : IsHkdf hkdf) where
  -- A content key of 32 bytes comes out.
  derive_e2e_key-ok :
      (x k context : List ℕ)
      → (key : List ℕ) × (derive_e2e_key hkdf x k context ≡ ok key) × (length key ≡ 32)
  unfolding derive_e2e_key
  derive_e2e_key-ok x k context =
      let (out, e, h) =
        is_hkdf.expand_ok (hkdf.new (x ++ k)) (context ++ content_label) 32 (omega arith) in
      (out, ground (arith, e), h)

module _ (dh : X25519) (kem : MlKem) (hkdf : Hkdf) (aead : Aead) (dsa : MlDsa) (is_dh : IsX25519 dh)
    (is_kem : IsMlKem kem) (is_hkdf : IsHkdf hkdf) (is_aead : IsAead aead)
    (is_dsa : IsMlDsa dsa) where
  -- The recipient computes the key of the sender and opens the text.
  decrypt_signed-sealed :
      (a e : dh.EphemeralSecret) (seed r nonce text key_bytes sealed : List ℕ) (key : aead.Key)
      → length seed ≡ 64
      → length nonce ≡ nonce_len
      → (let enc = kem.encapsulate (kem.generate_keypair seed).1 r in
          derive_e2e_key hkdf
              (dh.diffie_hellman e (dh.public_key a))
              enc.1
              (e2e_context (dh.public_key e) (dh.public_key a) enc.0)
            ≡ ok key_bytes
          → aead.unbound_key key_bytes ≡ some key
          → aead.seal_in_place_append_tag key nonce [] text ≡ some sealed
          → decrypt_signed dh kem hkdf aead dsa
              (dh.public_key e ++ (enc.0 ++ (nonce ++ sealed)))
              (dh.secret_to_bytes a)
              seed
            ≡ ok text)
  unfolding decrypt_signed
  decrypt_signed-sealed a e seed r nonce text key_bytes sealed key hs hn derived made sealing =
      let pk = dh.public_key e in
      let ek = (kem.generate_keypair seed).1 in
      let ct = (kem.encapsulate ek r).0 in
      let hp = is_dh.length_public_key e in
      let hc = is_kem.length_ct ek r in
      rw
        (
          is_dh.secret_from_to_bytes a,
          signed-front pk ct nonce sealed hp hc hn,
          signed-ct pk ct nonce sealed hp hc hn,
          signed-nonce pk ct nonce sealed hp hc hn,
          signed-sealed pk ct nonce sealed hp hc hn,
        )
        (ground (
          arith,
          hp,
          hc,
          is_dh.diffie_hellman_comm a e,
          is_kem.decapsulate_encapsulate seed r,
          derived,
          made,
          is_aead.open_seal key nonce [] text sealing,
        ))

  -- A blob that its sender has signed is split again, verified, and handed on.
  verified :
      (blob : List ℕ) (sender : dsa.SigningKey) (sk seed : List ℕ) {text : List ℕ}
      → aes_nonce_end + gcm_tag_len ≤ length blob
      → decrypt_signed dh kem hkdf aead dsa blob sk seed ≡ ok text
      → verify_and_decrypt dh kem hkdf aead dsa
          (blob ++ dsa.sig_encode (dsa.sign sender blob))
          sk
          seed
          (dsa.vk_encode (dsa.verifying_key sender))
        ≡ ok text
  unfolding verify_and_decrypt
  verified blob sender sk seed h decrypted =
      let s = dsa.sign sender blob in
      let sig = dsa.sig_encode s in
      let n = length (blob ++ sig) - ml_dsa_65_sig_size in
      let vk = dsa.verifying_key sender in
      let size : length blob ≡ n = omega (arith, length-append blob sig, is_dsa.length_sig s) in
      rw
        (
          slice_to-append {E = ProtocolError} blob sig n size,
          slice_from-append {E = ProtocolError} blob sig n size,
        )
        (ground (
          arith,
          length-append blob sig,
          is_dsa.length_sig s,
          is_dsa.length_vk vk,
          is_dsa.vk_decode_encode vk,
          is_dsa.sig_decode_encode s,
          is_dsa.verify_sign sender blob,
          decrypted,
        ))

  -- With primitives that keep their documented laws, a 64 byte KEM seed, a 12 byte nonce and a
  -- text that the AEAD can seal, whatever random values are drawn: the recipient's key pair is
  -- generated, a text is encrypted for its public key and signed with the sender's seed without
  -- an error, the blob is longer than the text by `MIN_BLOB_LEN`, and verifying the blob with the
  -- sender's verifying key and decrypting it with the recipient's secret key gives the text.
  pub verify_and_decrypt-encrypt_and_sign :
      (a e : dh.EphemeralSecret) (seed r nonce text : List ℕ) (recipient sender : dsa.SigningKey)
      → length seed ≡ 64
      → length nonce ≡ nonce_len
      → length text ≤ max_sealed_len
      → (secret : E2eSecretKey) × (public : E2ePublicKey) × (blob : List ℕ) × (generate_e2e_keypair
            dh kem dsa a
            (some seed)
            recipient
          ≡ ok (secret, public))
        × (encrypt_and_sign dh kem hkdf aead dsa e r
              (some nonce)
              text
              public.x25519_public
              public.ml_kem_ek
              (dsa.to_seed sender)
            ≡ ok blob)
        × (length blob ≡ min_blob_len + length text)
        × (verify_and_decrypt dh kem hkdf aead dsa blob secret.x25519_secret secret.ml_kem_seed
              (dsa.vk_encode (dsa.verifying_key sender))
            ≡ ok text)
  unfolding generate_e2e_keypair encrypt_and_sign verify_and_decrypt
  verify_and_decrypt-encrypt_and_sign a e seed r nonce text recipient sender hs hn ht =
      let ek = (kem.generate_keypair seed).1 in
      let enc = kem.encapsulate ek r in
      let vk = dsa.verifying_key recipient in
      let (key_bytes, derived, hk) =
        derive_e2e_key-ok hkdf is_hkdf (dh.diffie_hellman e (dh.public_key a)) enc.1
          (e2e_context (dh.public_key e) (dh.public_key a) enc.0) in
      let (key, made) = is_aead.key_ok key_bytes hk in
      let (sealed, sealing) = is_aead.seal_ok key nonce [] text ht in
      let blob = dh.public_key e ++ (enc.0 ++ (nonce ++ sealed)) in
      let size =
        length-signed (dh.public_key e) enc.0 nonce sealed (is_dh.length_public_key e)
          (is_kem.length_ct ek r) hn in
      let sealed_size = is_aead.length_seal key nonce [] text sealing in
      (
        record {
          x25519_secret = dh.secret_to_bytes a;
          ml_kem_seed = seed;
          dsa_signing_seed = dsa.to_seed recipient;
        },
        record {
          x25519_public = dh.public_key a;
          ml_kem_ek = kem.ek_to_bytes ek;
          dsa_verifying_key = dsa.vk_encode vk;
        },
        blob ++ dsa.sig_encode (dsa.sign sender blob),
        ground (arith, is_kem.length_ek seed, is_dsa.length_vk vk),
        ground (
          arith,
          is_kem.length_ek seed,
          is_kem.ek_new_to_bytes seed,
          derived,
          made,
          sealing,
          is_dsa.length_seed sender,
          is_dsa.from_seed_to_seed sender,
        ),
        omega (
          arith,
          length-append blob (dsa.sig_encode (dsa.sign sender blob)),
          size,
          sealed_size,
          is_dsa.length_sig (dsa.sign sender blob),
        ),
        verified blob sender (dh.secret_to_bytes a) seed (omega (arith, size, sealed_size)) (
            decrypt_signed-sealed a e seed r nonce text key_bytes sealed key hs hn derived made
              sealing),
      )
