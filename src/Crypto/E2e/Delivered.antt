-- ===== src/Crypto/E2e/Delivered.antt =====
-- An end-to-end encrypted text inside a message, inside a packet of the connection.
use chatix_protocol.Base.{
  ℕ, ◌+◌, ◌≤◌, ◌<◌, ◌^◌, ◌≡◌, sym, ap, ◌∙◌, arith, List, [], ◌++◌, some, ok, length, >>=-eq-ok,
}
use mathlib.Core.List.{append-nil}
use chatix_protocol.Sizes.{nonce_len}
use chatix_protocol.PacketType.{send_message, max_payload_size}
use chatix_protocol.Payloads.Common.Sized.{IsSizedString}
use chatix_protocol.Payloads.E2eKey.{E2ePublicKey}
use chatix_protocol.Payloads.Message.{SendMessagePayload}
use chatix_protocol.Payloads.OfType.{encode_payload, decode_payload, IsPayload}
use chatix_protocol.Payloads.OfType.RoundTrip.{decode_payload-encode_payload}
use chatix_protocol.Payloads.OfType.Limits.{Fits, encode_payload-Fits}
use chatix_protocol.Codec.{PacketCodec, RawPacket}
use chatix_protocol.Codec.Interfaces.{Reader, Delivers, Writer, Collects, Aead, IsAead}
use chatix_protocol.Codec.Sent.{Agree, IsNew, MayFlag, received}
use chatix_protocol.Codec.Nonces.{Outgoing, send}
use chatix_protocol.Codec.RoundTrip.{appended, read_packet-write_packet}
use chatix_protocol.Codec.Channel.{Network, Pipe, transmit, collect}
use chatix_protocol.Crypto.Primitives.{
  X25519, IsX25519, MlKem, IsMlKem, Hkdf, IsHkdf, MlDsa, IsMlDsa,
}
use chatix_protocol.Crypto.E2e.{
  min_blob_len, E2eSecretKey, generate_e2e_keypair, encrypt_and_sign, verify_and_decrypt,
}
use chatix_protocol.Crypto.E2e.RoundTrip.{verify_and_decrypt-encrypt_and_sign}

-- A message whose name and content fit is encoded, and decoded again.
message_encoded :
    (m : SendMessagePayload)
    → m.message_id < 2 ^ 64
    → IsSizedString m.recipient_id
    → length m.recipient_id + length m.content ≤ 65522
    → (bytes : List ℕ) × (encode_payload send_message m ≡ ok bytes)
      × (decode_payload send_message bytes ≡ ok m)
      × (length bytes ≤ max_payload_size send_message)
unfolding IsPayload Fits
message_encoded m id v fits =
    let valid : IsPayload send_message m = (id, v, omega arith) in
    let (bytes, encoded, decoded) =
      >>=-eq-ok (encode_payload send_message m) (decode_payload send_message)
        (decode_payload-encode_payload send_message m valid) in
    (bytes, encoded, decoded, (encode_payload-Fits send_message m valid encoded).1 fits)

module _ (reader : Reader) (writer : Writer) (aead : Aead) (delivers : Delivers reader)
    (collects : Collects writer) (network : Network reader delivers) (is_aead : IsAead aead) where
  open delivers use {pending}

  -- A packet that is sent over a stream with nothing pending is what is received next.
  collect-transmit :
      (c d : PacketCodec) (pipe : Pipe reader writer aead delivers collects network) (p : Outgoing)
      → c.next_send_seq + 1 < 2 ^ 64
      → Agree c.session d.session
      → IsNew d.last_recv_seq c.next_send_seq
      → MayFlag c.session p.flags
      → length p.payload ≤ max_payload_size p.packet_type
      → pending pipe.output ≡ []
      → (let sent = transmit reader writer aead delivers collects network p c pipe in
          (sent.0 ≡ ok tt)
          × ((collect reader writer aead delivers collects network d sent.1.1).0
              ≡ ok (received c.session p.packet_type p.flags c.next_send_seq p.payload)))
  unfolding transmit collect send
  collect-transmit c d pipe p left agree new may len empty =
      let frame = appended writer collects pipe.input (send writer aead p (c, pipe.input)).1.1 in
      let wire : pending (network.arrive frame pipe.output) ≡ frame ++ [] =
        network.pending_arrive frame pipe.output
        ∙ ap (λ xs. xs ++ frame) empty
        ∙ sym (append-nil frame) in
      let (done, _, got, _, _) =
        read_packet-write_packet reader writer aead delivers collects is_aead c d pipe.input
          (network.arrive frame pipe.output) p.packet_type p.flags p.payload [] left agree new may
          len wire in
      (done, got)

  module _ (dh : X25519) (kem : MlKem) (hkdf : Hkdf) (dsa : MlDsa) (is_dh : IsX25519 dh)
      (is_kem : IsMlKem kem) (is_hkdf : IsHkdf hkdf) (is_dsa : IsMlDsa dsa) where
    -- From text to text, through every layer, with primitives that keep their documented laws and
    -- whatever random values are drawn: a text that leaves room in a message is encrypted for the
    -- recipient's generated public key and signed; the blob as the content of a message is
    -- encoded and sent by `write_packet` over a stream with nothing pending without an error; the
    -- codec at the other end, which shares the key of this direction (or, like the sender, has no
    -- session) and has not seen this number, receives a packet whose payload decodes to the same
    -- message; and verifying and decrypting its content with the recipient's secret key and the
    -- sender's verifying key gives the text.
    pub verify_and_decrypt-collect :
        (a e : dh.EphemeralSecret) (seed r nonce text : List ℕ) (recipient sender : dsa.SigningKey)
        (c d : PacketCodec) (pipe : Pipe reader writer aead delivers collects network)
        (message_id : ℕ) (recipient_id : List ℕ) (flags : ℕ)
        → length seed ≡ 64
        → length nonce ≡ nonce_len
        → message_id < 2 ^ 64
        → IsSizedString recipient_id
        → length recipient_id + (min_blob_len + length text) ≤ 65522
        → c.next_send_seq + 1 < 2 ^ 64
        → Agree c.session d.session
        → IsNew d.last_recv_seq c.next_send_seq
        → MayFlag c.session flags
        → pending pipe.output ≡ []
        → (secret : E2eSecretKey) × (public : E2ePublicKey) × (blob bytes : List ℕ)
          × (packet : RawPacket) × (generate_e2e_keypair dh kem dsa a (some seed) recipient
              ≡ ok (secret, public))
          × (encrypt_and_sign dh kem hkdf aead dsa e r
                (some nonce)
                text
                public.x25519_public
                public.ml_kem_ek
                (dsa.to_seed sender)
              ≡ ok blob)
          × (let message : SendMessagePayload = record {
            message_id = message_id;
            recipient_id = recipient_id;
            content = blob;
          } in
              let out : Outgoing = record {
                packet_type = send_message;
                flags = flags;
                payload = bytes;
              } in
              let sent = transmit reader writer aead delivers collects network out c pipe in
              (encode_payload send_message message ≡ ok bytes)
              × (sent.0 ≡ ok tt)
              × ((collect reader writer aead delivers collects network d sent.1.1).0 ≡ ok packet)
              × (decode_payload send_message packet.payload ≡ ok message))
          × (verify_and_decrypt dh kem hkdf aead dsa blob secret.x25519_secret secret.ml_kem_seed
                (dsa.vk_encode (dsa.verifying_key sender))
              ≡ ok text)
    verify_and_decrypt-collect a e seed r nonce text recipient sender c d pipe message_id
          recipient_id flags hs hn hm v fits left agree new may empty =
        let (secret, public, blob, made, sealed, size, opened) =
          verify_and_decrypt-encrypt_and_sign dh kem hkdf aead dsa is_dh is_kem is_hkdf is_aead
            is_dsa a e seed r nonce text recipient sender hs hn (omega arith) in
        let (bytes, encoded, decoded, small) =
          message_encoded
            (record { message_id = message_id; recipient_id = recipient_id; content = blob }) hm v
            (omega arith) in
        let (done, got) =
          collect-transmit c d pipe
            (record { packet_type = send_message; flags = flags; payload = bytes }) left agree new
            may small empty in
        (secret, public, blob, bytes, _, made, sealed, (encoded, done, got, decoded), opened)
