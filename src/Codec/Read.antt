-- ===== src/Codec/Read.antt =====
-- src/codec.rs: `read_packet`.
use chatix_protocol.Base.{ℕ, List, [], Option, Result, ok, ltb, if◌then◌else◌, length, ok_or}
use chatix_protocol.Error.{ProtocolError, crypto_error, from_io}
use chatix_protocol.Sizes.{as_u32}
use chatix_protocol.Header.{PacketHeader, chatix_header_size, from_bytes, is_encrypted}
use chatix_protocol.Codec.{
  RawPacket, SessionCipher, PacketCodec, is_some, admit_header, validate_sequence, seq_nonce,
  header_aad,
}
use chatix_protocol.Codec.Interfaces.{Reader, Aead}
use chatix_protocol.Codec.Action.{Action, ◌>>=◌, ◌>>◌, pure}
use chatix_protocol.Base.{◌>>=◌ as bind}

-- The header of an opened packet gives the length of the plaintext.
abbrev pub opened_packet : PacketHeader → List ℕ → RawPacket
opened_packet header text = record {
  header = record header { payload_len = as_u32 (length text) };
  payload = text;
}

module _ (aead : Aead) where
  open aead use {Key, unbound_key, open_in_place}

  -- The plaintext of a payload that was read from the wire.
  unfoldable pub open_payload :
      Option SessionCipher → PacketHeader → List ℕ → Result ProtocolError (List ℕ)
  open_payload session header payload = bind (ok_or session crypto_error) λ cipher.
      let nonce = seq_nonce header.sequence in
      bind (ok_or (unbound_key cipher.inbound_key) crypto_error) λ opening_key.
        ok_or (open_in_place opening_key nonce (header_aad header.packet_type header.flags) payload)
          crypto_error

  unfoldable pub finish_packet :
      Option SessionCipher → PacketHeader → List ℕ → Result ProtocolError RawPacket
  finish_packet session header payload =
      let opened =
        bind (open_payload session header payload) λ text. ok (opened_packet header text) in
      if is_encrypted header then opened else ok (record { header = header; payload = payload })

module _ (reader : Reader) (aead : Aead) where
  open reader use {R, read_exact}

  -- `reader.read_exact(&mut buffer).await?`
  unfoldable pub read_bytes : ℕ → Action (PacketCodec × R) (List ℕ)
  read_bytes n (codec, r) = let (got, r') = read_exact r n in (from_io got, (codec, r'))

  unfoldable pub check_sequence : ℕ → Action (PacketCodec × R) (Unit {0})
  unfolding validate_sequence
  check_sequence seq (codec, r) =
      let (checked, codec') = validate_sequence codec seq in (checked, (codec', r))

  -- The payload, which is read only if it is not empty.
  unfoldable pub read_body : ℕ → Action (PacketCodec × R) (List ℕ)
  unfolding read_bytes
  read_body payload_len = if ltb 0 payload_len then read_bytes payload_len else pure []

  -- From the payload on: it is read, and opened if it is encrypted.
  unfoldable pub read_payload : PacketHeader → Action (PacketCodec × R) RawPacket
  read_payload header = do
    payload ← read_body header.payload_len
    λ s. (finish_packet aead s.0.session header payload, s)

  -- From the header on: it is checked before its sequence number is noted.
  unfoldable pub read_after_header : PacketHeader → Action (PacketCodec × R) RawPacket
  read_after_header header = do
    λ s. (admit_header (is_some s.0.session) header, s)
    check_sequence header.sequence
    read_payload header

  unfoldable pub read_packet : Action (PacketCodec × R) RawPacket
  unfolding read_bytes
  read_packet = do
    header_bytes ← read_bytes chatix_header_size
    read_after_header (from_bytes header_bytes)
