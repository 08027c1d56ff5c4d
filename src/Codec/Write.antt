-- ===== src/Codec/Write.antt =====
-- src/codec.rs: `write_packet`.
use Prim.Native.Nat.{bit_or}
use chatix_protocol.Base.{
  ℕ, List, Option, none, some, Result, ok, err, length, ok_or, checked_add, ◌>>=◌ as bind,
}
use chatix_protocol.Error.{ProtocolError, crypto_error, from_io}
use chatix_protocol.Sizes.{as_u32}
use chatix_protocol.Header.{new_header, to_bytes, encrypted}
use chatix_protocol.PacketType.{PacketType, as_u8}
use chatix_protocol.Codec.{SessionCipher, PacketCodec, seq_nonce, header_aad}
use chatix_protocol.Codec.Interfaces.{Writer, Aead}
use chatix_protocol.Codec.Action.{Action, ◌>>=◌, ◌>>◌}

-- What goes on the wire in place of the caller's flags and payload.
pub record Frame : Type 0 where
  pub flags : ℕ
  pub payload : List ℕ

module _ (aead : Aead) where
  open aead use {Key, unbound_key, seal_in_place_append_tag}

  unfoldable pub seal_payload :
      Option SessionCipher → PacketType → ℕ → ℕ → List ℕ → Result ProtocolError Frame
  seal_payload none packet_type seq flags payload = ok (record { flags = flags; payload = payload })
  seal_payload (some cipher) packet_type seq flags payload =
      let flags' = bit_or flags encrypted in
      let nonce = seq_nonce seq in
      bind (ok_or (unbound_key cipher.outbound_key) crypto_error) λ sealing_key.
        bind
          (ok_or
            (seal_in_place_append_tag sealing_key nonce (header_aad (as_u8 packet_type) flags')
              payload)
            crypto_error)
          λ sealed. ok (record { flags = flags'; payload = sealed })

module _ (writer : Writer) (aead : Aead) where
  open writer use {W, write_all, flush}

  unfoldable pub take_seq : Action (PacketCodec × W) ℕ
  take_seq (codec, w) = elim (checked_add codec.next_send_seq 1) [
    | none ↦ (err crypto_error, (codec, w))
    | some n ↦ (ok codec.next_send_seq, (record codec { next_send_seq = n }, w))
  ]

  unfoldable pub write_bytes : List ℕ → Action (PacketCodec × W) (Unit {0})
  write_bytes bytes (codec, w) = let (done, w') = write_all w bytes in (from_io done, (codec, w'))

  unfoldable pub flush_bytes : Action (PacketCodec × W) (Unit {0})
  flush_bytes (codec, w) = let (done, w') = flush w in (from_io done, (codec, w'))

  unfoldable pub write_packet : PacketType → ℕ → List ℕ → Action (PacketCodec × W) (Unit {0})
  unfolding take_seq write_bytes flush_bytes seal_payload
  write_packet packet_type flags payload = do
    seq ← take_seq
    frame ← λ s. (seal_payload aead s.0.session packet_type seq flags payload, s)
    let header = new_header (as_u8 packet_type) frame.flags (as_u32 (length frame.payload)) seq
    write_bytes (to_bytes header)
    write_bytes frame.payload
    flush_bytes
