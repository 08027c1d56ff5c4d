-- ===== src/Payloads/OfType/Delivered.antt =====
-- A payload inside a packet: what one side encodes and sends, the other receives and decodes.
use chatix_protocol.Base.{ℕ, ◌+◌, ◌<◌, ◌^◌, ◌≡◌, ap, sym, ◌∙◌, List, ◌++◌, ok, ◌>>=◌}
use chatix_protocol.PacketType.{PacketType, from_u8}
use chatix_protocol.PacketType.Codes.{from_u8-as_u8}
use chatix_protocol.Header.{new_header}
use chatix_protocol.Codec.{PacketCodec, RawPacket}
use chatix_protocol.Codec.Interfaces.{Reader, Delivers, Writer, Collects, Aead, IsAead}
use chatix_protocol.Codec.Read.{read_packet}
use chatix_protocol.Codec.Write.{write_packet}
use chatix_protocol.Codec.Sent.{Agree, IsNew, MayFlag, received}
use chatix_protocol.Codec.RoundTrip.{appended, read_packet-write_packet}
use chatix_protocol.Payloads.OfType.{PayloadOf, encode_payload, decode_payload, IsPayload}
use chatix_protocol.Payloads.OfType.RoundTrip.{decode_payload-encode_payload}
use chatix_protocol.Payloads.OfType.Limits.{Fits, encode_payload-Fits}

decoded :
    (t : PacketType) (p : PayloadOf t) {bytes : List ℕ}
    → IsPayload t p
    → encode_payload t p ≡ ok bytes
    → decode_payload t bytes ≡ ok p
decoded t p h e = sym (ap (λ m. m >>= decode_payload t) e) ∙ decode_payload-encode_payload t p h

module _ (reader : Reader) (writer : Writer) (aead : Aead) (delivers : Delivers reader)
    (collects : Collects writer) (is_aead : IsAead aead) where
  open delivers use {pending}

  -- A well-formed payload that fits its packet type, encoded and sent by `write_packet` with a
  -- sequence number left and flags that the session permits, is sent without an error; a codec
  -- that shares the key of this direction (or, like the sender, has no session), has not seen
  -- this number and reads these bytes first gets a packet whose type is that packet type and
  -- whose payload decodes to the payload that was sent.
  pub decode_payload-read_packet :
      (c d : PacketCodec) (w : writer.W) (r : reader.R) (t : PacketType) (p : PayloadOf t)
      (flags : ℕ) (bytes rest : List ℕ)
      → c.next_send_seq + 1 < 2 ^ 64
      → Agree c.session d.session
      → IsNew d.last_recv_seq c.next_send_seq
      → MayFlag c.session flags
      → IsPayload t p
      → Fits t p
      → encode_payload t p ≡ ok bytes
      → pending r
        ≡ appended writer collects w (write_packet writer aead t flags bytes (c, w)).1.1 ++ rest
      → ((write_packet writer aead t flags bytes (c, w)).0 ≡ ok tt)
        × (packet : RawPacket) × ((read_packet reader aead (d, r)).0 ≡ ok packet)
        × (from_u8 packet.header.packet_type ≡ ok t)
        × (decode_payload t packet.payload ≡ ok p)
  unfolding new_header
  decode_payload-read_packet c d w r t p flags bytes rest left agree new may h fits e wire =
      let (sent, _, got, _, _) =
        read_packet-write_packet reader writer aead delivers collects is_aead c d w r t flags bytes
          rest left agree new may ((encode_payload-Fits t p h e).1 fits) wire in
      (
        sent,
        received c.session t flags c.next_send_seq bytes,
        got,
        from_u8-as_u8 t,
        decoded t p h e,
      )
