-- ===== src/Codec/Truncated.antt =====
-- A stream that ends inside a frame.
use chatix_protocol.Base.{
  ℕ, ◌+◌, ◌≤◌, ◌<◌, ◌^◌, ◌≡◌, ◌⊎◌, inl, inr, refl, ap, ◌∙◌, arith, List, [], ◌∷◌, ◌++◌, some, ok,
  err, length, length-append,
}
use chatix_protocol.Error.{io}
use chatix_protocol.Header.{PacketHeader, new_header, to_bytes}
use chatix_protocol.Header.Layout.{IsHeader, from_bytes-to_bytes, to_bytes-IsArray}
use chatix_protocol.PacketType.{PacketType, as_u8, max_payload_size}
use chatix_protocol.Codec.{PacketCodec, is_some, admit_header, sequence_after}
use chatix_protocol.Codec.Interfaces.{Reader, Delivers, Writer, Collects, Aead, IsAead}
use chatix_protocol.Codec.Read.{
  read_payload, read_packet, read_body, read_after_header, read_bytes, check_sequence,
}
use chatix_protocol.Codec.Write.{write_packet}
use chatix_protocol.Codec.Frames.{read_exact-append}
use chatix_protocol.Codec.RoundTrip.{appended, write_packet-appended}
use chatix_protocol.Codec.Sent.{Agree, IsNew, MayFlag, IsNew-sequence_after}

le_or_lt : (m n : ℕ) → (m ≤ n) ⊎ (n < m)
le_or_lt m n = ground arith

-- A prefix of `hs ++ ys` that is not shorter than `hs`.
prefix_split :
    (xs more hs ys : List ℕ)
    → xs ++ more ≡ hs ++ ys
    → length hs ≤ length xs
    → (part : List ℕ) × (xs ≡ hs ++ part) × (part ++ more ≡ ys)
prefix_split xs more [] ys e h = (xs, refl, e)
prefix_split [] more (b ∷ hs) ys e h = absurd (omega arith)
prefix_split (x ∷ xs) more (b ∷ hs) ys e h =
    let tails : xs ++ more ≡ hs ++ ys = cc in
    let (part, e', rest) = prefix_split xs more hs ys tails (omega arith) in
    let heads : x ≡ b = cc in (part, cc, rest)

module _ (reader : Reader) (aead : Aead) (delivers : Delivers reader) where
  open delivers use {pending}

  read_payload_short :
      (c : PacketCodec) (r : reader.R) (header : PacketHeader)
      → length (pending r) < header.payload_len
      → ((read_payload reader aead header (c, r)).0 ≡ err (io delivers.eof))
        × ((read_payload reader aead header (c, r)).1.0 ≡ c)
  unfolding read_payload read_body read_bytes
  read_payload_short c r header h = ground (arith, delivers.short r header.payload_len h)

  read_header_short :
      (c : PacketCodec) (r : reader.R)
      → length (pending r) < 24
      → ((read_packet reader aead (c, r)).0 ≡ err (io delivers.eof))
        × ((read_packet reader aead (c, r)).1.0 ≡ c)
  unfolding read_packet read_bytes
  read_header_short c r h = ground (arith, delivers.short r 24 h)

  read_body_short :
      (c : PacketCodec) (r : reader.R) (header : PacketHeader) (part : List ℕ)
      → IsHeader header
      → admit_header (is_some c.session) header ≡ ok tt
      → sequence_after c.last_recv_seq header.sequence ≡ ok tt
      → length part < header.payload_len
      → pending r ≡ to_bytes header ++ part
      → ((read_packet reader aead (c, r)).0 ≡ err (io delivers.eof))
        × ((read_packet reader aead (c, r)).1.0 ≡ record c { last_recv_seq = some header.sequence })
  unfolding read_packet read_after_header check_sequence
  read_body_short c r header part hv adm seq len e =
      let (got, left) =
        read_exact-append reader aead delivers r (to_bytes header) part 24
          (to_bytes-IsArray header hv).size e in
      let (failed, kept) =
        read_payload_short (record c { last_recv_seq = some header.sequence })
          (reader.read_exact r 24).1 header (rw left len) in
      (
        ground (arith, got, from_bytes-to_bytes header hv, failed),
        ground (arith, got, from_bytes-to_bytes header hv, kept),
      )

module _ (reader : Reader) (writer : Writer) (aead : Aead) (delivers : Delivers reader)
    (collects : Collects writer) (is_aead : IsAead aead) where
  open delivers use {pending}

  -- When the stream ends inside a frame that `write_packet` has written, whose type, flags and
  -- number the receiver would accept, `read_packet` gives the end of the stream as its error and
  -- no packet: if the header is not complete, the codec does not change, and if it is, its
  -- sequence number has been noted.
  pub read_packet-truncated :
      (c d : PacketCodec) (w : writer.W) (r : reader.R) (t : PacketType) (flags : ℕ)
      (payload more : List ℕ)
      → c.next_send_seq + 1 < 2 ^ 64
      → Agree c.session d.session
      → IsNew d.last_recv_seq c.next_send_seq
      → MayFlag c.session flags
      → length payload ≤ max_payload_size t
      → 0 < length more
      → pending r ++ more
        ≡ appended writer collects w (write_packet writer aead t flags payload (c, w)).1.1
      → ((read_packet reader aead (d, r)).0 ≡ err (io delivers.eof))
        × (((length (pending r) < 24) × ((read_packet reader aead (d, r)).1.0 ≡ d))
            ⊎ ((24 ≤ length (pending r))
                × ((read_packet reader aead (d, r)).1.0
                    ≡ record d { last_recv_seq = some c.next_send_seq })))
  unfolding new_header
  read_packet-truncated c d w r t flags payload more left agree new may len some_more e =
      let (frame, sent, header-IsHeader, shape) =
        write_packet-appended writer collects aead is_aead c d w t flags payload left agree may
          len in
      let header = new_header (as_u8 t) frame.flags (length frame.payload) c.next_send_seq in
      let wire : pending r ++ more ≡ to_bytes header ++ frame.payload = e ∙ shape in
      elim (le_or_lt 24 (length (pending r))) [
        | inl long ↦
            let bytes = to_bytes-IsArray header header-IsHeader in
            let (part, front, rest) =
              prefix_split (pending r) more (to_bytes header) frame.payload wire
                (omega (arith, bytes.size)) in
            let (failed, noted) =
              read_body_short reader aead delivers d r header part header-IsHeader sent.admitted
                (IsNew-sequence_after d.last_recv_seq c.next_send_seq new)
                (omega (arith, ap length rest, length-append part more)) front in
            (failed, inr (long, noted))
        | inr short ↦
            let (failed, same) = read_header_short reader aead delivers d r short in
            (failed, inl (short, same))
      ]
