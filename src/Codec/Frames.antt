-- ===== src/Codec/Frames.antt =====
-- One frame on the wire: what `write_packet` appends, and what `read_packet` makes of it.
use chatix_protocol.Base.{
  ℕ, ◌+◌, ◌<◌, ◌^◌, ◌≡◌, ap, ◌∙◌, arith, List, [], ◌∷◌, ◌++◌, some, ok, length, length-append,
  take-append, drop-append,
}
use mathlib.Core.List.{append_assoc}
use chatix_protocol.Sizes.{as_u32}
use chatix_protocol.Header.{PacketHeader, new_header, to_bytes}
use chatix_protocol.Header.Layout.{IsHeader, from_bytes-to_bytes, to_bytes-IsArray}
use chatix_protocol.PacketType.{PacketType, as_u8}
use chatix_protocol.Codec.{PacketCodec, is_some, admit_header, sequence_after}
use chatix_protocol.Codec.Interfaces.{Reader, Delivers, Writer, Collects, Aead}
use chatix_protocol.Codec.Read.{
  finish_packet, read_payload, read_packet, read_body, read_after_header, check_sequence,
}
use chatix_protocol.Codec.Write.{Frame, seal_payload, write_packet}

module _ (writer : Writer) (aead : Aead) (collects : Collects writer) where
  open writer use {W}
  open collects use {written}

  -- With a sequence number left and a payload that can be sealed, the frame is written whole.
  pub write_packet-ok :
      (c : PacketCodec) (w : W) (t : PacketType) (flags : ℕ) (payload : List ℕ) {frame : Frame}
      → c.next_send_seq + 1 < 2 ^ 64
      → seal_payload aead c.session t c.next_send_seq flags payload ≡ ok frame
      → (w' : W) × (write_packet writer aead t flags payload (c, w)
          ≡ (ok tt, (record c { next_send_seq = c.next_send_seq + 1 }, w')))
        × (written w'
            ≡ written w
              ++ (to_bytes (
                    new_header
                      (as_u8 t)
                      frame.flags
                      (as_u32 (length frame.payload))
                      c.next_send_seq)
                  ++ frame.payload))
  unfolding write_packet
  write_packet-ok c w t flags payload {frame} h e =
      let header =
        new_header (as_u8 t) frame.flags (as_u32 (length frame.payload)) c.next_send_seq in
      let w₁ = (writer.write_all w (to_bytes header)).1 in
      let w₂ = (writer.write_all w₁ frame.payload).1 in
      (
        (writer.flush w₂).1,
        ground (
          arith,
          collects.write_all_ok w (to_bytes header),
          collects.write_all_ok w₁ frame.payload,
          collects.flush_ok w₂,
        ),
        collects.flush_written w₂
            ∙ collects.write_all_written w₁ frame.payload
            ∙ ap (λ (x : List ℕ). x ++ frame.payload)
                (collects.write_all_written w (to_bytes header))
            ∙ append_assoc (written w) (to_bytes header) frame.payload,
      )

module _ (reader : Reader) (aead : Aead) (delivers : Delivers reader) where
  open reader use {R, read_exact}
  open delivers use {pending}

  -- Exactly as many bytes are read as are asked for.
  pub read_exact-append :
      (r : R) (xs ys : List ℕ) (n : ℕ)
      → length xs ≡ n
      → pending r ≡ xs ++ ys
      → ((read_exact r n).0 ≡ ok xs) × (pending (read_exact r n).1 ≡ ys)
  read_exact-append r xs ys n h e = (
    delivers.enough r n (rw e (omega (arith, length-append xs ys)))
        ∙ ap ok (rw (e, ← h) (take-append xs ys)),
    delivers.rest r n ∙ rw (e, ← h) (drop-append xs ys),
  )

  -- The payload of a frame, when it is next on the stream.
  read_payload-ok :
      (c : PacketCodec) (r : R) (header : PacketHeader) (payload rest : List ℕ)
      → length payload ≡ header.payload_len
      → pending r ≡ payload ++ rest
      → (r' : R) × (read_payload reader aead header (c, r)
          ≡ (finish_packet aead c.session header payload, (c, r')))
        × (pending r' ≡ rest)
  unfolding read_payload read_body
  read_payload-ok c r header [] rest h e = (r, ground arith, e)
  read_payload-ok c r header (b ∷ bs) rest h e =
      let (got, left) = read_exact-append r (b ∷ bs) rest header.payload_len h e in
      ((read_exact r header.payload_len).1, ground arith, left)

  -- A whole frame, when it is next on the stream and its header passes the checks.
  pub read_packet-ok :
      (c : PacketCodec) (r : R) (header : PacketHeader) (payload rest : List ℕ)
      → IsHeader header
      → admit_header (is_some c.session) header ≡ ok tt
      → sequence_after c.last_recv_seq header.sequence ≡ ok tt
      → length payload ≡ header.payload_len
      → pending r ≡ to_bytes header ++ (payload ++ rest)
      → (r' : R) × (read_packet reader aead (c, r) ≡ (
        finish_packet aead c.session header payload,
        (record c { last_recv_seq = some header.sequence }, r'),
      ))
        × (pending r' ≡ rest)
  unfolding read_packet read_after_header check_sequence
  read_packet-ok c r header payload rest hv adm seq len e =
      let bytes = to_bytes-IsArray header hv in
      let (got, left) = read_exact-append r (to_bytes header) (payload ++ rest) 24 bytes.size e in
      let (r', read, end) =
        read_payload-ok (record c { last_recv_seq = some header.sequence }) (read_exact r 24).1
          header payload rest len left in
      (r', ground (arith, got, from_bytes-to_bytes header hv, read), end)
