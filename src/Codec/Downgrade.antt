-- ===== src/Codec/Downgrade.antt =====
-- A side that has no session, against one that has: src/codec.rs.
use chatix_protocol.Base.{
  ℕ, ◌+◌, ◌≤◌, ◌<◌, ◌^◌, ◌≡◌, refl, ap, ◌∙◌, arith, false, none, some, List, ◌++◌, ok, err, length,
}
use mathlib.Core.List.{append_assoc}
use chatix_protocol.Error.{encryption_required}
use chatix_protocol.Header.{new_header, to_bytes, is_encrypted}
use chatix_protocol.Header.Checks.{IsWellFormed-validate}
use chatix_protocol.Header.Layout.{from_bytes-to_bytes, to_bytes-IsArray}
use chatix_protocol.PacketType.{PacketType, as_u8, max_payload_size}
use chatix_protocol.Sizes.{as_u32}
use chatix_protocol.PacketType.Limits.{max_payload_size-le}
use chatix_protocol.Codec.{PacketCodec, SessionCipher}
use chatix_protocol.Codec.Interfaces.{Reader, Delivers, Writer, Collects, Aead}
use chatix_protocol.Codec.Read.{read_packet}
use chatix_protocol.Codec.Write.{write_packet, seal_payload, Frame}
use chatix_protocol.Codec.Frames.{read_exact-append, write_packet-ok}
use chatix_protocol.Codec.RoundTrip.{appended, Grows-append}
use chatix_protocol.Codec.Sent.{MayFlag, new_header-IsHeader, new_header-IsWellFormed}
use chatix_protocol.Codec.Security.{read_packet_clear}

new_header_clear :
    (t : PacketType) (flags n seq : ℕ)
    → MayFlag none flags
    → is_encrypted (new_header (as_u8 t) flags n seq) ≡ false
unfolding new_header is_encrypted
new_header_clear t flags n seq (_, clear) = ground arith

module _ (reader : Reader) (writer : Writer) (aead : Aead) (delivers : Delivers reader)
    (collects : Collects writer) where
  open delivers use {pending}
  open collects use {written}

  -- Both sides must have the session: a codec without one sends a packet within the limit of its
  -- type and not marked encrypted, with a sequence number left, without an error; a codec that
  -- has a session and reads these bytes first refuses the frame with `EncryptionRequired`,
  -- whatever its number, does not change, and has read only the header, so that the payload is
  -- still on the stream.
  pub read_packet-downgrade :
      (c d : PacketCodec) (w : writer.W) (r : reader.R) (cipher : SessionCipher) (t : PacketType)
      (flags : ℕ) (payload rest : List ℕ)
      → c.next_send_seq + 1 < 2 ^ 64
      → c.session ≡ none
      → d.session ≡ some cipher
      → MayFlag none flags
      → length payload ≤ max_payload_size t
      → pending r
        ≡ appended writer collects w (write_packet writer aead t flags payload (c, w)).1.1 ++ rest
      → ((write_packet writer aead t flags payload (c, w)).0 ≡ ok tt)
        × ((read_packet reader aead (d, r)).0 ≡ err encryption_required)
        × ((read_packet reader aead (d, r)).1.0 ≡ d)
        × (pending (read_packet reader aead (d, r)).1.1 ≡ payload ++ rest)
  unfolding seal_payload
  read_packet-downgrade c d w r cipher t flags payload rest left clear session may len wire =
      let frame : Frame = record { flags = flags; payload = payload } in
      let sealed : seal_payload aead c.session t c.next_send_seq flags payload ≡ ok frame =
        rw clear refl in
      let (w', wrote, grown) =
        write_packet-ok writer aead collects c w t flags payload left sealed in
      let n = length payload in
      let small : as_u32 n ≡ n = omega (arith, max_payload_size-le t) in
      let header = new_header (as_u8 t) flags n c.next_send_seq in
      let header-IsHeader =
        new_header-IsHeader t flags n c.next_send_seq may.0 (omega (arith, max_payload_size-le t))
          (omega arith) in
      let (_, bytes) = Grows-append writer collects w _ _ (ap (λ o. written o.1.1) wrote ∙ grown) in
      let front : pending r ≡ to_bytes header ++ (payload ++ rest) =
        wire
        ∙ ap (λ xs. xs ++ rest) bytes
        ∙ ap (λ k. (to_bytes (new_header (as_u8 t) flags k c.next_send_seq) ++ payload) ++ rest)
            small
        ∙ append_assoc (to_bytes header) payload rest in
      let (got, after) =
        read_exact-append reader aead delivers r (to_bytes header) (payload ++ rest) 24
          (to_bytes-IsArray header header-IsHeader).size front in
      let back = from_bytes-to_bytes header header-IsHeader in
      let refused =
        read_packet_clear reader aead d r cipher (to_bytes header) session got
          (rw back (
            IsWellFormed-validate header
              (new_header-IsWellFormed t flags n c.next_send_seq (omega arith))))
          (rw back (new_header_clear t flags n c.next_send_seq may)) in
      (
        ap (λ o. o.0) wrote,
        ap (λ o. o.0) refused,
        ap (λ o. o.1.0) refused,
        ap (λ o. pending o.1.1) refused ∙ after,
      )
