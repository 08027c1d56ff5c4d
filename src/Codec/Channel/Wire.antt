-- ===== src/Codec/Channel/Wire.antt =====
-- The bytes under way in one direction are the frames of the packets under way.
use chatix_protocol.Base.{
  ℕ, suc, ◌+◌, ◌<◌, ◌^◌, ◌≡◌, refl, sym, ap, ◌∙◌, arith, List, [], ◌∷◌, ◌++◌, Option, some, ok,
  length,
}
use mathlib.Core.List.{append_assoc, append-nil}
use chatix_protocol.Codec.{PacketCodec, SessionCipher}
use chatix_protocol.Codec.Interfaces.{Reader, Delivers, Writer, Collects, Aead, IsAead}
use chatix_protocol.Codec.Read.{read_packet}
use chatix_protocol.Codec.Write.{write_packet}
use chatix_protocol.Codec.Sent.{Agree, IsNew, received}
use chatix_protocol.Codec.Nonces.{Outgoing}
use chatix_protocol.Codec.Stream.{MaySend}
use chatix_protocol.Codec.RoundTrip.{appended, read_packet-write_packet}

module _ (reader : Reader) (aead : Aead) (delivers : Delivers reader) where
  open delivers use {pending}

  -- Bytes that any receiver of this direction reads as the packet of this number.
  abbrev pub IsFrame : Option SessionCipher → ℕ → Outgoing → List ℕ → Type 0
  IsFrame session seq p bytes =
      (d : PacketCodec) (r : reader.R) (rest : List ℕ)
      → Agree session d.session
      → IsNew d.last_recv_seq seq
      → pending r ≡ bytes ++ rest
      → ((read_packet reader aead (d, r)).0
          ≡ ok (received session p.packet_type p.flags seq p.payload))
        × ((read_packet reader aead (d, r)).1.0 ≡ record d { last_recv_seq = some seq })
        × (pending (read_packet reader aead (d, r)).1.1 ≡ rest)

  -- The frames of some packets, numbered from `seq` on, one behind the other.
  abbrev pub AreFrames : Option SessionCipher → ℕ → List Outgoing → List ℕ → Type 0
  AreFrames session seq [] bytes = bytes ≡ []
  AreFrames session seq (p ∷ ps) bytes =
      (frame rest : List ℕ) × IsFrame session seq p frame
      × (bytes ≡ frame ++ rest)
      × AreFrames session (seq + 1) ps rest

  pub AreFrames-append :
      (session : Option SessionCipher) (seq : ℕ) (ps : List Outgoing) (p : Outgoing)
      (bytes frame : List ℕ)
      → AreFrames session seq ps bytes
      → IsFrame session (seq + length ps) p frame
      → AreFrames session seq (ps ++ p ∷ []) (bytes ++ frame)
  AreFrames-append session seq [] p bytes frame h f =
      let here : seq + 0 ≡ seq = omega arith in
      (frame, [], rw here at f, ap (λ xs. xs ++ frame) h ∙ sym (append-nil frame), refl)
  AreFrames-append session seq (q ∷ ps) p bytes frame (first, rest, i, e, h) f =
      let there : seq + suc (length ps) ≡ seq + 1 + length ps = omega arith in
      (
        first,
        rest ++ frame,
        i,
        ap (λ xs. xs ++ frame) e ∙ append_assoc first rest frame,
        AreFrames-append session (seq + 1) ps p rest frame h (rw there at f),
      )

  -- What `write_packet` appends is such a frame.
  pub write_packet-IsFrame :
      (writer : Writer) (collects : Collects writer) (is_aead : IsAead aead) (c : PacketCodec)
      (w : writer.W) (p : Outgoing)
      → c.next_send_seq + 1 < 2 ^ 64
      → MaySend c.session p
      → IsFrame c.session c.next_send_seq p (
          appended writer collects w
            (write_packet writer aead p.packet_type p.flags p.payload (c, w)).1.1)
  write_packet-IsFrame writer collects is_aead c w p left (may, len) d r rest agree new e =
      let (_, _, got, noted, end) =
        read_packet-write_packet reader writer aead delivers collects is_aead c d w r p.packet_type
          p.flags p.payload rest left agree new may len e in
      (got, noted, end)
