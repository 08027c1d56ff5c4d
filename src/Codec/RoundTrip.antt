-- ===== src/Codec/RoundTrip.antt =====
-- What `write_packet` sends, `read_packet` receives.
use chatix_protocol.Base.{
  ℕ, ◌+◌, ◌≤◌, ◌<◌, ◌^◌, ◌≡◌, refl, sym, ap, ◌∙◌, arith, List, ◌++◌, some, ok, length, drop,
  drop-append,
}
use mathlib.Core.List.{append_assoc}
use chatix_protocol.Sizes.{as_u32}
use chatix_protocol.Header.{new_header, to_bytes}
use chatix_protocol.Header.Layout.{IsHeader}
use chatix_protocol.PacketType.{PacketType, as_u8, max_payload_size}
use chatix_protocol.PacketType.Limits.{max_payload_size-le}
use chatix_protocol.Codec.{PacketCodec}
use chatix_protocol.Codec.Interfaces.{Reader, Delivers, Writer, Collects, Aead, IsAead}
use chatix_protocol.Codec.Read.{read_packet}
use chatix_protocol.Codec.Write.{Frame, write_packet}
use chatix_protocol.Codec.Frames.{write_packet-ok, read_packet-ok}
use chatix_protocol.Codec.Sent.{
  Agree, IsNew, MayFlag, received, IsSent, seal_payload-IsSent, IsNew-sequence_after,
  new_header-IsHeader,
}

drop_of : (xs : List ℕ) {ys zs : List ℕ} → ys ≡ xs ++ zs → drop (length xs) ys ≡ zs
drop_of xs {zs} e = rw e (drop-append xs zs)

module _ (writer : Writer) (collects : Collects writer) where
  open collects use {written}

  -- The bytes that are in `w'` and were not in `w`.
  abbrev pub appended : writer.W → writer.W → List ℕ
  appended w w' = drop (length (written w)) (written w')

  -- What was written before is still there.
  abbrev pub Grows : writer.W → writer.W → Type 0
  Grows w w' = written w' ≡ written w ++ appended w w'

  pub Grows-append :
      (w w' : writer.W) (xs : List ℕ)
      → written w' ≡ written w ++ xs
      → Grows w w' × (appended w w' ≡ xs)
  Grows-append w w' xs e =
      let same = drop_of (written w) e in (e ∙ ap (λ ys. written w ++ ys) (sym same), same)

  pub Grows-trans :
      (u v w : writer.W)
      → Grows u v
      → Grows v w
      → Grows u w × (appended u w ≡ appended u v ++ appended v w)
  Grows-trans u v w g h =
      Grows-append u w (appended u v ++ appended v w) (
        h
        ∙ ap (λ xs. xs ++ appended v w) g
        ∙ append_assoc (written u) (appended u v) (appended v w))

  -- A packet that may be sent is written whole behind what was written before.
  pub write_packet-Grows :
      (aead : Aead) (is_aead : IsAead aead) (c d : PacketCodec) (w : writer.W) (t : PacketType)
      (flags : ℕ) (payload : List ℕ)
      → c.next_send_seq + 1 < 2 ^ 64
      → Agree c.session d.session
      → MayFlag c.session flags
      → length payload ≤ max_payload_size t
      → ((write_packet writer aead t flags payload (c, w)).0 ≡ ok tt)
        × ((write_packet writer aead t flags payload (c, w)).1.0
            ≡ record c { next_send_seq = c.next_send_seq + 1 })
        × Grows w (write_packet writer aead t flags payload (c, w)).1.1
  write_packet-Grows aead is_aead c d w t flags payload left agree may len =
      let (frame, sent) =
        seal_payload-IsSent aead is_aead c.session d.session t c.next_send_seq flags payload agree
          may len in
      let (w', wrote, grown) =
        write_packet-ok writer aead collects c w t flags payload left sent.sealed in
      (
        ap (λ x. x.0) wrote,
        ap (λ x. x.1.0) wrote,
        (Grows-append w _ _ (ap (λ o. written o.1.1) wrote ∙ grown)).0,
      )

  -- What is appended is the header and the payload of a frame that the receiver can open.
  pub write_packet-appended :
      (aead : Aead) (is_aead : IsAead aead) (c d : PacketCodec) (w : writer.W) (t : PacketType)
      (flags : ℕ) (payload : List ℕ)
      → c.next_send_seq + 1 < 2 ^ 64
      → Agree c.session d.session
      → MayFlag c.session flags
      → length payload ≤ max_payload_size t
      → (frame : Frame) × IsSent aead is_aead c.session d.session t c.next_send_seq flags payload
          frame
        × IsHeader (new_header (as_u8 t) frame.flags (length frame.payload) c.next_send_seq)
        × (appended w (write_packet writer aead t flags payload (c, w)).1.1
            ≡ to_bytes (new_header (as_u8 t) frame.flags (length frame.payload) c.next_send_seq)
              ++ frame.payload)
  write_packet-appended aead is_aead c d w t flags payload left agree may len =
      let (frame, sent) =
        seal_payload-IsSent aead is_aead c.session d.session t c.next_send_seq flags payload agree
          may len in
      let (w', wrote, grown) =
        write_packet-ok writer aead collects c w t flags payload left sent.sealed in
      let fits : length frame.payload < 2 ^ 32 = omega (arith, sent.sized, max_payload_size-le t) in
      let small : as_u32 (length frame.payload) ≡ length frame.payload = omega arith in
      (
        frame,
        sent,
        new_header-IsHeader t frame.flags (length frame.payload) c.next_send_seq sent.flagged fits
            (omega arith),
        ap (λ o. drop (length (written w)) (written o.1.1)) wrote
            ∙ drop_of (written w) grown
            ∙ ap
                (λ (n : ℕ).
                  to_bytes (new_header (as_u8 t) frame.flags n c.next_send_seq) ++ frame.payload)
                small,
      )

module _ (reader : Reader) (writer : Writer) (aead : Aead) (delivers : Delivers reader)
    (collects : Collects writer) (is_aead : IsAead aead) where
  open delivers use {pending}
  open collects use {written}

  -- With a sequence number left, flags that the session permits and a payload within the limit of
  -- its type, `write_packet` succeeds and counts one number; a codec that shares the key of this
  -- direction (or, like the sender, has no session), has not seen this number and reads these
  -- bytes first gets the packet with the sender's payload, notes its number, and leaves the rest
  -- of the stream.
  pub read_packet-write_packet :
      (c d : PacketCodec) (w : writer.W) (r : reader.R) (t : PacketType) (flags : ℕ)
      (payload rest : List ℕ)
      → c.next_send_seq + 1 < 2 ^ 64
      → Agree c.session d.session
      → IsNew d.last_recv_seq c.next_send_seq
      → MayFlag c.session flags
      → length payload ≤ max_payload_size t
      → pending r
        ≡ appended writer collects w (write_packet writer aead t flags payload (c, w)).1.1 ++ rest
      → ((write_packet writer aead t flags payload (c, w)).0 ≡ ok tt)
        × ((write_packet writer aead t flags payload (c, w)).1.0
            ≡ record c { next_send_seq = c.next_send_seq + 1 })
        × ((read_packet reader aead (d, r)).0
            ≡ ok (received c.session t flags c.next_send_seq payload))
        × ((read_packet reader aead (d, r)).1.0 ≡ record d { last_recv_seq = some c.next_send_seq })
        × (pending (read_packet reader aead (d, r)).1.1 ≡ rest)
  unfolding new_header
  read_packet-write_packet c d w r t flags payload rest left agree new may len e =
      let (done, counted, _) =
        write_packet-Grows writer collects aead is_aead c d w t flags payload left agree may len in
      let (frame, sent, header-IsHeader, shape) =
        write_packet-appended writer collects aead is_aead c d w t flags payload left agree may
          len in
      let header = new_header (as_u8 t) frame.flags (length frame.payload) c.next_send_seq in
      let wire : pending r ≡ to_bytes header ++ (frame.payload ++ rest) =
        e
        ∙ ap (λ (x : List ℕ). x ++ rest) shape
        ∙ append_assoc (to_bytes header) frame.payload rest in
      let (r', got, end) =
        read_packet-ok reader aead delivers d r header frame.payload rest header-IsHeader
          sent.admitted (IsNew-sequence_after d.last_recv_seq c.next_send_seq new) refl wire in
      (
        done,
        counted,
        ap (λ x. x.0) got ∙ sent.opened,
        ap (λ x. x.1.0) got,
        ap (λ x. pending x.1.1) got ∙ end,
      )
