-- ===== src/Codec/Stream.antt =====
-- A stream of packets: what one side sends packet by packet, the other receives packet by packet.
use chatix_protocol.Base.{
  ℕ, zero, suc, ◌+◌, ◌≤◌, ◌<◌, ◌^◌, ◌≡◌, refl, sym, ap, ◌∙◌, arith, Option, List, [], ◌∷◌, ◌++◌,
  some, ok, err, panic, All, Result, length,
}
use mathlib.Core.List.{append_assoc, append-nil}
use chatix_protocol.Error.{ProtocolError}
use chatix_protocol.PacketType.{max_payload_size}
use chatix_protocol.Codec.{PacketCodec, SessionCipher, RawPacket}
use chatix_protocol.Codec.Interfaces.{Reader, Delivers, Writer, Collects, Aead, IsAead}
use chatix_protocol.Codec.Action.{Action, ◌>>=◌, ◌>>◌, pure, next}
use chatix_protocol.Codec.Read.{read_packet}
use chatix_protocol.Codec.Write.{write_packet}
use chatix_protocol.Codec.Sent.{Agree, IsNew, MayFlag, received}
use chatix_protocol.Codec.RoundTrip.{
  appended, Grows, Grows-append, Grows-trans, write_packet-Grows, read_packet-write_packet,
}
use chatix_protocol.Codec.Nonces.{Outgoing, send}

-- The packets that the receiver is handed, from a sequence number on.
unfoldable pub received_all : Option SessionCipher → ℕ → List Outgoing → List RawPacket
received_all session seq [] = []
received_all session seq (p ∷ ps) =
    received session p.packet_type p.flags seq p.payload ∷ received_all session (seq + 1) ps

-- What a caller may send.
abbrev pub MaySend : Option SessionCipher → Outgoing → Type 0
MaySend session p = MayFlag session p.flags × (length p.payload ≤ max_payload_size p.packet_type)

module _ (writer : Writer) (aead : Aead) where
  -- One `write_packet` after the other, up to the first error.
  unfoldable pub send_all : List Outgoing → Action (PacketCodec × writer.W) (Unit {0})
  unfolding send
  send_all [] = pure tt
  send_all (p ∷ ps) = do send writer aead p; send_all ps

module _ (reader : Reader) (aead : Aead) where
  -- One `read_packet` after the other, up to the first error.
  unfoldable pub receive_all : ℕ → Action (PacketCodec × reader.R) (List RawPacket)
  receive_all zero = pure []
  receive_all (suc n) = do p ← read_packet reader aead; ps ← receive_all n; pure (p ∷ ps)

next-eq :
    {S A B : Type 0} (x : Result ProtocolError A × S) (f : A → Action S B) {a : A} {s : S}
    → x.0 ≡ ok a
    → x.1 ≡ s
    → next x f ≡ f a s
next-eq (ok a, s) f h k = cc
next-eq (err e, s) f h k = cc
next-eq (panic, s) f h k = cc

module _ (writer : Writer) (aead : Aead) (collects : Collects writer) (is_aead : IsAead aead) where
  -- The first packet of several is written, and then the others by the codec after it.
  first_sent :
      (p : Outgoing) (ps : List Outgoing) (c d : PacketCodec) (w : writer.W)
      → c.next_send_seq + 1 < 2 ^ 64
      → Agree c.session d.session
      → MaySend c.session p
      → (let w₁ = (send writer aead p (c, w)).1.1 in
          Grows writer collects w w₁
          × (send_all writer aead (p ∷ ps) (c, w)
              ≡ send_all writer aead ps (record c { next_send_seq = c.next_send_seq + 1 }, w₁)))
  unfolding send_all send
  first_sent p ps c d w left agree (may, len) =
      let (done, stepped, grown) =
        write_packet-Grows writer collects aead is_aead c d w p.packet_type p.flags p.payload left
          agree may len in
      let x = write_packet writer aead p.packet_type p.flags p.payload (c, w) in
      (grown, next-eq x (λ _. send_all writer aead ps) done (ap (λ e. (e, x.1.1)) stepped))

  send_all-ok :
      (ps : List Outgoing) (c d : PacketCodec) (w : writer.W)
      → c.next_send_seq + length ps < 2 ^ 64
      → Agree c.session d.session
      → All (MaySend c.session) ps
      → ((send_all writer aead ps (c, w)).0 ≡ ok tt)
        × Grows writer collects w (send_all writer aead ps (c, w)).1.1
  unfolding send_all
  send_all-ok [] c d w left agree may =
      (refl, (Grows-append writer collects w w [] (sym (append-nil _))).0)
  send_all-ok (p ∷ ps) c d w left agree (m, ms) =
      let (grown, e) = first_sent p ps c d w (omega arith) agree m in
      let c₁ : PacketCodec = record c { next_send_seq = c.next_send_seq + 1 } in
      let w₁ = (send writer aead p (c, w)).1.1 in
      let (done, rest) = send_all-ok ps c₁ d w₁ (omega arith) agree ms in
      (
        ap (λ x. x.0) e ∙ done,
        rw e (Grows-trans writer collects w w₁ (send_all writer aead ps (c₁, w₁)).1.1 grown rest).0,
      )

module _ (reader : Reader) (writer : Writer) (aead : Aead) (delivers : Delivers reader)
    (collects : Collects writer) (is_aead : IsAead aead) where
  open delivers use {pending}

  -- A codec that is given a list of packets, each within the limit of its type and with flags
  -- that its session permits, and whose counter has that many numbers left, sends all of them
  -- without an error; a codec that shares the key of this direction (or, like the sender, has no
  -- session) and has seen only earlier sequence numbers, reading from a stream on which those
  -- bytes come next, receives exactly these packets in this order, numbered one after the other,
  -- and leaves on the stream what followed them.
  pub receive_all-send_all :
      (ps : List Outgoing) (c d : PacketCodec) (w : writer.W) (r : reader.R) (rest : List ℕ)
      → c.next_send_seq + length ps < 2 ^ 64
      → Agree c.session d.session
      → IsNew d.last_recv_seq c.next_send_seq
      → All (MaySend c.session) ps
      → pending r ≡ appended writer collects w (send_all writer aead ps (c, w)).1.1 ++ rest
      → ((send_all writer aead ps (c, w)).0 ≡ ok tt)
        × ((receive_all reader aead (length ps) (d, r)).0
            ≡ ok (received_all c.session c.next_send_seq ps))
        × (pending (receive_all reader aead (length ps) (d, r)).1.1 ≡ rest)
  unfolding send_all receive_all received_all send
  receive_all-send_all [] c d w r rest left agree new may e = (
    refl,
    refl,
    e ∙ ap (λ xs. xs ++ rest) (Grows-append writer collects w w [] (sym (append-nil _))).1,
  )
  receive_all-send_all (p ∷ ps) c d w r rest left agree new (m, ms) e =
      let (grown, sent) =
        first_sent writer aead collects is_aead p ps c d w (omega arith) agree m in
      let c₁ : PacketCodec = record c { next_send_seq = c.next_send_seq + 1 } in
      let d₁ : PacketCodec = record d { last_recv_seq = some c.next_send_seq } in
      let w₁ = (send writer aead p (c, w)).1.1 in
      let w₂ = (send_all writer aead ps (c₁, w₁)).1.1 in
      let (_, more) = send_all-ok writer aead collects is_aead ps c₁ d w₁ (omega arith) agree ms in
      let wire : pending r
          ≡ appended writer collects w w₁ ++ (appended writer collects w₁ w₂ ++ rest) =
        e
        ∙ ap (λ s. appended writer collects w s.1.1 ++ rest) sent
        ∙ ap (λ xs. xs ++ rest) (Grows-trans writer collects w w₁ w₂ grown more).1
        ∙ append_assoc (appended writer collects w w₁) (appended writer collects w₁ w₂) rest in
      let (_, _, got, noted, left_over) =
        read_packet-write_packet reader writer aead delivers collects is_aead c d w r p.packet_type
          p.flags p.payload (appended writer collects w₁ w₂ ++ rest) (omega arith) agree new m.0 m.1
          wire in
      let x = read_packet reader aead (d, r) in
      let (done, others, end) =
        receive_all-send_all ps c₁ d₁ w₁ x.1.1 rest (omega arith) agree (omega arith) ms
          left_over in
      let received_first =
        next-eq x (λ q. receive_all reader aead (length ps) >>= λ qs. pure (q ∷ qs)) got
          (ap (λ s. (s, x.1.1)) noted) in
      let received_rest =
        next-eq (receive_all reader aead (length ps) (d₁, x.1.1))
          (λ qs. pure (received c.session p.packet_type p.flags c.next_send_seq p.payload ∷ qs))
          others refl in
      (
        ap (λ s. s.0) sent ∙ done,
        ap (λ s. s.0) (received_first ∙ received_rest),
        ap (λ s. pending s.1.1) (received_first ∙ received_rest) ∙ end,
      )
