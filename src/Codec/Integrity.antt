-- ===== src/Codec/Integrity.antt =====
-- What a session promises of a whole run: src/codec.rs, one `read_packet` after the other.
use chatix_protocol.Base.{
  ℕ, zero, suc, ◌≡◌, refl, sym, ap, ◌∙◌, arith, Option, some, List, [], ◌∷◌, All, ok, Result,
  length, subst,
}
use chatix_protocol.Error.{ProtocolError}
use chatix_protocol.Header.{PacketHeader, from_bytes}
use chatix_protocol.Codec.{PacketCodec, SessionCipher, RawPacket}
use chatix_protocol.Codec.Interfaces.{Reader, Aead, OpensOnlySealed}
use chatix_protocol.Codec.Action.{◌>>=◌, pure}
use chatix_protocol.Codec.Read.{read_packet}
use chatix_protocol.Codec.Sent.{IsNew}
use chatix_protocol.Codec.Stream.{receive_all}
use chatix_protocol.Codec.Accept.{next-ok, read_packet-Accepted}
use chatix_protocol.Codec.Security.{IsSealed, finish_packet-ok, read_packet-IsSealed}

-- The sequence number of each packet is later than all before it, and than the one noted first.
abbrev pub InOrder : Option ℕ → List RawPacket → Type 0
InOrder last [] = Unit
InOrder last (p ∷ ps) = IsNew last p.header.sequence × InOrder (some p.header.sequence) ps

-- The number that is noted after some packets.
abbrev pub last_noted : Option ℕ → List RawPacket → Option ℕ
last_noted last [] = last
last_noted last (p ∷ ps) = last_noted (some p.header.sequence) ps

ok-injective : {A : Type 0} {a b : A} → ◌≡◌ {A = Result ProtocolError A} (ok a) (ok b) → a ≡ b
ok-injective h = ground arith

module _ (reader : Reader) (aead : Aead) where
  -- The codec after a packet has noted the number of that packet, which is new, and nothing else.
  read_packet-notes :
      (d : PacketCodec) (r : reader.R) {p : RawPacket}
      → (read_packet reader aead (d, r)).0 ≡ ok p
      → IsNew d.last_recv_seq p.header.sequence
        × ((read_packet reader aead (d, r)).1.0
            ≡ record d { last_recv_seq = some p.header.sequence })
  read_packet-notes d r {p} e =
      let a = read_packet-Accepted reader aead d r e in
      let h = from_bytes a.header_bytes in
      let (same, _, _) = finish_packet-ok aead d.session h a.payload a.finished in
      let seq : h.sequence ≡ p.header.sequence = sym (ap (λ (k : PacketHeader). k.sequence) same) in
      (
        subst (IsNew d.last_recv_seq) seq a.in_order,
        a.codec_after ∙ ap (λ n. record d { last_recv_seq = some n }) seq,
      )

  -- A property of each packet of a run and of the stream where it was read.
  abbrev pub Along :
      (reader.R → RawPacket → Type 0) → PacketCodec × reader.R → List RawPacket → Type 0
  Along P s [] = Unit
  Along P s (p ∷ ps) = P s.1 p × Along P (read_packet reader aead s).1 ps

  pub Along-All :
      (P : RawPacket → Type 0) (s : PacketCodec × reader.R) (ps : List RawPacket)
      → Along (λ r p. P p) s ps
      → All P ps
  Along-All P s [] h = tt
  Along-All P s (p ∷ ps) (h, hs) = (h, Along-All P (read_packet reader aead s).1 ps hs)

  -- A number of packets that a codec was handed, each with a property, and the codec after them.
  abbrev pub HasReceived :
      (reader.R → RawPacket → Type 0)
      → PacketCodec × reader.R
      → ℕ
      → List RawPacket
      → PacketCodec
      → Type 0
  HasReceived P s n ps after =
      (length ps ≡ n)
      × Along P s ps
      × InOrder s.0.last_recv_seq ps
      × (after ≡ record s.0 { last_recv_seq = last_noted s.0.last_recv_seq ps })

  -- What holds of every packet that is accepted under a session, holds of those of a whole run.
  pub receive_all-HasReceived :
      (P : reader.R → RawPacket → Type 0) (cipher : SessionCipher)
      → ((d : PacketCodec) (r : reader.R) (p : RawPacket)
          → d.session ≡ some cipher
          → (read_packet reader aead (d, r)).0 ≡ ok p
          → P r p)
      → (n : ℕ) (d : PacketCodec) (r : reader.R) {ps : List RawPacket} → d.session ≡ some cipher
      → (receive_all reader aead n (d, r)).0 ≡ ok ps
      → HasReceived P (d, r) n ps (receive_all reader aead n (d, r)).1.0
  unfolding receive_all
  receive_all-HasReceived P cipher each zero d r s e =
      subst (λ qs. HasReceived P (d, r) 0 qs d) (ok-injective e) (refl, tt, tt, refl)
  receive_all-HasReceived P cipher each (suc n) d r s e =
      let rest = receive_all reader aead n in
      let x = read_packet reader aead (d, r) in
      let (p, first, e₁, q₁) = next-ok x (λ p. rest >>= λ qs. pure (p ∷ qs)) e in
      let (new, noted) = read_packet-notes d r first in
      let (qs, others, e₂, q₂) = next-ok (rest x.1) (λ qs. pure (p ∷ qs)) e₁ in
      let d₁ : PacketCodec = record d { last_recv_seq = some p.header.sequence } in
      let state : x.1 ≡ (d₁, x.1.1) = ap (λ c. (c, x.1.1)) noted in
      let (count, hold, ordered, after) =
        receive_all-HasReceived P cipher each n d₁ x.1.1 {ps = qs} s
          (ap (λ y. (rest y).0) (sym state) ∙ others) in
      subst (λ qs. HasReceived P (d, r) (suc n) qs (receive_all reader aead (suc n) (d, r)).1.0)
        (ok-injective e₂)
        (
          ap suc count,
          (each d r p s first, subst (λ y. Along P y qs) (sym state) hold),
          (new, ordered),
          ap (λ y. y.1.0) (q₁ ∙ q₂) ∙ ap (λ y. (rest y).1.0) state ∙ after,
        )

  -- For an AEAD that opens only what it sealed: whatever the stream delivers, when a codec with a
  -- session receives a number of packets one after the other without an error, it is handed that
  -- many packets. Each comes from the bytes of the stream where the one before stopped: its
  -- header is read there and kept but for the length, it is marked encrypted, and the bytes
  -- behind the header, as many as it announces, are what sealing the payload gives under the
  -- inbound key of the session, with the nonce of its sequence number and with its packet type
  -- and flags as associated data. The sequence numbers increase from packet to packet, and the
  -- first is later than the number noted before. The codec has changed in nothing but the number
  -- noted, which is that of the last packet, if there is one.
  pub receive_all-IsSealed :
      (opens : OpensOnlySealed aead) (n : ℕ) (d : PacketCodec) (r : reader.R)
      (cipher : SessionCipher) {ps : List RawPacket}
      → d.session ≡ some cipher
      → (receive_all reader aead n (d, r)).0 ≡ ok ps
      → HasReceived
          (IsSealed reader aead cipher.inbound_key)
          (d, r)
          n
          ps
          (receive_all reader aead n (d, r)).1.0
  receive_all-IsSealed opens n d r cipher s e =
      receive_all-HasReceived (IsSealed reader aead cipher.inbound_key) cipher
        (λ d₁ r₁ p s₁ e₁. read_packet-IsSealed reader aead opens d₁ r₁ cipher s₁ e₁) n d r s e
