-- ===== src/Codec/Channel/Steps.antt =====
-- One direction: `write_packet` is `enqueue`, and `read_packet` is `dequeue`.
use chatix_protocol.Base.{
  ℕ, suc, ◌+◌, ◌-◌, ◌≤◌, ◌<◌, ◌^◌, ◌≡◌, refl, sym, ap, subst, ◌∙◌, arith, List, [], ◌∷◌, ◌++◌,
  Option, ok, err, length, length-append, drop, inl, inr,
}
use mathlib.Core.List.{append-nil}
use chatix_protocol.Error.{io, crypto_error}
use chatix_protocol.Codec.{PacketCodec, SessionCipher}
use chatix_protocol.Codec.Interfaces.{Reader, Delivers, Writer, Collects, Aead, IsAead}
use chatix_protocol.Codec.Read.{read_packet, read_bytes}
use chatix_protocol.Codec.Sent.{Agree, IsNew, received}
use chatix_protocol.Codec.Nonces.{Outgoing, send, write_packet-next_send_seq}
use chatix_protocol.Codec.Stream.{MaySend}
use chatix_protocol.Codec.RoundTrip.{appended, Grows-append, write_packet-Grows}
use chatix_protocol.Codec.Channel.{Queue, enqueue, dequeue, Network, Pipe, transmit, collect}
use chatix_protocol.Codec.Channel.Wire.{IsFrame, AreFrames, AreFrames-append, write_packet-IsFrame}

module _ (reader : Reader) (writer : Writer) (aead : Aead) (delivers : Delivers reader)
    (collects : Collects writer) (network : Network reader delivers) where
  open delivers use {pending}

  abbrev PipeOf : Type 0
  PipeOf = Pipe reader writer aead delivers collects network

  -- A sender, a stream and a receiver that stand for a queue.
  pub record Channel (session : Option SessionCipher) (c : PacketCodec) (pipe : PipeOf)
      (d : PacketCodec) (q : Queue) : Type 0 where
    pub sender : c.session ≡ session
    pub agree : Agree session d.session
    pub counted : c.next_send_seq ≡ q.next_number
    pub first : ℕ
    pub numbers : first + length q.under_way ≡ q.next_number
    pub new : IsNew d.last_recv_seq first
    pub wire : AreFrames reader aead delivers session first q.under_way (pending pipe.output)

  nothing_arrives :
      (pipe : PipeOf)
      → pending (network.arrive (appended writer collects pipe.input pipe.input) pipe.output)
        ≡ pending pipe.output
  nothing_arrives pipe =
      network.pending_arrive _ pipe.output
      ∙ ap (λ xs. pending pipe.output ++ xs)
          (Grows-append writer collects pipe.input pipe.input [] (sym (append-nil _))).1
      ∙ append-nil (pending pipe.output)

  module _ (is_aead : IsAead aead) (session : Option SessionCipher) where
    -- The end of the stream is an error that changes nothing.
    read_nothing :
        (d : PacketCodec) (r : reader.R)
        → pending r ≡ []
        → ((read_packet reader aead (d, r)).0 ≡ err (io delivers.eof))
          × ((read_packet reader aead (d, r)).1.0 ≡ d)
          × (pending (read_packet reader aead (d, r)).1.1 ≡ [])
    unfolding read_packet read_bytes
    read_nothing d r e =
        let failed = delivers.short r 24 (rw e (omega arith)) in
        let left : pending (reader.read_exact r 24).1 ≡ [] = delivers.rest r 24 ∙ ap (drop 24) e in
        (ground (arith, failed), ground (arith, failed), ground (arith, failed, left))

    pub collect-dequeue :
        (c d : PacketCodec) (pipe : PipeOf) (n : ℕ) (ps : List Outgoing)
        → (let q : Queue = record { next_number = n; under_way = ps } in
            let x = collect reader writer aead delivers collects network d pipe in
            let y = dequeue session delivers.eof q in
            Channel session c pipe d q → (x.0 ≡ y.0) × Channel session c x.1.1 x.1.0 y.1)
    unfolding collect dequeue
    collect-dequeue c d pipe n [] h =
        let (failed, same, left) = read_nothing d pipe.output h.wire in
        (
          failed,
          record {
            sender = h.sender;
            agree = subst (λ (x : PacketCodec). Agree session x.session) (sym same) h.agree;
            counted = h.counted;
            first = h.first;
            numbers = h.numbers;
            new = subst (λ (x : PacketCodec). IsNew x.last_recv_seq h.first) (sym same) h.new;
            wire = left;
          },
        )
    collect-dequeue c d pipe n (p ∷ ps) h =
        let (frame, rest, is_frame, e, more) = h.wire in
        let (got, noted, left) = is_frame d pipe.output rest h.agree h.new e in
        let number : h.first ≡ n - suc (length ps) = omega (arith, h.numbers) in
        (
          got ∙ ap (λ m. ok (received session p.packet_type p.flags m p.payload)) number,
          record {
            sender = h.sender;
            agree = subst (λ (x : PacketCodec). Agree session x.session) (sym noted) h.agree;
            counted = h.counted;
            first = h.first + 1;
            numbers = omega (arith, h.numbers);
            new =
                subst (λ (x : PacketCodec). IsNew x.last_recv_seq (h.first + 1)) (sym noted)
                  (omega arith);
            wire = subst (AreFrames reader aead delivers session (h.first + 1) ps) (sym left) more;
          },
        )

    enqueue_full :
        (p : Outgoing) (q : Queue)
        → 2 ^ 64 ≤ q.next_number + 1
        → enqueue p q ≡ (err crypto_error, q)
    unfolding enqueue
    enqueue_full p q h = ground arith

    enqueue_left :
        (p : Outgoing) (q : Queue)
        → q.next_number + 1 < 2 ^ 64
        → enqueue p q
          ≡ (ok tt, record { next_number = q.next_number + 1; under_way = q.under_way ++ p ∷ [] })
    unfolding enqueue
    enqueue_left p q h = ground arith

    -- What the sender appends is the frame with the number of the queue.
    appended-IsFrame :
        (c d : PacketCodec) (pipe : PipeOf) (q : Queue) (p : Outgoing)
        → MaySend session p
        → (h : Channel session c pipe d q) → c.next_send_seq + 1 < 2 ^ 64
        → IsFrame reader aead delivers session
            (h.first + length q.under_way)
            p
            (appended writer collects pipe.input (send writer aead p (c, pipe.input)).1.1)
    unfolding send
    appended-IsFrame c d pipe q p may h left =
        let frame = appended writer collects pipe.input (send writer aead p (c, pipe.input)).1.1 in
        let f =
          write_packet-IsFrame reader aead delivers writer collects is_aead c pipe.input p left
            (subst (λ s. MaySend s p) (sym h.sender) may) in
        subst (λ n. IsFrame reader aead delivers session n p frame) (h.counted ∙ sym h.numbers)
          (subst (λ s. IsFrame reader aead delivers s c.next_send_seq p frame) h.sender f)

    pub transmit-enqueue :
        (c d : PacketCodec) (pipe : PipeOf) (q : Queue) (p : Outgoing)
        → MaySend session p
        → Channel session c pipe d q
        → (let x = transmit reader writer aead delivers collects network p c pipe in
            let y = enqueue p q in (x.0 ≡ y.0) × Channel session x.1.0 x.1.1 d y.1)
    unfolding transmit send
    transmit-enqueue c d pipe q p may h =
        elim (write_packet-next_send_seq writer aead c pipe.input p) [
          | inl (full, e) ↦
              rw (e, enqueue_full p q (omega (arith, h.counted)))
                (
                  refl,
                  record {
                    sender = h.sender;
                    agree = h.agree;
                    counted = h.counted;
                    first = h.first;
                    numbers = h.numbers;
                    new = h.new;
                    wire =
                        subst (AreFrames reader aead delivers session h.first q.under_way)
                          (sym (nothing_arrives pipe)) h.wire;
                  },
                )
          | inr (left, e) ↦ rw (enqueue_left p q (omega (arith, h.counted))) (
            (write_packet-Grows writer collects aead is_aead c d pipe.input p.packet_type p.flags
                p.payload left (subst (λ s. Agree s d.session) (sym h.sender) h.agree)
                (subst (λ s. MaySend s p) (sym h.sender) may).0 may.1).0,
            record {
              sender = ap (λ x. x.session) e ∙ h.sender;
              agree = h.agree;
              counted = ap (λ x. x.next_send_seq) e ∙ ap (λ n. n + 1) h.counted;
              first = h.first;
              numbers = omega (arith, length-append q.under_way (p ∷ []), h.numbers);
              new = h.new;
              wire =
                  subst (AreFrames reader aead delivers session h.first (q.under_way ++ p ∷ []))
                    (sym (network.pending_arrive _ pipe.output))
                    (AreFrames-append reader aead delivers session h.first q.under_way p
                      (pending pipe.output) _ h.wire (appended-IsFrame c d pipe q p may h left));
            },
          )
        ]
