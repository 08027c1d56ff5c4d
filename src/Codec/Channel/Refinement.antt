-- ===== src/Codec/Channel/Refinement.antt =====
-- The connection of two codecs refines two queues, however the calls of the two sides interleave.
use chatix_protocol.Base.{
  ◌≡◌, refl, sym, ap, subst, ◌∙◌, arith, List, [], ◌∷◌, Option, All, inl, inr,
}
use chatix_protocol.Codec.{PacketCodec, SessionCipher}
use chatix_protocol.Codec.Interfaces.{Reader, Delivers, Writer, Collects, Aead, IsAead}
use chatix_protocol.Codec.Sent.{Agree, IsNew}
use chatix_protocol.Codec.Nonces.{Outgoing, write_packet-next_send_seq}
use chatix_protocol.Codec.Stream.{MaySend}
use chatix_protocol.Codec.Accept.{Advances, unchanged, noted, read_packet-Advances}
use chatix_protocol.Codec.Channel.{
  Queue, Queues, Event, client_sends, server_sends, client_receives, server_receives, sent, got,
  queues_step, Network, Pipe, Link, link_step, transmit, collect, run,
}
use chatix_protocol.Codec.Channel.Steps.{Channel, collect-dequeue, transmit-enqueue}

-- What the callers may do: each sends what its session permits, within the limit of its type.
abbrev pub MayDo : Option SessionCipher → Option SessionCipher → Event → Type 0
MayDo client_session server_session (client_sends p) = MaySend client_session p
MayDo client_session server_session (server_sends p) = MaySend server_session p
MayDo client_session server_session client_receives = Unit
MayDo client_session server_session server_receives = Unit

cons_eq : {A : Type 0} {x y : A} {xs ys : List A} → x ≡ y → xs ≡ ys → x ∷ xs ≡ y ∷ ys
cons_eq h k = cc

module _ (reader : Reader) (writer : Writer) (aead : Aead) (delivers : Delivers reader)
    (collects : Collects writer) (network : Network reader delivers) where
  open delivers use {pending}

  abbrev PipeOf : Type 0
  PipeOf = Pipe reader writer aead delivers collects network

  abbrev LinkOf : Type 0
  LinkOf = Link reader writer aead delivers collects network

  abbrev ChannelOf : Option SessionCipher → PacketCodec → PipeOf → PacketCodec → Queue → Type 0
  ChannelOf = Channel reader writer aead delivers collects network

  -- Sending leaves what the codec knows of the packets that it receives, and the other way round.
  transmit_keeps :
      (p : Outgoing) (c : PacketCodec) (pipe : PipeOf)
      → (let c' = (transmit reader writer aead delivers collects network p c pipe).1.0 in
          (c'.session ≡ c.session) × (c'.last_recv_seq ≡ c.last_recv_seq))
  unfolding transmit
  transmit_keeps p c pipe = elim (write_packet-next_send_seq writer aead c pipe.input p) [
    | inl (full, e) ↦ (ap (λ x. x.1.0.session) e, ap (λ x. x.1.0.last_recv_seq) e)
    | inr (left, e) ↦ (ap (λ x. x.session) e, ap (λ x. x.last_recv_seq) e)
  ]

  session_kept :
      {d d' : PacketCodec}
      → Advances d d'
      → (d'.session ≡ d.session) × (d'.next_send_seq ≡ d.next_send_seq)
  session_kept unchanged = (refl, refl)
  session_kept (noted seq new) = (refl, refl)

  collect_keeps :
      (d : PacketCodec) (pipe : PipeOf)
      → (let d' = (collect reader writer aead delivers collects network d pipe).1.0 in
          (d'.session ≡ d.session) × (d'.next_send_seq ≡ d.next_send_seq))
  unfolding collect
  collect_keeps d pipe = session_kept (read_packet-Advances reader aead d pipe.output)

  -- A direction is not affected by what the two codecs do in the other one.
  Channel_other :
      {session : Option SessionCipher} {c c' d d' : PacketCodec} {pipe : PipeOf} {q : Queue}
      → (c'.session ≡ c.session) × (c'.next_send_seq ≡ c.next_send_seq)
      → (d'.session ≡ d.session) × (d'.last_recv_seq ≡ d.last_recv_seq)
      → ChannelOf session c pipe d q
      → ChannelOf session c' pipe d' q
  Channel_other {session} (cs, cn) (ds, dl) h = record {
    sender = cs ∙ h.sender;
    agree = subst (Agree session) (sym ds) h.agree;
    counted = cn ∙ h.counted;
    first = h.first;
    numbers = h.numbers;
    new = subst (λ last. IsNew last h.first) (sym dl) h.new;
    wire = h.wire;
  }

  module _ (is_aead : IsAead aead) (client_session server_session : Option SessionCipher) where
    record Refines (l : LinkOf) (s : Queues) : Type 0 where
      to_server : ChannelOf client_session l.client l.to_server l.server s.to_server
      to_client : ChannelOf server_session l.server l.to_client l.client s.to_client

    link_step-Refines :
        (e : Event) (l : LinkOf) (s : Queues)
        → MayDo client_session server_session e
        → Refines l s
        → (let x = link_step reader writer aead delivers collects network e l in
            let y = queues_step client_session server_session delivers.eof e s in
            (x.0 ≡ y.0) × Refines x.1 y.1)
    unfolding link_step queues_step
    link_step-Refines (client_sends p) l s may h =
        let (same, after) =
          transmit-enqueue reader writer aead delivers collects network is_aead client_session
            l.client l.server l.to_server s.to_server p may h.to_server in
        (
          ap sent same,
          record {
            to_server = after;
            to_client =
                Channel_other (refl, refl) (transmit_keeps p l.client l.to_server) h.to_client;
          },
        )
    link_step-Refines (server_sends p) l s may h =
        let (same, after) =
          transmit-enqueue reader writer aead delivers collects network is_aead server_session
            l.server l.client l.to_client s.to_client p may h.to_client in
        (
          ap sent same,
          record {
            to_server =
                Channel_other (refl, refl) (transmit_keeps p l.server l.to_client) h.to_server;
            to_client = after;
          },
        )
    link_step-Refines server_receives l s may h =
        let (same, after) =
          collect-dequeue reader writer aead delivers collects network is_aead client_session
            l.client l.server l.to_server s.to_server.next_number s.to_server.under_way
            h.to_server in
        (
          ap got same,
          record {
            to_server = after;
            to_client = Channel_other (collect_keeps l.server l.to_server) (refl, refl) h.to_client;
          },
        )
    link_step-Refines client_receives l s may h =
        let (same, after) =
          collect-dequeue reader writer aead delivers collects network is_aead server_session
            l.server l.client l.to_client s.to_client.next_number s.to_client.under_way
            h.to_client in
        (
          ap got same,
          record {
            to_server = Channel_other (collect_keeps l.client l.to_client) (refl, refl) h.to_server;
            to_client = after;
          },
        )

    run-Refines :
        (es : List Event) (l : LinkOf) (s : Queues)
        → All (MayDo client_session server_session) es
        → Refines l s
        → run (link_step reader writer aead delivers collects network) es l
          ≡ run (queues_step client_session server_session delivers.eof) es s
    unfolding run
    run-Refines [] l s may h = refl
    run-Refines (e ∷ es) l s (m, ms) h =
        let (same, after) = link_step-Refines e l s m h in
        cons_eq same (run-Refines es _ _ ms after)

  -- Two codecs whose sessions share a key in each direction (or that both have no session),
  -- joined by two streams that are empty, over a network that delivers what is written, refine
  -- two queues of packets: for every list of sends and receives of the two sides in any order, in
  -- which each side sends only packets within the limit of their type and with flags that its
  -- session permits, every call has the outcome that the queues give: a send succeeds until the
  -- numbers of its direction are used up and is then a crypto error, and a receive gives the
  -- oldest packet under way to this side with its number, or the end of the stream if there is
  -- none.
  pub run_refines_queues :
      (is_aead : IsAead aead) (l : LinkOf) (es : List Event)
      → Agree l.client.session l.server.session
      → Agree l.server.session l.client.session
      → IsNew l.server.last_recv_seq l.client.next_send_seq
      → IsNew l.client.last_recv_seq l.server.next_send_seq
      → pending l.to_server.output ≡ []
      → pending l.to_client.output ≡ []
      → All (MayDo l.client.session l.server.session) es
      → run (link_step reader writer aead delivers collects network) es l
        ≡ run (queues_step l.client.session l.server.session delivers.eof) es (record {
          to_server = record { next_number = l.client.next_send_seq; under_way = [] };
          to_client = record { next_number = l.server.next_send_seq; under_way = [] };
        })
  run_refines_queues is_aead l es up down new_up new_down empty_up empty_down may =
      run-Refines is_aead l.client.session l.server.session es l _ may (record {
        to_server = record {
          sender = refl;
          agree = up;
          counted = refl;
          first = l.client.next_send_seq;
          numbers = omega arith;
          new = new_up;
          wire = empty_up;
        };
        to_client = record {
          sender = refl;
          agree = down;
          counted = refl;
          first = l.server.next_send_seq;
          numbers = omega arith;
          new = new_down;
          wire = empty_down;
        };
      })
