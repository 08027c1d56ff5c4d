-- ===== src/Codec/Channel.antt =====
-- The specification of a connection: in each direction a queue of packets, whatever the bytes on
-- the wire; and the same connection made of two codecs (src/codec.rs) and two streams.
pub mod Wire
pub mod Steps
pub mod Refinement
use chatix_protocol.Base.{
  ℕ, ◌+◌, ◌-◌, ◌^◌, ◌≡◌, ltb, if◌then◌else◌, List, [], ◌∷◌, ◌++◌, Option, none, some, Result, ok,
  err, length,
}
use chatix_protocol.Error.{ProtocolError, IoError, crypto_error, io}
use chatix_protocol.Codec.{PacketCodec, SessionCipher, RawPacket}
use chatix_protocol.Codec.Interfaces.{Reader, Delivers, Writer, Collects, Aead}
use chatix_protocol.Codec.Read.{read_packet}
use chatix_protocol.Codec.RoundTrip.{appended}
use chatix_protocol.Codec.Nonces.{Outgoing, send}
use chatix_protocol.Codec.Sent.{received}

-- The packets under way in one direction, the oldest first, and the number of the next one.
pub record Queue : Type 0 where
  pub next_number : ℕ
  pub under_way : List Outgoing

-- Sending: a queue whose numbers are used up refuses.
unfoldable pub enqueue : Outgoing → Queue → Result ProtocolError (Unit {0}) × Queue
enqueue p q =
    if ltb (q.next_number + 1) (2 ^ 64)
    then (ok tt, record { next_number = q.next_number + 1; under_way = q.under_way ++ p ∷ [] })
    else (err crypto_error, q)

-- Receiving: the oldest packet with its number, or the end of the stream.
unfoldable pub dequeue :
    Option SessionCipher → IoError → Queue → Result ProtocolError RawPacket × Queue
dequeue session eof q = elim q.under_way [
  | [] ↦ (err (io eof), q)
  | p ∷ ps ↦ (
    ok (received session p.packet_type p.flags (q.next_number - length q.under_way) p.payload),
    record { next_number = q.next_number; under_way = ps },
  )
]

-- What the two sides of a connection do, one thing after the other.
pub data Event : Type 0 where
  client_sends server_sends : Outgoing → Event
  server_receives client_receives : Event

-- What the caller of the codec sees of it.
pub data Seen : Type 0 where
  sent : Result ProtocolError (Unit {0}) → Seen
  got : Result ProtocolError RawPacket → Seen

pub record Queues : Type 0 where
  pub to_server : Queue
  pub to_client : Queue

module _ (client_session server_session : Option SessionCipher) (eof : IoError) where
  -- The specification: two queues.
  unfoldable pub queues_step : Event → Queues → Seen × Queues
  queues_step (client_sends p) s =
      let x = enqueue p s.to_server in (sent x.0, record s { to_server = x.1 })
  queues_step (server_sends p) s =
      let x = enqueue p s.to_client in (sent x.0, record s { to_client = x.1 })
  queues_step server_receives s =
      let x = dequeue client_session eof s.to_server in (got x.0, record s { to_server = x.1 })
  queues_step client_receives s =
      let x = dequeue server_session eof s.to_client in (got x.0, record s { to_client = x.1 })

-- The network under the streams: bytes that were written arrive behind those that are pending.
pub record Network (reader : Reader) (delivers : Delivers reader) : Type 0 where
  pub arrive : List ℕ → reader.R → reader.R
  pub pending_arrive :
      (bs : List ℕ) (r : reader.R) → delivers.pending (arrive bs r) ≡ delivers.pending r ++ bs

module _ (reader : Reader) (writer : Writer) (aead : Aead) (delivers : Delivers reader)
    (collects : Collects writer) (network : Network reader delivers) where
  -- The two ends of the stream of one direction.
  pub record Pipe : Type 0 where
    pub input : writer.W
    pub output : reader.R

  -- `write_packet`, and its bytes arrive.
  unfoldable pub transmit :
      Outgoing → PacketCodec → Pipe → Result ProtocolError (Unit {0}) × (PacketCodec × Pipe)
  transmit p c pipe =
      let x = send writer aead p (c, pipe.input) in
      (
        x.0,
        (
          x.1.0,
          record {
            input = x.1.1;
            output = network.arrive (appended writer collects pipe.input x.1.1) pipe.output;
          },
        ),
      )

  -- `read_packet` at the other end.
  unfoldable pub collect :
      PacketCodec → Pipe → Result ProtocolError RawPacket × (PacketCodec × Pipe)
  collect d pipe =
      let x = read_packet reader aead (d, pipe.output) in
      (x.0, (x.1.0, record pipe { output = x.1.1 }))

  pub record Link : Type 0 where
    pub client : PacketCodec
    pub server : PacketCodec
    pub to_server : Pipe
    pub to_client : Pipe

  -- The connection that the codecs make.
  unfoldable pub link_step : Event → Link → Seen × Link
  link_step (client_sends p) s =
      let x = transmit p s.client s.to_server in
      (sent x.0, record s { client = x.1.0; to_server = x.1.1 })
  link_step (server_sends p) s =
      let x = transmit p s.server s.to_client in
      (sent x.0, record s { server = x.1.0; to_client = x.1.1 })
  link_step server_receives s =
      let x = collect s.server s.to_server in
      (got x.0, record s { server = x.1.0; to_server = x.1.1 })
  link_step client_receives s =
      let x = collect s.client s.to_client in
      (got x.0, record s { client = x.1.0; to_client = x.1.1 })

-- What is seen of a list of events.
unfoldable pub run : {S : Type 0} → (Event → S → Seen × S) → List Event → S → List Seen
run step [] s = []
run step (e ∷ es) s = (step e s).0 ∷ run step es (step e s).1
