-- ===== src/Tests/Channel.antt =====
-- The connection of two codecs at concrete events.
use chatix_protocol.Base.{
  ℕ, ◌≤◌, ◌≡◌, refl, arith, List, [], ◌∷◌, ◌++◌, none, some, ok, err, All, replicate, length,
  to_be_bytes,
}
use chatix_protocol.Error.{io}
use chatix_protocol.PacketType.{from_u8, ping, pong, max_payload_size}
use chatix_protocol.Codec.{PacketCodec, RawPacket, new_codec}
use chatix_protocol.Codec.Sent.{IsNew, received}
use chatix_protocol.Codec.RoundTrip.{appended}
use chatix_protocol.Codec.Read.{read_packet}
use chatix_protocol.Codec.Write.{write_packet}
use chatix_protocol.Payloads.Ping.{PingPayload, encode_ping}
use chatix_protocol.Payloads.OfType.{encode_payload, decode_payload, IsPayload}
use chatix_protocol.Payloads.OfType.Limits.{Fits}
use chatix_protocol.Payloads.OfType.Delivered.{decode_payload-read_packet}
use chatix_protocol.Codec.Nonces.{Outgoing}
use chatix_protocol.Codec.Channel.{
  Event, client_sends, server_sends, client_receives, server_receives, sent, got, Queues,
  queues_step, Network, Link, link_step, run, enqueue, dequeue,
}
use chatix_protocol.Codec.Channel.Refinement.{MayDo, run_refines_queues}
use chatix_protocol.Crypto.Session.{
  SessionKeys, ClientHandshakeState, ServerHandshakeState, generate, respond, derive_session_keys,
}
use chatix_protocol.Crypto.Session.Secured.{SendsSendable, secured, exchange_refines_queues}
use chatix_protocol.Tests.Streams.{end_of_file, memory, memory-Delivers, buffer, buffer-Collects}
use chatix_protocol.Tests.Cipher.{toy, toy-IsAead}
use chatix_protocol.Tests.Primitives.{
  toy_dh, toy_dh-IsX25519, toy_kem, toy_kem-IsMlKem, toy_hkdf, toy_hkdf-IsHkdf,
}

-- Bytes that arrive are added to those in memory.
abbrev pub wire : Network memory memory-Delivers
wire = record { arrive = λ bs r. r ++ bs; pending_arrive = λ bs r. refl }

abbrev LinkOf : Type 0
LinkOf = Link memory buffer toy memory-Delivers buffer-Collects wire

abbrev client_codec : PacketCodec
client_codec = record {
  last_recv_seq = none;
  next_send_seq = 3;
  session = some (record { outbound_key = replicate 32 7; inbound_key = replicate 32 9 });
}

abbrev server_codec : PacketCodec
server_codec = record {
  last_recv_seq = some 2;
  next_send_seq = 1;
  session = some (record { outbound_key = replicate 32 9; inbound_key = replicate 32 7 });
}

abbrev link : LinkOf
link = record {
  client = client_codec;
  server = server_codec;
  to_server = record { input = []; output = [] };
  to_client = record { input = 4 ∷ []; output = [] };
}

abbrev time : List ℕ
time = 0 ∷ 0 ∷ 0 ∷ 0 ∷ 0 ∷ 0 ∷ 1 ∷ 44 ∷ []

abbrev ask : Outgoing
ask = record { packet_type = ping; flags = 0; payload = time }

abbrev answer : Outgoing
answer = record { packet_type = pong; flags = 4; payload = time }

time-le : (length time ≤ max_payload_size ping) × (length time ≤ max_payload_size pong)
unfolding max_payload_size
time-le = (omega arith, omega arith)

-- The server receives one of two pings, answers, and the client reads once too often.
abbrev events : List Event
events =
    client_sends ask
    ∷ client_sends ask
    ∷ server_receives
    ∷ server_sends answer
    ∷ client_receives
    ∷ client_receives
    ∷ []

abbrev queues : Queues
queues = record {
  to_server = record { next_number = 3; under_way = [] };
  to_client = record { next_number = 1; under_way = [] };
}

queues_test :
    run (queues_step client_codec.session server_codec.session end_of_file) events queues
    ≡ sent (ok tt)
      ∷ sent (ok tt)
      ∷ got (ok (received client_codec.session ping 0 3 time))
      ∷ sent (ok tt)
      ∷ got (ok (received server_codec.session pong 4 1 time))
      ∷ got (err (io end_of_file))
      ∷ []
unfolding run queues_step enqueue dequeue
queues_test = refl

events-may : All (MayDo client_codec.session server_codec.session) events
events-may = (
  (omega arith, time-le.0),
  ((omega arith, time-le.0), (tt, ((omega arith, time-le.1), (tt, (tt, tt))))),
)

run_refines_queues_example :
    run (link_step memory buffer toy memory-Delivers buffer-Collects wire) events link
    ≡ run (queues_step client_codec.session server_codec.session end_of_file) events queues
run_refines_queues_example =
    run_refines_queues memory buffer toy memory-Delivers buffer-Collects wire toy-IsAead link events
      (refl, refl) (refl, refl) (omega arith) tt refl refl events-may

-- A connection before the exchange.
abbrev new_link : LinkOf
new_link = record {
  client = new_codec;
  server = new_codec;
  to_server = record { input = []; output = [] };
  to_client = record { input = []; output = [] };
}

abbrev new_queues : Queues
new_queues = record {
  to_server = record { next_number = new_codec.next_send_seq; under_way = [] };
  to_client = record { next_number = new_codec.next_send_seq; under_way = [] };
}

abbrev secured_new : SessionKeys → SessionKeys → LinkOf
secured_new = secured memory buffer toy memory-Delivers buffer-Collects wire new_link

events-sendable : All SendsSendable events
events-sendable = (
  (omega arith, time-le.0),
  ((omega arith, time-le.0), (tt, ((omega arith, time-le.1), (tt, (tt, tt))))),
)

fresh_numbers : IsNew new_codec.last_recv_seq new_codec.next_send_seq
unfolding new_codec
fresh_numbers = tt

exchange_refines_queues_example :
    (client : ClientHandshakeState toy_dh toy_kem) × (server : ServerHandshakeState)
    × (keys : SessionKeys) × (generate toy_dh toy_kem 3 (7 ∷ []) ≡ ok client)
    × (respond toy_dh toy_kem toy_hkdf 5 (9 ∷ []) client.x25519_public client.ml_kem_ek ≡ ok server)
    × (derive_session_keys toy_dh toy_kem toy_hkdf client server.x25519_public
          server.ml_kem_ciphertext
        ≡ ok keys)
    × (let s = secured_new keys server.session_keys in
        run (link_step memory buffer toy memory-Delivers buffer-Collects wire) events s
        ≡ run (queues_step s.client.session s.server.session end_of_file) events new_queues)
exchange_refines_queues_example =
    exchange_refines_queues toy_dh toy_kem toy_hkdf toy_dh-IsX25519 toy_kem-IsMlKem toy_hkdf-IsHkdf
      memory buffer toy memory-Delivers buffer-Collects wire toy-IsAead new_link 3 5 (7 ∷ [])
      (9 ∷ []) events fresh_numbers fresh_numbers refl refl events-sendable

-- A `Ping` payload inside a packet.
abbrev ping_payload : PingPayload
ping_payload = record { timestamp = 300 }

ping_payload-IsPayload : IsPayload ping ping_payload × Fits ping ping_payload
unfolding IsPayload Fits
ping_payload-IsPayload = (omega arith, tt)

ping_payload_encoded : encode_payload ping ping_payload ≡ ok time
unfolding encode_payload encode_ping to_be_bytes
ping_payload_encoded = refl

abbrev ping_wire : List ℕ
ping_wire =
    appended buffer buffer-Collects [] (write_packet buffer toy ping 0 time (client_codec, [])).1.1
    ++ 5 ∷ []

decode_payload-read_packet_example :
    ((write_packet buffer toy ping 0 time (client_codec, [])).0 ≡ ok tt)
    × (packet : RawPacket) × ((read_packet memory toy (server_codec, ping_wire)).0 ≡ ok packet)
    × (from_u8 packet.header.packet_type ≡ ok ping)
    × (decode_payload ping packet.payload ≡ ok ping_payload)
decode_payload-read_packet_example =
    decode_payload-read_packet memory buffer toy memory-Delivers buffer-Collects toy-IsAead
      client_codec server_codec [] ping_wire ping ping_payload 0 time (5 ∷ []) (omega arith)
      (refl, refl) (omega arith) (omega arith) ping_payload-IsPayload.0 ping_payload-IsPayload.1
      ping_payload_encoded refl
