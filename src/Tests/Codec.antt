-- ===== src/Tests/Codec.antt =====
-- The codec at concrete inputs: a client and a server that share two keys.
use chatix_protocol.Base.{take, drop, ap, Result, take-append-drop, length-drop, length-append}
use chatix_protocol.Error.{ProtocolError, io}
use chatix_protocol.Header.{to_bytes}
use chatix_protocol.Header.Layout.{to_bytes-IsArray}
use chatix_protocol.Codec.{RawPacket}
use chatix_protocol.Codec.RoundTrip.{write_packet-appended}
use chatix_protocol.Codec.Truncated.{read_packet-truncated}
use chatix_protocol.Tests.Streams.{end_of_file}
use chatix_protocol.Base.{
  ℕ, ◌≤◌, ◌<◌, ◌^◌, ◌≡◌, ◌⊎◌, refl, bytes_eq, arith, List, [], ◌∷◌, ◌++◌, none, some, ok, err,
  length, replicate,
}
use chatix_protocol.Error.{crypto_error, sequence_violation, encryption_required}
use chatix_protocol.Header.{PacketHeader}
use chatix_protocol.PacketType.{ping, pong, max_payload_size}
use chatix_protocol.Codec.{PacketCodec, seq_nonce}
use chatix_protocol.Codec.Read.{read_packet}
use chatix_protocol.Codec.Write.{write_packet}
use chatix_protocol.Codec.Sent.{received}
use chatix_protocol.Codec.RoundTrip.{appended, read_packet-write_packet}
use chatix_protocol.Codec.Nonces.{
  Outgoing, send, send_each, write_packet-next_send_seq, send_each-nonce_fresh, sealing_under,
}
use chatix_protocol.Codec.Stream.{send_all, receive_all, received_all, receive_all-send_all}
use chatix_protocol.Codec.Accept.{Advances, read_packet-Advances}
use chatix_protocol.Codec.Security.{IsSealed, read_packet-replay}
use chatix_protocol.Codec.Downgrade.{read_packet-downgrade}
use mathlib.Core.Bool.{not}
use chatix_protocol.Codec.Integrity.{HasReceived, receive_all-IsSealed}
use chatix_protocol.Tests.Streams.{memory, memory-Delivers, buffer, buffer-Collects}
use chatix_protocol.Tests.Cipher.{toy, toy-IsAead, toy-OpensOnlySealed}

abbrev up_key : List ℕ
up_key = replicate 32 7

abbrev down_key : List ℕ
down_key = replicate 32 9

abbrev sender : PacketCodec
sender = record {
  last_recv_seq = none;
  next_send_seq = 3;
  session = some (record { outbound_key = up_key; inbound_key = down_key });
}

abbrev receiver : PacketCodec
receiver = record {
  last_recv_seq = some 2;
  next_send_seq = 1;
  session = some (record { outbound_key = down_key; inbound_key = up_key });
}

-- A `Ping`, as it is sent and as it lies on the stream, with a byte behind it.
abbrev time : List ℕ
time = 0 ∷ 0 ∷ 0 ∷ 0 ∷ 0 ∷ 0 ∷ 1 ∷ 44 ∷ []

abbrev wire : List ℕ
wire =
    appended buffer buffer-Collects [] (write_packet buffer toy ping 0 time (sender, [])).1.1
    ++ 5 ∷ []

time-le : length time ≤ max_payload_size ping
unfolding max_payload_size
time-le = omega arith

read_packet-write_packet_example :
    ((write_packet buffer toy ping 0 time (sender, [])).0 ≡ ok tt)
    × ((write_packet buffer toy ping 0 time (sender, [])).1.0 ≡ record sender { next_send_seq = 4 })
    × ((read_packet memory toy (receiver, wire)).0 ≡ ok (received sender.session ping 0 3 time))
    × ((read_packet memory toy (receiver, wire)).1.0 ≡ record receiver { last_recv_seq = some 3 })
    × ((read_packet memory toy (receiver, wire)).1.1 ≡ 5 ∷ [])
read_packet-write_packet_example =
    read_packet-write_packet memory buffer toy memory-Delivers buffer-Collects toy-IsAead sender
      receiver [] wire ping 0 time (5 ∷ []) (omega arith) (refl, refl) (omega arith) (omega arith)
      time-le refl

-- Two packets in a row.
abbrev ask : Outgoing
ask = record { packet_type = ping; flags = 0; payload = time }

abbrev answer : Outgoing
answer = record { packet_type = pong; flags = 4; payload = time }

pong-le : length time ≤ max_payload_size pong
unfolding max_payload_size
pong-le = omega arith

abbrev long_wire : List ℕ
long_wire =
    appended buffer buffer-Collects [] (send_all buffer toy (ask ∷ answer ∷ []) (sender, [])).1.1
    ++ 5 ∷ []

receive_all-send_all_example :
    ((send_all buffer toy (ask ∷ answer ∷ []) (sender, [])).0 ≡ ok tt)
    × ((receive_all memory toy 2 (receiver, long_wire)).0
        ≡ ok (received_all sender.session 3 (ask ∷ answer ∷ [])))
    × ((receive_all memory toy 2 (receiver, long_wire)).1.1 ≡ 5 ∷ [])
receive_all-send_all_example =
    receive_all-send_all memory buffer toy memory-Delivers buffer-Collects toy-IsAead
      (ask ∷ answer ∷ []) sender receiver [] long_wire (5 ∷ []) (omega arith) (refl, refl)
      (omega arith) ((omega arith, time-le), ((omega arith, pong-le), tt)) refl

read_packet-Advances_example : Advances receiver (read_packet memory toy (receiver, wire)).1.0
read_packet-Advances_example = read_packet-Advances memory toy receiver wire

write_packet-next_send_seq_example :
    ((2 ^ 64 ≤ 4) × (send buffer toy ask (sender, []) ≡ (err crypto_error, (sender, []))))
    ⊎ ((4 < 2 ^ 64)
        × ((send buffer toy ask (sender, [])).1.0 ≡ record sender { next_send_seq = 4 }))
write_packet-next_send_seq_example = write_packet-next_send_seq buffer toy sender [] ask

send_each-nonce_fresh_example :
    (send buffer (sealing_under (λ n. bytes_eq n (seq_nonce 3)) toy) ask (sender, [])
      ≡ send buffer toy ask (sender, []))
    × (let s = (send buffer toy ask (sender, [])).1 in
        send_each buffer (sealing_under (λ n. not (bytes_eq n (seq_nonce 3))) toy) (answer ∷ []) s
        ≡ send_each buffer toy (answer ∷ []) s)
send_each-nonce_fresh_example =
    send_each-nonce_fresh buffer toy sender [] ask (answer ∷ []) (omega arith)

ping_arrives :
    (read_packet memory toy (receiver, wire)).0 ≡ ok (received sender.session ping 0 3 time)
ping_arrives =
    let (_, _, got, _, _) =
      read_packet-write_packet memory buffer toy memory-Delivers buffer-Collects toy-IsAead sender
        receiver [] wire ping 0 time (5 ∷ []) (omega arith) (refl, refl) (omega arith) (omega arith)
        time-le refl in
    got

abbrev got : PacketHeader
got = (received sender.session ping 0 3 time).header

receive_all-IsSealed_example :
    HasReceived memory toy
      (IsSealed memory toy up_key)
      (receiver, long_wire)
      2
      (received_all sender.session 3 (ask ∷ answer ∷ []))
      (receive_all memory toy 2 (receiver, long_wire)).1.0
receive_all-IsSealed_example =
    receive_all-IsSealed memory toy toy-OpensOnlySealed 2 receiver long_wire
      (record { outbound_key = down_key; inbound_key = up_key }) refl receive_all-send_all_example.1

read_packet-replay_example :
    (read_packet memory toy ((read_packet memory toy (receiver, wire)).1.0, wire)).0
    ≡ err (sequence_violation got.sequence got.sequence)
read_packet-replay_example = read_packet-replay memory toy receiver wire wire ping_arrives refl

-- The same `Ping`, sent by a side that has no session.
abbrev clear_sender : PacketCodec
clear_sender = record { last_recv_seq = none; next_send_seq = 3; session = none }

abbrev clear_wire : List ℕ
clear_wire =
    appended buffer buffer-Collects [] (write_packet buffer toy ping 0 time (clear_sender, [])).1.1
    ++ 5 ∷ []

read_packet-downgrade_example :
    ((write_packet buffer toy ping 0 time (clear_sender, [])).0 ≡ ok tt)
    × ((read_packet memory toy (receiver, clear_wire)).0 ≡ err encryption_required)
    × ((read_packet memory toy (receiver, clear_wire)).1.0 ≡ receiver)
    × ((read_packet memory toy (receiver, clear_wire)).1.1 ≡ time ++ 5 ∷ [])
read_packet-downgrade_example =
    read_packet-downgrade memory buffer toy memory-Delivers buffer-Collects clear_sender receiver []
      clear_wire (record { outbound_key = down_key; inbound_key = up_key }) ping 0 time (5 ∷ [])
      (omega arith) refl refl (omega arith, refl) time-le refl

-- The stream ends after ten bytes of the frame.
abbrev frame : List ℕ
frame = appended buffer buffer-Collects [] (write_packet buffer toy ping 0 time (sender, [])).1.1

frame_size : 24 ≤ length frame
frame_size =
    let (_, _, header-IsHeader, shape) =
      write_packet-appended buffer buffer-Collects toy toy-IsAead sender receiver [] ping 0 time
        (omega arith) (refl, refl) (omega arith) time-le in
    omega (
      arith,
      ap length shape,
      length-append (to_bytes _) _,
      (to_bytes-IsArray _ header-IsHeader).size,
    )

abbrev read_packet_at_end : Result ProtocolError RawPacket × (PacketCodec × List ℕ)
read_packet_at_end = read_packet memory toy (receiver, take 10 frame)

read_packet-truncated_example :
    (read_packet_at_end.0 ≡ err (io end_of_file))
    × (((length (take 10 frame) < 24) × (read_packet_at_end.1.0 ≡ receiver))
        ⊎ ((24 ≤ length (take 10 frame))
            × (read_packet_at_end.1.0 ≡ record receiver { last_recv_seq = some 3 })))
read_packet-truncated_example =
    read_packet-truncated memory buffer toy memory-Delivers buffer-Collects toy-IsAead sender
      receiver [] (take 10 frame) ping 0 time (drop 10 frame) (omega arith) (refl, refl)
      (omega arith) (omega arith) time-le (omega (arith, length-drop 10 frame, frame_size))
      (take-append-drop 10 frame)
