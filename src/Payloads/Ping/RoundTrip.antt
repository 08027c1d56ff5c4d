-- ===== src/Payloads/Ping/RoundTrip.antt =====
-- Keepalives are read back as they were written.
use chatix_protocol.Base.{
  ℕ, ◌<◌, ◌^◌, ◌≡◌, arith, ok, length-to_be_bytes, from_be_bytes-to_be_bytes,
}
use chatix_protocol.Payloads.Common.{try_into}
use chatix_protocol.Payloads.Ping.{encode_ping, decode_ping, encode_pong, decode_pong}

pub decode_ping_lem :
    (n : ℕ)
    → n < 2 ^ 64
    → decode_ping (encode_ping (record { timestamp = n })) ≡ ok (record { timestamp = n })
unfolding encode_ping decode_ping try_into
decode_ping_lem n h = ground (arith, length-to_be_bytes 8 n, from_be_bytes-to_be_bytes 8 n)

pub decode_pong_lem :
    (n : ℕ)
    → n < 2 ^ 64
    → decode_pong (encode_pong (record { timestamp = n })) ≡ ok (record { timestamp = n })
unfolding encode_pong decode_pong try_into
decode_pong_lem n h = ground (arith, length-to_be_bytes 8 n, from_be_bytes-to_be_bytes 8 n)
