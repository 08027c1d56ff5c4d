-- ===== src/Payloads/Ping/Inverse.antt =====
-- The payloads of keepalives: what the decoders accept is what the encoders write.
use chatix_protocol.Base.{ℕ, ◌≡◌, arith, List, ok, AreBytes, length, from_be_bytes}
use chatix_protocol.Payloads.Common.{try_into}
use chatix_protocol.Payloads.Common.Inverse.{from_be_bytes_small, to_be_bytes_inv}
use chatix_protocol.PacketType.{ping, pong}
use chatix_protocol.Payloads.OfType.{IsPayload}
use chatix_protocol.Payloads.Ping.{
  PingPayload, encode_ping, decode_ping, PongPayload, encode_pong, decode_pong,
}

pub decode_ping_inv :
    (bytes : List ℕ) (p : PingPayload)
    → AreBytes bytes
    → decode_ping bytes ≡ ok p
    → IsPayload ping p × (encode_ping p ≡ bytes)
unfolding encode_ping decode_ping IsPayload try_into
decode_ping_inv bytes p h e =
    let size : length bytes ≡ 8 = ground arith in
    let same : p.timestamp ≡ from_be_bytes bytes = ground arith in
    (omega (arith, same, from_be_bytes_small bytes h size), grind (arith, to_be_bytes_inv bytes))

pub decode_pong_inv :
    (bytes : List ℕ) (p : PongPayload)
    → AreBytes bytes
    → decode_pong bytes ≡ ok p
    → IsPayload pong p × (encode_pong p ≡ bytes)
unfolding encode_pong decode_pong IsPayload try_into
decode_pong_inv bytes p h e =
    let size : length bytes ≡ 8 = ground arith in
    let same : p.timestamp ≡ from_be_bytes bytes = ground arith in
    (omega (arith, same, from_be_bytes_small bytes h size), grind (arith, to_be_bytes_inv bytes))
