-- ===== src/Payloads/Ping/Total.antt =====
-- No decoder of the payloads of keepalives panics, whatever the bytes.
use chatix_protocol.Base.{ℕ, ◌≢◌, arith, List, panic, length-drop}
use chatix_protocol.Payloads.Common.{try_into}
use chatix_protocol.Payloads.Ping.{decode_ping, decode_pong}

pub decode_ping-ne-panic : (bytes : List ℕ) → decode_ping bytes ≢ panic
unfolding decode_ping try_into
decode_ping-ne-panic bytes = grind (arith, length-drop)

pub decode_pong-ne-panic : (bytes : List ℕ) → decode_pong bytes ≢ panic
unfolding decode_pong try_into
decode_pong-ne-panic bytes = grind (arith, length-drop)
