-- ===== src/Payloads/Ping.antt =====
-- src/payloads/ping_payloads.rs: keepalives.
pub mod Inverse
pub mod RoundTrip
pub mod Total
use mathlib.Core.Bool.{not}
use chatix_protocol.Base.{
  ℕ, List, ok, err, ◌>>=◌, ◌>>◌, ◌==◌, if◌then◌else◌, length, to_be_bytes, from_be_bytes,
}
use chatix_protocol.Error.{IoResult, data_error, data_error_at}
use chatix_protocol.Payloads.Common.{try_into}

pub record PingPayload : Type 0 where
  pub timestamp : ℕ

unfoldable pub encode_ping : PingPayload → List ℕ
encode_ping p = to_be_bytes 8 p.timestamp

unfoldable pub decode_ping : List ℕ → IoResult PingPayload
unfolding try_into
decode_ping bytes = do
  (if not (length bytes == 8)
      then err (data_error_at "invalid ping payload length: expected 8, got " (length bytes))
      else ok tt)
  timestamp ← try_into 8 bytes (data_error "failed to decode ping payload")
  ok (record { timestamp = from_be_bytes timestamp })

pub record PongPayload : Type 0 where
  pub timestamp : ℕ

unfoldable pub encode_pong : PongPayload → List ℕ
encode_pong p = to_be_bytes 8 p.timestamp

unfoldable pub decode_pong : List ℕ → IoResult PongPayload
unfolding try_into
decode_pong bytes = do
  (if not (length bytes == 8)
      then err (data_error_at "invalid pong payload length: expected 8, got " (length bytes))
      else ok tt)
  timestamp ← try_into 8 bytes (data_error "failed to decode pong payload")
  ok (record { timestamp = from_be_bytes timestamp })
