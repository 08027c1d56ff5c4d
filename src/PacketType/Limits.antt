-- ===== src/PacketType/Limits.antt =====
-- The limits on the payload of each packet type.
use chatix_protocol.Base.{◌+◌, ◌*◌, ◌≤◌, arith}
use chatix_protocol.Sizes.{gcm_tag_len}
use chatix_protocol.PacketType.{PacketType, client_hello, max_payload_size}

-- The payload limit of every packet type, with the tag of an encrypted frame, stays within the
-- global limit of a mebibyte.
pub max_payload_size-le : (t : PacketType) → max_payload_size t + gcm_tag_len ≤ 1024 * 1024
unfolding max_payload_size
max_payload_size-le client_hello = omega arith
max_payload_size-le _ = omega arith
