-- ===== src/PacketType/Codes.antt =====
-- The codes of the packet types: `as_u8` and `from_u8` are inverse to one another.
use chatix_protocol.Base.{ℕ, ◌<◌, ◌≡◌, ◌↔◌, refl, sym, ap, ◌∙◌, ok, err, arith}
use chatix_protocol.Error.{ProtocolError, unknown_packet_type}
use chatix_protocol.PacketType.{PacketType, client_hello, as_u8, from_u8}

pub from_u8-as_u8 : (t : PacketType) → from_u8 (as_u8 t) ≡ ok t
unfolding from_u8 as_u8
from_u8-as_u8 client_hello = refl
from_u8-as_u8 _ = refl

pub as_u8-from_u8 : (v : ℕ) {t : PacketType} → from_u8 v ≡ ok t → as_u8 t ≡ v
unfolding from_u8 as_u8
as_u8-from_u8 v h = ground arith

-- `from_u8` reads a number as a packet type exactly when it is the code that `as_u8` gives this
-- type.
pub from_u8_iff : (v : ℕ) (t : PacketType) → (from_u8 v ≡ ok t) ↔ (as_u8 t ≡ v)
from_u8_iff v t = (λ h. as_u8-from_u8 v h, λ e. ap from_u8 (sym e) ∙ from_u8-as_u8 t)

pub from_u8-err : (v : ℕ) {e : ProtocolError} → from_u8 v ≡ err e → e ≡ unknown_packet_type v
unfolding from_u8
from_u8-err v h = ground arith

pub as_u8-lt : (t : PacketType) → as_u8 t < 256
unfolding as_u8
as_u8-lt client_hello = omega arith
as_u8-lt _ = omega arith
