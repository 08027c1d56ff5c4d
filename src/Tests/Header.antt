-- ===== src/Tests/Header.antt =====
-- The header and the packet types at concrete inputs.
use chatix_protocol.Base.{
  ℕ, ◌≡◌, ◌↔◌, refl, arith, List, [], ◌∷◌, ok, err, IsArray, to_be_bytes, from_be_bytes,
}
use chatix_protocol.Error.{payload_too_large, unknown_packet_type}
use chatix_protocol.PacketType.{ping, as_u8, from_u8}
use chatix_protocol.PacketType.Codes.{from_u8_iff}
use chatix_protocol.Header.{PacketHeader, new_header, to_bytes, from_bytes, validate}
use chatix_protocol.Header.Layout.{IsHeader, from_bytes-to_bytes}
use chatix_protocol.Header.Checks.{IsWellFormed, validate_iff}
use chatix_protocol.Header.Inverse.{to_bytes-from_bytes}

abbrev hello : PacketHeader
hello = record {
  magic = 67 ∷ 72 ∷ 84 ∷ 88 ∷ [];
  version = 1;
  packet_type = 1;
  flags = 0;
  header_len = 24;
  payload_len = 258;
  sequence = 7;
  reserved = 0;
}

abbrev hello_bytes : List ℕ
hello_bytes =
    67 ∷ 72 ∷ 84 ∷ 88 ∷ 1 ∷ 1 ∷ 0 ∷ 24 ∷ 0 ∷ 0 ∷ 1 ∷ 2 ∷ 0 ∷ 0 ∷ 0 ∷ 0 ∷ 0 ∷ 0 ∷ 0 ∷ 7 ∷ 0 ∷ 0 ∷ 0
    ∷ 0 ∷ []

new_header_test : new_header 1 0 258 7 ≡ hello
unfolding new_header
new_header_test = refl

to_bytes_test : to_bytes hello ≡ hello_bytes
unfolding to_bytes to_be_bytes
to_bytes_test = refl

from_bytes_test : from_bytes hello_bytes ≡ hello
unfolding from_bytes from_be_bytes
from_bytes_test = refl

-- `from_bytes` and `validate` refuse a payload longer than a mebibyte.
validate_test : validate (new_header 1 0 1048577 7) ≡ err (payload_too_large 1048577 1048576)
unfolding validate new_header
validate_test = refl

from_u8_test : from_u8 9 ≡ err (unknown_packet_type 9)
unfolding from_u8
from_u8_test = refl

hello-IsHeader : IsHeader hello
hello-IsHeader = record {
  magic = record {
    size = refl;
    bytes = (omega arith, (omega arith, (omega arith, (omega arith, tt))));
  };
  version = omega arith;
  packet_type = omega arith;
  flags = omega arith;
  header_len = omega arith;
  payload_len = omega arith;
  sequence = omega arith;
  reserved = omega arith;
}

from_bytes-to_bytes_example : from_bytes (to_bytes hello) ≡ hello
from_bytes-to_bytes_example = from_bytes-to_bytes hello hello-IsHeader

hello_bytes-IsArray : IsArray 24 hello_bytes
hello_bytes-IsArray = record { size = refl; bytes = ground arith }

to_bytes-from_bytes_example :
    (to_bytes (from_bytes hello_bytes) ≡ hello_bytes) × IsHeader (from_bytes hello_bytes)
to_bytes-from_bytes_example = to_bytes-from_bytes hello_bytes hello_bytes-IsArray

validate_iff_example : (validate hello ≡ ok tt) ↔ IsWellFormed hello
validate_iff_example = validate_iff hello

from_u8_iff_example : (from_u8 20 ≡ ok ping) ↔ (as_u8 ping ≡ 20)
from_u8_iff_example = from_u8_iff 20 ping
