-- ===== src/Header.antt =====
-- src/header.rs: the 24 byte header of a packet.
pub mod Layout
pub mod Checks
pub mod Inverse
use Prim.Native.Nat.{bit_and}
use mathlib.Core.Bool.{not}
use chatix_protocol.Base.{
  ℕ, ◌*◌, Bool, true, false, List, [], ◌∷◌, ◌++◌, Result, ok, err, ltb, ◌==◌, if◌then◌else◌, take,
  drop, get_elem?, bytes_eq, to_be_bytes, from_be_bytes, none, some,
}
use chatix_protocol.Error.{
  ProtocolError, invalid_magic, unsupported_version, invalid_header_length, payload_too_large,
  reserved_field_non_zero,
}

-- `b"CHTX"`
abbrev pub chatix_magic : List ℕ
chatix_magic = b'C' ∷ b'H' ∷ b'T' ∷ b'X' ∷ []

abbrev pub chatix_version : ℕ
chatix_version = 1

abbrev pub chatix_header_len : ℕ
chatix_header_len = 24

abbrev pub chatix_header_size : ℕ
chatix_header_size = chatix_header_len

abbrev pub max_payload_len : ℕ
max_payload_len = 1024 * 1024

-- `flags::ENCRYPTED`
abbrev pub encrypted : ℕ
encrypted = 1

pub record PacketHeader : Type 0 where
  pub magic : List ℕ
  pub version : ℕ
  pub packet_type : ℕ
  pub flags : ℕ
  pub header_len : ℕ
  pub payload_len : ℕ
  pub sequence : ℕ
  pub reserved : ℕ

-- `PacketHeader::new`
unfoldable pub new_header : ℕ → ℕ → ℕ → ℕ → PacketHeader
new_header packet_type flags payload_len sequence = record {
  magic = chatix_magic;
  version = chatix_version;
  packet_type = packet_type;
  flags = flags;
  header_len = chatix_header_len;
  payload_len = payload_len;
  sequence = sequence;
  reserved = 0;
}

-- The copies into `out` fill it from the front to the back, with no gap: each range is as long as the array
-- that is copied into it, which has a fixed size by its type.
unfoldable pub to_bytes : PacketHeader → List ℕ
to_bytes h =
    h.magic
    ++ (h.version
        ∷ h.packet_type
        ∷ h.flags
        ∷ h.header_len
        ∷ (to_be_bytes 4 h.payload_len ++ (to_be_bytes 8 h.sequence ++ to_be_bytes 4 h.reserved)))

-- `bytes[i]` of an array that is long enough by its type.
abbrev byte_at : List ℕ → ℕ → ℕ
byte_at bytes i = elim (get_elem? bytes i) [ none ↦ 0 | some b ↦ b ]

-- The argument is an array of 24 bytes by its type, and the indices are constants within it.
unfoldable pub from_bytes : List ℕ → PacketHeader
from_bytes bytes = record {
  magic = take 4 bytes;
  version = byte_at bytes 4;
  packet_type = byte_at bytes 5;
  flags = byte_at bytes 6;
  header_len = byte_at bytes 7;
  payload_len = from_be_bytes (take 4 (drop 8 bytes));
  sequence = from_be_bytes (take 8 (drop 12 bytes));
  reserved = from_be_bytes (take 4 (drop 20 bytes));
}

unfoldable pub validate : PacketHeader → Result ProtocolError (Unit {0})
unfolding bytes_eq
validate h =
    if not (bytes_eq h.magic chatix_magic)
    then err invalid_magic
    else if not (h.version == chatix_version)
    then err (unsupported_version h.version)
    else if not (h.header_len == chatix_header_len)
    then err invalid_header_length
    else if ltb max_payload_len h.payload_len
    then err (payload_too_large h.payload_len max_payload_len)
    else if not (h.reserved == 0)
    then err reserved_field_non_zero
    else ok tt

unfoldable pub is_encrypted : PacketHeader → Bool
is_encrypted h = not (bit_and h.flags encrypted == 0)
