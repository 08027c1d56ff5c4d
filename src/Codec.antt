-- ===== src/Codec.antt =====
-- src/codec.rs and src/raw_packet.rs: the codec of one connection, its state and pure parts.
-- `Interfaces` holds what the codec is given: a stream in each direction, and AES-256-GCM.
-- `Action` is the form of a method that changes a state and may fail.
-- `Read` and `Write` model `read_packet` and `write_packet`; the other children prove.
pub mod Interfaces
pub mod Action
pub mod Read
pub mod Write
pub mod Frames
pub mod Sent
pub mod RoundTrip
pub mod Accept
pub mod Security
pub mod Downgrade
pub mod Integrity
pub mod Authentic
pub mod Nonces
pub mod Stream
pub mod Truncated
pub mod Channel
use Prim.Native.Nat.{min}
use mathlib.Core.Bool.{not}
use chatix_protocol.Base.{
  ℕ, ◌+◌, ◌-◌, ◌^◌, Bool, true, false, ◌&&◌, List, [], ◌∷◌, ◌++◌, Option, none, some, Result, ok,
  err, panic, ◌>>=◌, ◌>>◌, ltb, leb, if◌then◌else◌, replicate, to_be_bytes,
}
use chatix_protocol.Error.{
  ProtocolError, encryption_required, payload_too_large, sequence_violation,
}
use chatix_protocol.Sizes.{gcm_tag_len, as_u32}
use chatix_protocol.Header.{PacketHeader, validate, is_encrypted}
use chatix_protocol.PacketType.{from_u8, max_payload_size}

pub record RawPacket : Type 0 where
  pub header : PacketHeader
  pub payload : List ℕ

pub record SessionCipher : Type 0 where
  pub outbound_key : List ℕ
  pub inbound_key : List ℕ

pub record PacketCodec : Type 0 where
  pub last_recv_seq : Option ℕ
  pub next_send_seq : ℕ
  pub session : Option SessionCipher

-- `PacketCodec::new`
unfoldable pub new_codec : PacketCodec
new_codec = record { last_recv_seq = none; next_send_seq = 1; session = none }

unfoldable pub establish_session : PacketCodec → List ℕ → List ℕ → PacketCodec
establish_session codec outbound_key inbound_key = record codec {
  session = some (record { outbound_key = outbound_key; inbound_key = inbound_key });
}

-- `self.session.is_some()`
abbrev pub is_some {ℓ} : {A : Type ℓ} → Option A → Bool
is_some none = false
is_some (some a) = true

-- `a.saturating_add(b)` on `u32`
abbrev pub saturating_add : ℕ → ℕ → ℕ
saturating_add a b = min (a + b) (2 ^ 32 - 1)

-- `max_for_type`: an encrypted frame may be longer by its tag.
unfoldable pub max_for_type : PacketHeader → ℕ → ℕ
max_for_type header limit =
    if is_encrypted header then saturating_add limit (as_u32 gcm_tag_len) else limit

-- The checks of `read_packet` on a header, before it touches the sequence number.
unfoldable pub admit_header : Bool → PacketHeader → Result ProtocolError (Unit {0})
unfolding max_for_type
admit_header session_is_some header = do
  validate header
  (if session_is_some && not (is_encrypted header) then err encryption_required else ok tt)
  packet_type ← from_u8 header.packet_type
  let max = max_for_type header (max_payload_size packet_type)
  if ltb max header.payload_len then err (payload_too_large header.payload_len max) else ok tt

-- The test of `validate_sequence` against the last sequence number received, if there is one.
unfoldable pub sequence_after : Option ℕ → ℕ → Result ProtocolError (Unit {0})
sequence_after none seq = ok tt
sequence_after (some last) seq = if leb seq last then err (sequence_violation seq last) else ok tt

-- The outcome, and the codec after it: it notes the number only if the test passes.
unfoldable pub validate_sequence : PacketCodec → ℕ → Result ProtocolError (Unit {0}) × PacketCodec
validate_sequence codec seq = elim (sequence_after codec.last_recv_seq seq) [
  | ok _ ↦ (ok tt, record codec { last_recv_seq = some seq })
  | err e ↦ (err e, codec)
  | panic ↦ (panic, codec)
]

unfoldable pub seq_nonce : ℕ → List ℕ
seq_nonce seq = replicate 4 0 ++ to_be_bytes 8 seq

unfoldable pub header_aad : ℕ → ℕ → List ℕ
header_aad packet_type flags = packet_type ∷ flags ∷ []
