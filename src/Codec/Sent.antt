-- ===== src/Codec/Sent.antt =====
-- The frame that `write_packet` sends passes the checks of `read_packet` and opens again.
use Prim.Native.Nat.{bit_and, bit_or}
use chatix_protocol.Base.{
  ℕ, ◌+◌, ◌≤◌, ◌<◌, ◌^◌, ◌≡◌, refl, subst, arith, Bool, true, false, List, Option, none, some, ok,
  length, IsByte, if◌then◌else◌,
}
use chatix_protocol.Sizes.{gcm_tag_len}
use chatix_protocol.Header.{new_header, encrypted, is_encrypted}
use chatix_protocol.Header.Layout.{IsHeader}
use chatix_protocol.Header.Checks.{IsWellFormed, IsWellFormed-validate, set_encrypted}
use chatix_protocol.PacketType.{PacketType, as_u8, max_payload_size}
use chatix_protocol.PacketType.Codes.{from_u8-as_u8, as_u8-lt}
use chatix_protocol.PacketType.Limits.{max_payload_size-le}
use chatix_protocol.Codec.{
  SessionCipher, RawPacket, is_some, admit_header, sequence_after, header_aad, seq_nonce,
}
use chatix_protocol.Codec.Interfaces.{Aead, IsAead}
use chatix_protocol.Codec.Read.{open_payload, finish_packet}
use chatix_protocol.Codec.Write.{Frame, seal_payload}

-- The two ends of a direction: both in the clear, or with one 32 byte key.
abbrev pub Agree : Option SessionCipher → Option SessionCipher → Type 0
Agree none none = Unit
Agree none (some d) = ⊥
Agree (some c) none = ⊥
Agree (some c) (some d) = (c.outbound_key ≡ d.inbound_key) × (length c.outbound_key ≡ 32)

-- A sequence number that a codec has yet to see.
abbrev pub IsNew : Option ℕ → ℕ → Type 0
IsNew none seq = Unit
IsNew (some last) seq = last < seq

-- A caller that has no session leaves `ENCRYPTED` unset.
abbrev pub MayFlag : Option SessionCipher → ℕ → Type 0
MayFlag none flags = IsByte flags × (bit_and flags encrypted ≡ 0)
MayFlag (some c) flags = IsByte flags

-- The flags that go on the wire.
abbrev pub sent_flags : Option SessionCipher → ℕ → ℕ
sent_flags none flags = flags
sent_flags (some c) flags = bit_or flags encrypted

pub IsNew-sequence_after :
    (last : Option ℕ) (seq : ℕ) → IsNew last seq → sequence_after last seq ≡ ok tt
unfolding sequence_after
IsNew-sequence_after none seq h = refl
IsNew-sequence_after (some last) seq h = ground arith

pub new_header-IsWellFormed :
    (t : PacketType) (flags n seq : ℕ)
    → n ≤ max_payload_size t + gcm_tag_len
    → IsWellFormed (new_header (as_u8 t) flags n seq)
unfolding new_header
new_header-IsWellFormed t flags n seq h = record {
  magic = refl;
  version = refl;
  header_len = refl;
  payload_len = omega (arith, max_payload_size-le t);
  reserved = refl;
}

-- A header that `write_packet` makes passes the checks of `read_packet`, with or without a session.
pub new_header-admitted :
    (t : PacketType) (flags n seq : ℕ) (session_is_some : Bool)
    → is_encrypted (new_header (as_u8 t) flags n seq) ≡ session_is_some
    → n ≤ max_payload_size t + (if session_is_some then gcm_tag_len else 0)
    → admit_header session_is_some (new_header (as_u8 t) flags n seq) ≡ ok tt
unfolding admit_header new_header
new_header-admitted t flags n seq true e h = ground (
  arith,
  IsWellFormed-validate _ (new_header-IsWellFormed t flags n seq (omega arith)),
  from_u8-as_u8 t,
  max_payload_size-le t,
)
new_header-admitted t flags n seq false e h = ground (
  arith,
  IsWellFormed-validate _ (new_header-IsWellFormed t flags n seq (omega arith)),
  from_u8-as_u8 t,
)

pub new_header-IsHeader :
    (t : PacketType) (flags n seq : ℕ)
    → IsByte flags
    → n < 2 ^ 32
    → seq < 2 ^ 64
    → IsHeader (new_header (as_u8 t) flags n seq)
unfolding new_header
new_header-IsHeader t flags n seq hf hn hs = record {
  magic = omega arith;
  version = omega arith;
  packet_type = as_u8-lt t;
  flags = hf;
  header_len = omega arith;
  payload_len = hn;
  sequence = hs;
  reserved = omega arith;
}

-- The packet that the receiver is handed.
abbrev pub received : Option SessionCipher → PacketType → ℕ → ℕ → List ℕ → RawPacket
received session t flags seq payload = record {
  header = new_header (as_u8 t) (sent_flags session flags) (length payload) seq;
  payload = payload;
}

module _ (aead : Aead) (is_aead : IsAead aead) where
  open is_aead use {key_ok, seal_ok, length_seal, open_seal}

  -- Sealing succeeds; the frame passes the receiver's checks, and opens to what was sealed.
  pub record IsSent (c d : Option SessionCipher) (t : PacketType) (seq flags : ℕ) (payload : List ℕ)
      (frame : Frame) : Type 0 where
    pub sealed : seal_payload aead c t seq flags payload ≡ ok frame
    pub flagged : IsByte frame.flags
    pub sized : length frame.payload ≤ max_payload_size t + gcm_tag_len
    pub admitted :
        admit_header (is_some d) (new_header (as_u8 t) frame.flags (length frame.payload) seq)
        ≡ ok tt
    pub opened :
        finish_packet aead d
          (new_header (as_u8 t) frame.flags (length frame.payload) seq)
          frame.payload
        ≡ ok (received c t flags seq payload)

  pub seal_payload-IsSent :
      (c d : Option SessionCipher) (t : PacketType) (seq flags : ℕ) (payload : List ℕ)
      → Agree c d
      → MayFlag c flags
      → length payload ≤ max_payload_size t
      → (frame : Frame) × IsSent c d t seq flags payload frame
  unfolding seal_payload finish_packet open_payload is_encrypted new_header
  seal_payload-IsSent none none t seq flags payload agree may h = (
    record { flags = flags; payload = payload },
    record {
      sealed = refl;
      flagged = may.0;
      sized = omega arith;
      admitted =
          new_header-admitted t flags (length payload) seq false (ground (arith, may.1))
            (omega arith);
      opened = ground (arith, may.1);
    },
  )
  seal_payload-IsSent none (some d) t seq flags payload agree may h = absurd agree
  seal_payload-IsSent (some c) none t seq flags payload agree may h = absurd agree
  seal_payload-IsSent (some c) (some d) t seq flags payload (same, len) may h =
      let f = bit_or flags encrypted in
      let (key, made) = key_ok c.outbound_key len in
      let nonce = seq_nonce seq in
      let aad = header_aad (as_u8 t) f in
      let (bytes, sealing) = seal_ok key nonce aad payload (omega (arith, max_payload_size-le t)) in
      (
        record { flags = f; payload = bytes },
        record {
          sealed = ground (arith, made, sealing);
          flagged = (set_encrypted flags may).1;
          sized = omega (arith, length_seal key nonce aad payload sealing);
          admitted =
              new_header-admitted t f (length bytes) seq true
                (ground (arith, (set_encrypted flags may).0))
                (omega (arith, length_seal key nonce aad payload sealing));
          opened = ground (
            arith,
            subst (λ (k : List ℕ). aead.unbound_key k ≡ some key) same made,
            (set_encrypted flags may).0,
            open_seal key nonce aad payload sealing,
            max_payload_size-le t,
          );
        },
      )
