-- ===== src/Tests/Authentic.antt =====
-- An attacker on the stream of a codec, at a concrete input: of two packets the first is lost.
use mathlib.Core.List.{Sublistᴰ}
use chatix_protocol.Base.{
  ℕ, zero, suc, ◌%◌, ◌≤◌, ◌≡◌, refl, arith, ◌&&◌, List, [], ◌∷◌, ◌++◌, none, some, ok,
  if◌then◌else◌, length, take, drop, replicate, leb, bytes_eq, bytes_eq_iff, Bool-cases, subst,
  AreBytes, IsArray, All-take, IsByte, from_be_bytes, to_be_bytes, Option, inl, inr,
}
use chatix_protocol.Header.{new_header, from_bytes, validate, is_encrypted}
use chatix_protocol.PacketType.{ping, pong, as_u8, from_u8, max_payload_size}
use chatix_protocol.Codec.{
  PacketCodec, SessionCipher, seq_nonce, header_aad, admit_header, max_for_type, validate_sequence,
  sequence_after,
}
use chatix_protocol.Codec.Interfaces.{Reader, Aead}
use chatix_protocol.Codec.Read.{
  read_packet, read_bytes, read_after_header, check_sequence, read_payload, read_body,
  finish_packet, open_payload,
}
use chatix_protocol.Codec.Sent.{received}
use chatix_protocol.Codec.Nonces.{Outgoing}
use chatix_protocol.Codec.Stream.{receive_all, received_all}
use chatix_protocol.Codec.Authentic.{DeliversBytes, OpensOnlySent, receive_all-Sublist}
use chatix_protocol.Tests.Streams.{take_front}
use chatix_protocol.Tests.Cipher.{bind_key, seal}

-- A reader of bytes: what it holds is cut to bytes.
abbrev wrapped : List ℕ → List ℕ
wrapped [] = []
wrapped (x ∷ xs) = x % 256 ∷ wrapped xs

abbrev octets : Reader
octets = record { R = List ℕ; read_exact = λ r n. (take_front (wrapped r) n, drop n r) }

wrapped-AreBytes : (xs : List ℕ) → AreBytes (wrapped xs)
wrapped-AreBytes [] = tt
wrapped-AreBytes (x ∷ xs) = (omega arith, wrapped-AreBytes xs)

length-take_le : (n : ℕ) (xs : List ℕ) → n ≤ length xs → length (take n xs) ≡ n
length-take_le zero xs h = refl
length-take_le (suc n) [] h = absurd (omega arith)
length-take_le (suc n) (x ∷ xs) h = omega (arith, length-take_le n xs (omega arith))

take_front-IsArray :
    (r : List ℕ) (n : ℕ) {bytes : List ℕ} → AreBytes r → take_front r n ≡ ok bytes → IsArray n bytes
take_front-IsArray r n {bytes} b e = elim (Bool-cases (leb n (length r))) [
  | inl y ↦
      let whole : take n r ≡ bytes = ground arith in
      subst (IsArray n) whole
        (record { size = length-take_le n r (ground arith); bytes = All-take IsByte n r b })
  | inr y ↦ absurd (ground arith)
]

octets-DeliversBytes : DeliversBytes octets
octets-DeliversBytes = record {
  are_bytes = λ r n {bytes} e. take_front-IsArray (wrapped r) n (wrapped-AreBytes r) e;
}

abbrev time : List ℕ
time = 0 ∷ 0 ∷ 0 ∷ 0 ∷ 0 ∷ 0 ∷ 1 ∷ 44 ∷ []

abbrev sealed_time : List ℕ
sealed_time = time ++ replicate 16 0

abbrev lost : Outgoing
lost = record { packet_type = pong; flags = 4; payload = time }

abbrev arrived : Outgoing
arrived = record { packet_type = ping; flags = 0; payload = time }

-- A cipher that opens one sealed text.
unfoldable strict_open : List ℕ → List ℕ → List ℕ → List ℕ → Option (List ℕ)
unfolding bytes_eq
strict_open key nonce aad sealed =
    if bytes_eq nonce (seq_nonce 3) && (bytes_eq aad (20 ∷ 1 ∷ []) && bytes_eq sealed sealed_time)
    then some time
    else none

abbrev strict : Aead
strict = record {
  Key = List ℕ;
  unbound_key = bind_key;
  seal_in_place_append_tag = seal;
  open_in_place = strict_open;
}

abbrev key_bytes : List ℕ
key_bytes = replicate 32 7

abbrev cipher : SessionCipher
cipher = record { outbound_key = key_bytes; inbound_key = key_bytes }

strict-OpensOnlySent : OpensOnlySent octets strict key_bytes 2 (lost ∷ arrived ∷ [])
unfolding strict_open as_u8 header_aad
strict-OpensOnlySent = record {
  open_authentic = λ key nonce aad sealed {text} delivered made e. inr (
      inl (
        ground (arith, bytes_eq_iff nonce (seq_nonce 3)),
        ground (arith, bytes_eq_iff aad (20 ∷ 1 ∷ [])),
        ground arith,
      ));
}

abbrev codec : PacketCodec
codec = record { last_recv_seq = none; next_send_seq = 1; session = some cipher }

abbrev wire : List ℕ
wire =
    67
    ∷ 72
    ∷ 84
    ∷ 88
    ∷ 1
    ∷ 20
    ∷ 1
    ∷ 24
    ∷ 0
    ∷ 0
    ∷ 0
    ∷ 24
    ∷ 0
    ∷ 0
    ∷ 0
    ∷ 0
    ∷ 0
    ∷ 0
    ∷ 0
    ∷ 3
    ∷ 0
    ∷ 0
    ∷ 0
    ∷ 0
    ∷ (sealed_time ++ 5 ∷ [])

wire_read :
    (receive_all octets strict 1 (codec, wire)).0 ≡ ok (received (some cipher) ping 0 3 time ∷ [])
unfolding receive_all read_packet read_bytes read_after_header check_sequence read_payload read_body
    finish_packet open_payload admit_header max_for_type validate_sequence sequence_after from_bytes
    validate is_encrypted from_u8 max_payload_size strict_open bind_key bytes_eq seq_nonce
    header_aad from_be_bytes to_be_bytes new_header as_u8
wire_read = refl

time-le : (length time ≤ max_payload_size ping) × (length time ≤ max_payload_size pong)
unfolding max_payload_size
time-le = (omega arith, omega arith)

receive_all-Sublist_example :
    (length (received (some cipher) ping 0 3 time ∷ []) ≡ 1)
    × Sublistᴰ
        (received (some cipher) ping 0 3 time ∷ [])
        (received_all (some cipher) 2 (lost ∷ arrived ∷ []))
receive_all-Sublist_example =
    receive_all-Sublist octets strict octets-DeliversBytes cipher 2 (lost ∷ arrived ∷ [])
      strict-OpensOnlySent 1 codec wire (omega arith) (time-le.1, (time-le.0, tt)) refl wire_read
