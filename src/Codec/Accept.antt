-- ===== src/Codec/Accept.antt =====
-- What has happened when `read_packet` returns a packet, and what it may change when it does not.
use chatix_protocol.Base.{
  ℕ, ◌<◌, ◌≡◌, refl, subst, sym, ap, ◌∙◌, arith, Bool-cases, inl, inr, ltb, List, [], ◌⊎◌, Option,
  none, some, Result, Result-cases, ok, err, panic,
}
use chatix_protocol.Error.{ProtocolError, IoResult, from_io}
use chatix_protocol.Header.{PacketHeader, from_bytes, chatix_header_size}
use chatix_protocol.Codec.{
  PacketCodec, RawPacket, is_some, admit_header, sequence_after, validate_sequence,
}
use chatix_protocol.Codec.Interfaces.{Reader, Aead}
use chatix_protocol.Codec.Action.{Action, next}
use chatix_protocol.Codec.Read.{
  finish_packet, read_body, read_payload, read_after_header, read_packet, read_bytes,
  check_sequence,
}
use chatix_protocol.Codec.Sent.{IsNew}

-- Inversion of a step that succeeded.
pub next-ok :
    {S A B : Type 0} (x : Result ProtocolError A × S) (f : A → Action S B) {b : B}
    → (next x f).0 ≡ ok b
    → (a : A) × (x.0 ≡ ok a) × ((f a x.1).0 ≡ ok b) × (next x f ≡ f a x.1)
next-ok (ok a, s) f h = (a, refl, h, refl)
next-ok (err e, s) f h = cc
next-ok (panic, s) f h = cc

-- The state after a step that may have stopped.
next_keeps :
    {S A B : Type 0} (P : S → Type 0) (x : Result ProtocolError A × S) (f : A → Action S B)
    → P x.1
    → ((a : A) → x.0 ≡ ok a → P (f a x.1).1)
    → P (next x f).1
next_keeps P (ok a, s) f h k = k a refl
next_keeps P (err e, s) f h k = h
next_keeps P (panic, s) f h k = h

sequence_after-IsNew :
    (last : Option ℕ) (seq : ℕ) → sequence_after last seq ≡ ok tt → IsNew last seq
unfolding sequence_after
sequence_after-IsNew none seq h = tt
sequence_after-IsNew (some last) seq h = ground arith

validate_sequence-ok :
    (d : PacketCodec) (seq : ℕ)
    → (validate_sequence d seq).0 ≡ ok tt
    → (sequence_after d.last_recv_seq seq ≡ ok tt)
      × (validate_sequence d seq ≡ (ok tt, record d { last_recv_seq = some seq }))
unfolding validate_sequence
validate_sequence-ok d seq h = ground arith

from_io-ok : {x : IoResult (List ℕ)} {bs : List ℕ} → from_io x ≡ ok bs → x ≡ ok bs
from_io-ok h = ground arith

-- The bytes that come next on a stream, so many of them: for none, it is not read.
abbrev pub IsNext : (reader : Reader) → reader.R → ℕ → List ℕ → Type 0
IsNext reader r n bytes =
    ((n ≡ 0) × (bytes ≡ [])) ⊎ ((0 < n) × ((reader.read_exact r n).0 ≡ ok bytes))

-- What a call may have done to the codec, whatever its outcome: nothing, or noted a sequence number
-- that is later than all before.
pub data Advances (d : PacketCodec) : PacketCodec → Type 0 where
  unchanged : Advances d d
  noted : (seq : ℕ) → IsNew d.last_recv_seq seq → Advances d (record d { last_recv_seq = some seq })

validate_sequence-Advances : (d : PacketCodec) (seq : ℕ) → Advances d (validate_sequence d seq).1
unfolding validate_sequence
validate_sequence-Advances d seq = elim (Result-cases (sequence_after d.last_recv_seq seq)) [
  | inl (a, e) ↦ rw (e, validate_sequence) (noted seq (sequence_after-IsNew d.last_recv_seq seq e))
  | inr (inl (x, e)) ↦ rw (e, validate_sequence) unchanged
  | inr (inr e) ↦ rw (e, validate_sequence) unchanged
]

module _ (reader : Reader) (aead : Aead) where
  open reader use {R, read_exact}

  -- A packet that was returned: the bytes of its header and payload, and the checks that they passed.
  pub record Accepted (d : PacketCodec) (r : R) (p : RawPacket) : Type 0 where
    pub header_bytes : List ℕ
    pub payload : List ℕ
    pub header_read : (read_exact r chatix_header_size).0 ≡ ok header_bytes
    pub payload_read :
        IsNext reader
          (read_exact r chatix_header_size).1
          (from_bytes header_bytes).payload_len
          payload
    pub admitted : admit_header (is_some d.session) (from_bytes header_bytes) ≡ ok tt
    pub in_order : IsNew d.last_recv_seq (from_bytes header_bytes).sequence
    pub finished : finish_packet aead d.session (from_bytes header_bytes) payload ≡ ok p
    pub codec_after :
        (read_packet reader aead (d, r)).1.0
        ≡ record d { last_recv_seq = some (from_bytes header_bytes).sequence }

  read_body-keeps : (d : PacketCodec) (r : R) (n : ℕ) → (read_body reader aead n (d, r)).1.0 ≡ d
  unfolding read_body
  read_body-keeps d r n = elim (Bool-cases (ltb 0 n)) [ inl y ↦ rw y | inr y ↦ rw y ]

  read_payload-keeps :
      (d : PacketCodec) (r : R) (header : PacketHeader)
      → (read_payload reader aead header (d, r)).1.0 ≡ d
  unfolding read_payload
  read_payload-keeps d r header =
      next_keeps (λ s. s.0 ≡ d) (read_body reader aead header.payload_len (d, r)) _
        (read_body-keeps d r header.payload_len) (λ a _. read_body-keeps d r header.payload_len)

  read_body-IsNext :
      (d : PacketCodec) (r : R) (n : ℕ) {payload : List ℕ}
      → (read_body reader aead n (d, r)).0 ≡ ok payload
      → IsNext reader r n payload
  unfolding read_body read_bytes
  read_body-IsNext d r n h = elim (Bool-cases (ltb 0 n)) [
    | inl y ↦ inr (ground arith, from_io-ok (rw y at h))
    | inr y ↦ inl (ground arith, ground arith)
  ]

  read_payload-finished :
      (d : PacketCodec) (r : R) (header : PacketHeader) {p : RawPacket}
      → (read_payload reader aead header (d, r)).0 ≡ ok p
      → (payload : List ℕ) × IsNext reader r header.payload_len payload
        × (finish_packet aead d.session header payload ≡ ok p)
  unfolding read_payload
  read_payload-finished d r header {p} h =
      let (payload, got, done, _) = next-ok (read_body reader aead header.payload_len (d, r)) _ h in
      (
        payload,
        read_body-IsNext d r header.payload_len got,
        subst (λ k. finish_packet aead k.session header payload ≡ ok p)
            (read_body-keeps d r header.payload_len) done,
      )

  check_sequence-ok :
      (d : PacketCodec) (r : R) (seq : ℕ)
      → (check_sequence reader aead seq (d, r)).0 ≡ ok tt
      → IsNew d.last_recv_seq seq
        × (check_sequence reader aead seq (d, r)
            ≡ (ok tt, (record d { last_recv_seq = some seq }, r)))
  unfolding check_sequence
  check_sequence-ok d r seq h = (
    sequence_after-IsNew d.last_recv_seq seq (validate_sequence-ok d seq h).0,
    rw ((validate_sequence-ok d seq h).1),
  )

  read_after_header-ok :
      (d : PacketCodec) (r : R) (header : PacketHeader) {p : RawPacket}
      → (read_after_header reader aead header (d, r)).0 ≡ ok p
      → (payload : List ℕ) × IsNext reader r header.payload_len payload
        × (admit_header (is_some d.session) header ≡ ok tt)
        × IsNew d.last_recv_seq header.sequence
        × (finish_packet aead d.session header payload ≡ ok p)
        × ((read_after_header reader aead header (d, r)).1.0
            ≡ record d { last_recv_seq = some header.sequence })
  unfolding read_after_header
  read_after_header-ok d r header h =
      let d' : PacketCodec = record d { last_recv_seq = some header.sequence } in
      let (_, adm, h₁, q₁) = next-ok (admit_header (is_some d.session) header, (d, r)) _ h in
      let (_, seq, h₂, q₂) = next-ok (check_sequence reader aead header.sequence (d, r)) _ h₁ in
      let (new, passed) = check_sequence-ok d r header.sequence seq in
      let (payload, delivered, done) = read_payload-finished d' r header (rw passed at h₂) in
      (
        payload,
        delivered,
        adm,
        new,
        done,
        ap (λ x. x.1.0) (q₁ ∙ q₂) ∙ rw passed (read_payload-keeps d' r header),
      )

  pub read_packet-Accepted :
      (d : PacketCodec) (r : R) {p : RawPacket}
      → (read_packet reader aead (d, r)).0 ≡ ok p
      → Accepted d r p
  unfolding read_packet
  read_packet-Accepted d r h =
      let (hb, e, h₁, q) =
        next-ok (read_bytes reader aead chatix_header_size (d, r))
          (λ b. read_after_header reader aead (from_bytes b)) h in
      let (payload, delivered, adm, new, done, after) =
        read_after_header-ok d (read_exact r chatix_header_size).1 (from_bytes hb) h₁ in
      record {
        header_bytes = hb;
        payload = payload;
        header_read = from_io-ok e;
        payload_read = delivered;
        admitted = adm;
        in_order = new;
        finished = done;
        codec_after = ap (λ x. x.1.0) q ∙ after;
      }

  check_sequence-Advances :
      (d : PacketCodec) (r : R) (seq : ℕ) → Advances d (check_sequence reader aead seq (d, r)).1.0
  unfolding check_sequence
  check_sequence-Advances d r seq = validate_sequence-Advances d seq

  read_after_header-Advances :
      (d : PacketCodec) (r : R) (header : PacketHeader)
      → Advances d (read_after_header reader aead header (d, r)).1.0
  unfolding read_after_header
  read_after_header-Advances d r header =
      next_keeps (λ (s : PacketCodec × R). Advances d s.0)
        (admit_header (is_some d.session) header, (d, r)) _ unchanged
        λ _ _.
          next_keeps (λ (s : PacketCodec × R). Advances d s.0)
            (check_sequence reader aead header.sequence (d, r)) _
            (check_sequence-Advances d r header.sequence)
            λ _ _.
              subst (Advances d) (sym (read_payload-keeps _ _ header))
                (check_sequence-Advances d r header.sequence)

  -- Whatever `read_packet` returns, an error included, the codec is either unchanged or has noted
  -- one sequence number that is later than the one noted before; the session and the outbound
  -- counter stay.
  pub read_packet-Advances :
      (d : PacketCodec) (r : R) → Advances d (read_packet reader aead (d, r)).1.0
  unfolding read_packet
  read_packet-Advances d r =
      next_keeps (λ (s : PacketCodec × R). Advances d s.0)
        (read_bytes reader aead chatix_header_size (d, r)) _ unchanged
        λ hb _. read_after_header-Advances d (read_exact r chatix_header_size).1 (from_bytes hb)
