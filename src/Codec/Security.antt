-- ===== src/Codec/Security.antt =====
-- What an established session promises of one packet that it accepts or refuses, src/codec.rs.
use Prim.Native.Nat.{bit_and}
use mathlib.Core.Bool.{not}
use chatix_protocol.Base.{
  ℕ, ◌≤◌, ◌≡◌, sym, ap, ◌∙◌, arith, Bool, true, false, ◌&&◌, List, Option, some, ok, err, ok_or,
  if◌then◌else◌, >>=-eq-ok, subst, ◌==◌,
}
use chatix_protocol.Error.{ProtocolError, crypto_error, sequence_violation, encryption_required}
use chatix_protocol.Header.{PacketHeader, from_bytes, validate, is_encrypted, chatix_header_size}
use chatix_protocol.PacketType.{PacketType, from_u8, max_payload_size}
use chatix_protocol.Codec.{
  PacketCodec, SessionCipher, RawPacket, is_some, admit_header, seq_nonce, header_aad,
  sequence_after, validate_sequence, max_for_type,
}
use chatix_protocol.Codec.Interfaces.{Reader, Aead, OpensOnlySealed}
use chatix_protocol.Codec.Read.{
  open_payload, finish_packet, read_packet, read_after_header, check_sequence,
}
use chatix_protocol.Codec.Accept.{IsNext, read_packet-Accepted}

-- The checks of a header, apart.
pub record Admitted (session_is_some : Bool) (h : PacketHeader) : Type 0 where
  pub valid : validate h ≡ ok tt
  pub sealed : session_is_some ≡ true → is_encrypted h ≡ true
  pub packet_type : PacketType
  pub known : from_u8 h.packet_type ≡ ok packet_type
  pub small : h.payload_len ≤ max_for_type h (max_payload_size packet_type)

pub admit_header-Admitted :
    (session_is_some : Bool) (h : PacketHeader)
    → admit_header session_is_some h ≡ ok tt
    → Admitted session_is_some h
unfolding admit_header
admit_header-Admitted b h e =
    let (_, valid, e₁) = >>=-eq-ok (validate h) _ e in
    let (_, sealed, e₂) =
      >>=-eq-ok (if b && not (is_encrypted h) then err encryption_required else ok tt) _ e₁ in
    let (t, known, e₃) = >>=-eq-ok (from_u8 h.packet_type) _ e₂ in
    record {
      valid = valid;
      sealed = λ s. ground arith;
      packet_type = t;
      known = known;
      small = ground arith;
    }

pub ok_or-ok :
    {A : Type 0} (o : Option A) (e : ProtocolError) {a : A} → ok_or o e ≡ ok a → o ≡ some a
ok_or-ok o e h = ground arith

module _ (aead : Aead) where
  -- The payload that is opened was sealed, under the key of the session, with the sequence number as
  -- nonce and with the packet type and the flags of the header.
  pub open_payload-sealed :
      (opens : OpensOnlySealed aead) (cipher : SessionCipher) (h : PacketHeader) (payload : List ℕ)
      {text : List ℕ}
      → open_payload aead (some cipher) h payload ≡ ok text
      → (key : aead.Key) × (aead.unbound_key cipher.inbound_key ≡ some key)
        × (aead.seal_in_place_append_tag key
              (seq_nonce h.sequence)
              (header_aad h.packet_type h.flags)
              text
            ≡ some payload)
  unfolding open_payload
  open_payload-sealed opens cipher h payload e =
      let (key, made, e₁) =
        >>=-eq-ok (ok_or (aead.unbound_key cipher.inbound_key) crypto_error) _ e in
      (
        key,
        ok_or-ok (aead.unbound_key cipher.inbound_key) crypto_error made,
        opens.open_sound key (seq_nonce h.sequence) (header_aad h.packet_type h.flags) payload
            (ok_or-ok _ crypto_error e₁),
      )

  -- Opening changes no field of a header but the length, and what is not encrypted is not opened.
  pub finish_packet-ok :
      (session : Option SessionCipher) (h : PacketHeader) (payload : List ℕ) {p : RawPacket}
      → finish_packet aead session h payload ≡ ok p
      → (p.header ≡ record h { payload_len = p.header.payload_len })
        × (is_encrypted h ≡ true → open_payload aead session h payload ≡ ok p.payload)
        × (is_encrypted h ≡ false → p ≡ record { header = h; payload = payload })
  unfolding finish_packet
  finish_packet-ok session h payload e = (ground arith, (λ y. ground arith), (λ y. ground arith))

-- A packet whose header and sealed payload come next on the stream: it is marked encrypted, its header
-- is that of the stream but for the length, and sealing its payload under the key of the session, with
-- the nonce of its number and with its type and flags, gives the bytes of the stream.
pub record IsSealed (reader : Reader) (aead : Aead) (key_bytes : List ℕ) (r : reader.R)
    (p : RawPacket) : Type 0 where
  pub header_bytes : List ℕ
  pub sealed : List ℕ
  pub key : aead.Key
  pub header_read : (reader.read_exact r chatix_header_size).0 ≡ ok header_bytes
  pub sealed_read :
      IsNext reader
        (reader.read_exact r chatix_header_size).1
        (from_bytes header_bytes).payload_len
        sealed
  pub header_kept :
      p.header ≡ record (from_bytes header_bytes) { payload_len = p.header.payload_len }
  pub marked : is_encrypted p.header ≡ true
  pub key_made : aead.unbound_key key_bytes ≡ some key
  pub sealing :
      aead.seal_in_place_append_tag key
        (seq_nonce p.header.sequence)
        (header_aad p.header.packet_type p.header.flags)
        p.payload
      ≡ some sealed

same_encrypted :
    (g h : PacketHeader) (n : ℕ)
    → g ≡ record h { payload_len = n }
    → is_encrypted g ≡ is_encrypted h
unfolding is_encrypted
same_encrypted g h n e = ap (λ k. not (bit_and k.flags 1 == 0)) e

module _ (reader : Reader) (aead : Aead) where
  -- A packet that `read_packet` accepts under a session was opened from the bytes of the stream.
  pub read_packet-IsSealed :
      (opens : OpensOnlySealed aead) (d : PacketCodec) (r : reader.R) (cipher : SessionCipher)
      {p : RawPacket}
      → d.session ≡ some cipher
      → (read_packet reader aead (d, r)).0 ≡ ok p
      → IsSealed reader aead cipher.inbound_key r p
  read_packet-IsSealed opens d r cipher {p} s e =
      let a = read_packet-Accepted reader aead d r e in
      let h = from_bytes a.header_bytes in
      let adm = admit_header-Admitted (is_some d.session) h a.admitted in
      let marked : is_encrypted h ≡ true = adm.sealed (ap is_some s) in
      let (same, opened, _) = finish_packet-ok aead d.session h a.payload a.finished in
      let (key, made, sealing) = open_payload-sealed aead opens cipher h a.payload (
        subst (λ (c : Option SessionCipher). open_payload aead c h a.payload ≡ ok p.payload) s
          (opened marked)) in
      record {
        header_bytes = a.header_bytes;
        sealed = a.payload;
        key = key;
        header_read = a.header_read;
        sealed_read = a.payload_read;
        header_kept = same;
        marked = same_encrypted p.header h p.header.payload_len same ∙ marked;
        key_made = made;
        sealing =
            ap
              (λ (k : PacketHeader).
                aead.seal_in_place_append_tag key (seq_nonce k.sequence)
                  (header_aad k.packet_type k.flags) p.payload)
              same
            ∙ sealing;
      }

  -- The branch for a header that is not marked encrypted.
  pub read_packet_clear :
      (d : PacketCodec) (r : reader.R) (cipher : SessionCipher) (bytes : List ℕ)
      → d.session ≡ some cipher
      → (reader.read_exact r chatix_header_size).0 ≡ ok bytes
      → validate (from_bytes bytes) ≡ ok tt
      → is_encrypted (from_bytes bytes) ≡ false
      → read_packet reader aead (d, r)
        ≡ (err encryption_required, (d, (reader.read_exact r chatix_header_size).1))
  unfolding read_packet read_after_header admit_header
  read_packet_clear d r cipher bytes s e v n = ground arith

  noted_again :
      (d : PacketCodec) (r : reader.R) (bytes : List ℕ)
      → (reader.read_exact r chatix_header_size).0 ≡ ok bytes
      → admit_header (is_some d.session) (from_bytes bytes) ≡ ok tt
      → (let seq = (from_bytes bytes).sequence in
          (read_packet reader aead (record d { last_recv_seq = some seq }, r)).0
          ≡ err (sequence_violation seq seq))
  unfolding read_packet read_after_header check_sequence validate_sequence sequence_after
  noted_again d r bytes e adm = ground arith

  -- After `read_packet` has accepted a packet, a frame with the same header bytes is refused as a
  -- sequence violation, whatever else the stream holds.
  pub read_packet-replay :
      (d : PacketCodec) (r again : reader.R) {p : RawPacket}
      → (read_packet reader aead (d, r)).0 ≡ ok p
      → (reader.read_exact again chatix_header_size).0 ≡ (reader.read_exact r chatix_header_size).0
      → (read_packet reader aead ((read_packet reader aead (d, r)).1.0, again)).0
        ≡ err (sequence_violation p.header.sequence p.header.sequence)
  read_packet-replay d r again {p} e same =
      let a = read_packet-Accepted reader aead d r e in
      let h = from_bytes a.header_bytes in
      let (header_same, _, _) = finish_packet-ok aead d.session h a.payload a.finished in
      let seq : h.sequence ≡ p.header.sequence =
        sym (ap (λ (k : PacketHeader). k.sequence) header_same) in
      ap (λ (c : PacketCodec). (read_packet reader aead (c, again)).0) a.codec_after
      ∙ noted_again d again a.header_bytes (same ∙ a.header_read) a.admitted
      ∙ ap (λ (n : ℕ). err (sequence_violation n n)) seq
