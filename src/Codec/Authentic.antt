-- ===== src/Codec/Authentic.antt =====
-- What an attacker can do to a session of src/codec.rs: only lose packets.
use mathlib.Core.List.{Sublistᴰ}
use mathlib.Core.List.Sublistᴰ.{slnil, cons, cons-cons}
use Prim.Native.Nat.{bit_or}
use chatix_protocol.Base.{
  ℕ, ◌+◌, ◌≤◌, ◌<◌, ◌^◌, ◌≡◌, ◌⊎◌, inl, inr, refl, ap, ◌∙◌, arith, true, Option, some, ok_or,
  >>=-eq-ok, List, [], ◌∷◌, All, ok, length, subst, IsArray,
}
use chatix_protocol.Error.{crypto_error}
use chatix_protocol.Sizes.{as_u32}
use chatix_protocol.Header.{
  chatix_header_size, PacketHeader, new_header, from_bytes, is_encrypted, encrypted,
}
use chatix_protocol.Header.Checks.{IsWellFormed, validate-IsWellFormed}
use chatix_protocol.Header.Inverse.{to_bytes-from_bytes}
use chatix_protocol.PacketType.{as_u8, max_payload_size}
use chatix_protocol.PacketType.Limits.{max_payload_size-le}
use chatix_protocol.Codec.{PacketCodec, SessionCipher, RawPacket, seq_nonce, header_aad, is_some}
use chatix_protocol.Codec.Interfaces.{Reader, Aead}
use chatix_protocol.Codec.Read.{open_payload, finish_packet, read_packet}
use chatix_protocol.Codec.Sent.{received}
use chatix_protocol.Codec.Nonces.{Outgoing, seq_nonce-injective}
use chatix_protocol.Codec.Stream.{receive_all, received_all}
use chatix_protocol.Codec.Accept.{IsNext, read_packet-Accepted}
use chatix_protocol.Codec.Security.{ok_or-ok, admit_header-Admitted, finish_packet-ok}
use chatix_protocol.Codec.Integrity.{Along-All, InOrder, receive_all-HasReceived}

-- `read_exact` fills the buffer with bytes, whoever writes them.
pub record DeliversBytes (reader : Reader) : Type 0 where
  pub are_bytes :
      (r : reader.R) (n : ℕ) {bytes : List ℕ}
      → (reader.read_exact r n).0 ≡ ok bytes
      → IsArray n bytes

-- What one side of a session seals: the nonce, the associated data and the text of each packet, from a
-- sequence number on.
abbrev pub IsLogged : ℕ → List Outgoing → List ℕ → List ℕ → List ℕ → Type 0
IsLogged seq [] nonce aad text = ⊥
IsLogged seq (o ∷ os) nonce aad text =
    ((nonce ≡ seq_nonce seq)
      × (aad ≡ header_aad (as_u8 o.packet_type) (bit_or o.flags encrypted))
      × (text ≡ o.payload))
    ⊎ IsLogged (seq + 1) os nonce aad text

-- Bytes that a stream can deliver, in whatever state: nothing, or what a read gives.
abbrev pub IsDelivered : Reader → List ℕ → Type 0
IsDelivered reader bytes =
    (bytes ≡ []) ⊎ ((r : reader.R) × (n : ℕ) × ((reader.read_exact r n).0 ≡ ok bytes))

IsNext-IsDelivered :
    (reader : Reader) (r : reader.R) (n : ℕ) (bytes : List ℕ)
    → IsNext reader r n bytes
    → IsDelivered reader bytes
IsNext-IsDelivered reader r n bytes (inl (_, none_read)) = inl none_read
IsNext-IsDelivered reader r n bytes (inr (_, got)) = inr (r, n, got)

-- The authenticity that AES-GCM is documented to give under a key that nobody else has: whoever writes
-- to the stream, what it delivers opens only if the other side sealed it.
pub record OpensOnlySent (reader : Reader) (aead : Aead) (key_bytes : List ℕ) (seq : ℕ)
    (sent : List Outgoing) : Type 0 where
  pub open_authentic :
      (key : aead.Key) (nonce aad sealed : List ℕ) {text : List ℕ}
      → IsDelivered reader sealed
      → aead.unbound_key key_bytes ≡ some key
      → aead.open_in_place key nonce aad sealed ≡ some text
      → IsLogged seq sent nonce aad text

-- A packet is one of those that are received when nothing is lost.
abbrev IsAmong : SessionCipher → ℕ → List Outgoing → RawPacket → Type 0
IsAmong c seq [] p = ⊥
IsAmong c seq (o ∷ os) p =
    (p ≡ received (some c) o.packet_type o.flags seq o.payload) ⊎ IsAmong c (seq + 1) os p

IsAmong-le :
    (c : SessionCipher) (seq : ℕ) (sent : List Outgoing) (p : RawPacket)
    → IsAmong c seq sent p
    → seq ≤ p.header.sequence
unfolding new_header
IsAmong-le c seq [] p m = absurd m
IsAmong-le c seq (o ∷ os) p (inl e) =
    let same = ap (λ (q : RawPacket). q.header.sequence) e in omega arith
IsAmong-le c seq (o ∷ os) p (inr m) = omega (arith, IsAmong-le c (seq + 1) os p m)

-- Packets that come later than the first of the list are among the others.
later_packets :
    (c : SessionCipher) (seq last : ℕ) (o : Outgoing) (os : List Outgoing) (ps : List RawPacket)
    → seq ≤ last
    → InOrder (some last) ps
    → All (IsAmong c seq (o ∷ os)) ps
    → All (IsAmong c (seq + 1) os) ps
unfolding new_header
later_packets c seq last o os [] h ordered among = tt
later_packets c seq last o os (p ∷ ps) h (new, ordered) (inl e, among) =
    let same = ap (λ (q : RawPacket). q.header.sequence) e in absurd (omega arith)
later_packets c seq last o os (p ∷ ps) h (new, ordered) (inr m, among) =
    (m, later_packets c seq p.header.sequence o os ps (omega arith) ordered among)

-- In order, and each among those sent: a part of what was sent, in its order.
InOrder-Sublist :
    (c : SessionCipher) (seq : ℕ) (sent : List Outgoing) (last : Option ℕ) (ps : List RawPacket)
    → InOrder last ps
    → All (IsAmong c seq sent) ps
    → Sublistᴰ ps (received_all (some c) seq sent)
unfolding received_all new_header
InOrder-Sublist c seq [] last [] ordered among = slnil
InOrder-Sublist c seq [] last (p ∷ ps) ordered (m, among) = absurd m
InOrder-Sublist c seq (o ∷ os) last [] ordered among =
    cons (InOrder-Sublist c (seq + 1) os last [] tt tt)
InOrder-Sublist c seq (o ∷ os) last (p ∷ ps) (new, ordered) (inl e, among) =
    let same = ap (λ (q : RawPacket). q.header.sequence) e in
    cons-cons e (
      InOrder-Sublist c (seq + 1) os (some p.header.sequence) ps ordered
        (later_packets c seq p.header.sequence o os ps (omega arith) ordered among))
InOrder-Sublist c seq (o ∷ os) last (p ∷ ps) (new, ordered) (inr m, among) =
    let le = IsAmong-le c (seq + 1) os p m in
    cons (
      InOrder-Sublist c (seq + 1) os last (p ∷ ps) (new, ordered)
        (m, later_packets c seq p.header.sequence o os ps (omega arith) ordered among))

-- A header that was admitted is one that the sender builds from the parts that are sealed.
header_known :
    (h : PacketHeader) (t flags n seq : ℕ)
    → IsWellFormed h
    → h.packet_type ≡ t
    → h.flags ≡ flags
    → h.sequence ≡ seq
    → record h { payload_len = n } ≡ new_header t flags n seq
unfolding new_header
header_known h t flags n seq w a b c =
    rw (w.magic, w.version, w.header_len, w.reserved, a, b, c) refl

header_aad-injective : (t u f g : ℕ) → header_aad t f ≡ header_aad u g → (t ≡ u) × (f ≡ g)
unfolding header_aad
header_aad-injective t u f g e = (ground arith, ground arith)

raw_packet_eq :
    {g h : PacketHeader} {a b : List ℕ}
    → g ≡ h
    → a ≡ b
    → ◌≡◌ {A = RawPacket} (record { header = g; payload = a }) (record { header = h; payload = b })
raw_packet_eq e f = cc

IsLogged-IsAmong :
    (c : SessionCipher) (h : PacketHeader) (seq : ℕ) (sent : List Outgoing) (p : RawPacket)
    → IsWellFormed h
    → h.sequence < 2 ^ 64
    → seq + length sent ≤ 2 ^ 64
    → All (λ o. length o.payload ≤ max_payload_size o.packet_type) sent
    → p.header ≡ record h { payload_len = as_u32 (length p.payload) }
    → IsLogged seq sent (seq_nonce h.sequence) (header_aad h.packet_type h.flags) p.payload
    → IsAmong c seq sent p
IsLogged-IsAmong c h seq [] p w small left fit e l = absurd l
IsLogged-IsAmong c h seq (o ∷ os) p w small left (fits, fit) e (inl (nonce, aad, text)) =
    let same : h.sequence ≡ seq = seq_nonce-injective h.sequence seq small (omega arith) nonce in
    let (t, f) = header_aad-injective _ _ _ _ aad in
    let n : as_u32 (length p.payload) ≡ length o.payload =
      ap (λ x. as_u32 (length x)) text ∙ omega (arith, max_payload_size-le o.packet_type) in
    let header = e ∙ header_known h _ _ _ seq w t f same in
    inl (
      raw_packet_eq
        (header ∙ ap (λ k. new_header (as_u8 o.packet_type) (bit_or o.flags encrypted) k seq) n)
        text)
IsLogged-IsAmong c h seq (o ∷ os) p w small left (fits, fit) e (inr l) =
    inr (IsLogged-IsAmong c h (seq + 1) os p w small (omega arith) fit e l)

module _ (reader : Reader) (aead : Aead) where
  finish_packet-opened :
      (session : Option SessionCipher) (h : PacketHeader) (payload : List ℕ) {p : RawPacket}
      → is_encrypted h ≡ true
      → finish_packet aead session h payload ≡ ok p
      → p.header ≡ record h { payload_len = as_u32 (length p.payload) }
  unfolding finish_packet
  finish_packet-opened session h payload m e = ground arith

  open_payload-IsLogged :
      (cipher : SessionCipher) (seq : ℕ) (sent : List Outgoing)
      (authentic : OpensOnlySent reader aead cipher.inbound_key seq sent) (h : PacketHeader)
      (payload : List ℕ) {text : List ℕ}
      → IsDelivered reader payload
      → open_payload aead (some cipher) h payload ≡ ok text
      → IsLogged seq sent (seq_nonce h.sequence) (header_aad h.packet_type h.flags) text
  unfolding open_payload
  open_payload-IsLogged cipher seq sent authentic h payload delivered e =
      let (key, made, e₁) =
        >>=-eq-ok (ok_or (aead.unbound_key cipher.inbound_key) crypto_error) _ e in
      authentic.open_authentic key (seq_nonce h.sequence) (header_aad h.packet_type h.flags) payload
        delivered (ok_or-ok _ crypto_error made) (ok_or-ok _ crypto_error e₁)

  read_packet-IsAmong :
      (reads : DeliversBytes reader) (cipher : SessionCipher) (seq : ℕ) (sent : List Outgoing)
      (authentic : OpensOnlySent reader aead cipher.inbound_key seq sent)
      → seq + length sent ≤ 2 ^ 64
      → All (λ o. length o.payload ≤ max_payload_size o.packet_type) sent
      → (d : PacketCodec) (r : reader.R) (p : RawPacket) → d.session ≡ some cipher
      → (read_packet reader aead (d, r)).0 ≡ ok p
      → IsAmong cipher seq sent p
  read_packet-IsAmong reads cipher seq sent authentic left fit d r p s e =
      let a = read_packet-Accepted reader aead d r e in
      let h = from_bytes a.header_bytes in
      let adm = admit_header-Admitted (is_some d.session) h a.admitted in
      let marked : is_encrypted h ≡ true = adm.sealed (ap is_some s) in
      let (_, opened, _) = finish_packet-ok aead d.session h a.payload a.finished in
      let logged =
        open_payload-IsLogged cipher seq sent authentic h a.payload
          (IsNext-IsDelivered reader (reader.read_exact r chatix_header_size).1 h.payload_len
            a.payload a.payload_read)
          (subst (λ (c : Option SessionCipher). open_payload aead c h a.payload ≡ ok p.payload) s
            (opened marked)) in
      let (_, ranges) = to_bytes-from_bytes a.header_bytes (reads.are_bytes r 24 a.header_read) in
      IsLogged-IsAmong cipher h seq sent p (validate-IsWellFormed h adm.valid) ranges.sequence left
        fit (finish_packet-opened d.session h a.payload marked a.finished) logged

  -- Let an attacker write the bytes of the stream, but not forge: whatever the reader delivers is
  -- bytes, and opens under the inbound key of a session only with the nonce, the type and the
  -- flags of one of the packets that the other side sent, numbered one after the other, and as
  -- its payload. When the numbers of these packets stay below 2^64 and their payloads within the
  -- limit of their type, the packets that a codec with this session receives, one after the other
  -- and without an error, are a subsequence of those that it would receive if nothing were
  -- touched: in their order, none twice, and none changed in a field of its header or a byte of
  -- its payload; and they are as many as were asked for.
  pub receive_all-Sublist :
      (reads : DeliversBytes reader) (cipher : SessionCipher) (seq : ℕ) (sent : List Outgoing)
      (authentic : OpensOnlySent reader aead cipher.inbound_key seq sent) (n : ℕ) (d : PacketCodec)
      (r : reader.R) {ps : List RawPacket}
      → seq + length sent ≤ 2 ^ 64
      → All (λ o. length o.payload ≤ max_payload_size o.packet_type) sent
      → d.session ≡ some cipher
      → (receive_all reader aead n (d, r)).0 ≡ ok ps
      → (length ps ≡ n) × Sublistᴰ ps (received_all (some cipher) seq sent)
  receive_all-Sublist reads cipher seq sent authentic n d r {ps} left fit s e =
      let (count, among, ordered, _) =
        receive_all-HasReceived reader aead (λ r p. IsAmong cipher seq sent p) cipher
          (read_packet-IsAmong reads cipher seq sent authentic left fit) n d r s e in
      (
        count,
        InOrder-Sublist cipher seq sent d.last_recv_seq ps ordered
            (Along-All reader aead (IsAmong cipher seq sent) (d, r) ps among),
      )
