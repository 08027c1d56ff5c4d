-- ===== src/Codec/Nonces.antt =====
-- The counter of `write_packet`, and the nonces that it seals under, src/codec.rs.
use mathlib.Core.Bool.{not}
use chatix_protocol.Base.{
  Bool, ok, true, Option, none, some, refl, if◌then◌else◌, bytes_eq, bytes_eq_iff, ℕ, ◌+◌, ◌≤◌, ◌<◌,
  ◌^◌, ◌≡◌, ◌⊎◌, inl, inr, sym, ap, ◌∙◌, arith, List, [], ◌∷◌, err, drop, from_be_bytes,
  from_be_bytes-to_be_bytes,
}
use chatix_protocol.Error.{crypto_error}
use chatix_protocol.PacketType.{PacketType}
use chatix_protocol.Codec.{PacketCodec, SessionCipher, seq_nonce}
use chatix_protocol.Codec.Interfaces.{Writer, Aead}
use chatix_protocol.Codec.Action.{Action}
use chatix_protocol.Codec.Write.{write_packet, seal_payload, take_seq, write_bytes, flush_bytes}

-- Two sequence numbers have the same nonce only if they are the same.
pub seq_nonce-injective : (m n : ℕ) → m < 2 ^ 64 → n < 2 ^ 64 → seq_nonce m ≡ seq_nonce n → m ≡ n
unfolding seq_nonce
seq_nonce-injective m n hm hn e =
    sym (from_be_bytes-to_be_bytes 8 m (omega arith))
    ∙ ap (λ xs. from_be_bytes (drop 4 xs)) e
    ∙ from_be_bytes-to_be_bytes 8 n (omega arith)

-- A caller of the codec: what it gives to `write_packet`.
pub record Outgoing : Type 0 where
  pub packet_type : PacketType
  pub flags : ℕ
  pub payload : List ℕ

-- An AEAD that seals only under the nonces that pass a test, and fails under all others.
abbrev pub sealing_under : (List ℕ → Bool) → Aead → Aead
sealing_under allowed aead = record aead {
  seal_in_place_append_tag = λ key nonce aad text.
      if allowed nonce then aead.seal_in_place_append_tag key nonce aad text else none;
}

module _ (writer : Writer) (aead : Aead) where
  open writer use {W}

  unfoldable pub send : Outgoing → Action (PacketCodec × W) (Unit {0})
  unfolding write_packet
  send p = write_packet writer aead p.packet_type p.flags p.payload

  -- Whatever `write_packet` is given and whatever the stream and the cipher do, it either finds
  -- the counter exhausted, and then fails with a crypto error and touches neither the codec nor
  -- the stream, or counts its sequence number as used, even when it fails later.
  pub write_packet-next_send_seq :
      (c : PacketCodec) (w : W) (p : Outgoing)
      → ((2 ^ 64 ≤ c.next_send_seq + 1) × (send p (c, w) ≡ (err crypto_error, (c, w))))
        ⊎ ((c.next_send_seq + 1 < 2 ^ 64)
            × ((send p (c, w)).1.0 ≡ record c { next_send_seq = c.next_send_seq + 1 }))
  unfolding send write_packet take_seq write_bytes flush_bytes
  write_packet-next_send_seq c w p = ground arith

  -- The codec and the stream after some packets, of which each may have failed.
  unfoldable pub send_each : List Outgoing → PacketCodec × W → PacketCodec × W
  send_each [] s = s
  send_each (p ∷ ps) s = send_each ps (send p s).1

  -- The counter never goes back.
  send-le :
      (p : Outgoing) (c : PacketCodec) (w : W) → c.next_send_seq ≤ (send p (c, w)).1.0.next_send_seq
  send-le p c w = elim (write_packet-next_send_seq c w p) [
    | inl (full, e) ↦ rw e (omega arith)
    | inr (left, e) ↦ rw e (omega arith)
  ]

  send_each-le :
      (ps : List Outgoing) (c : PacketCodec) (w : W)
      → c.next_send_seq ≤ (send_each ps (c, w)).0.next_send_seq
  unfolding send_each
  send_each-le [] c w = omega arith
  send_each-le (p ∷ ps) c w =
      let s = (send p (c, w)).1 in omega (arith, send-le p c w, send_each-le ps s.0 s.1)

-- What a packet does is the same if only the nonce of its number can be used for sealing.
seal_payload-nonce :
    (aead : Aead) (allowed : List ℕ → Bool) (session : Option SessionCipher) (t : PacketType)
    (seq flags : ℕ) (payload : List ℕ)
    → allowed (seq_nonce seq) ≡ true
    → seal_payload (sealing_under allowed aead) session t seq flags payload
      ≡ seal_payload aead session t seq flags payload
unfolding seal_payload
seal_payload-nonce aead allowed none t seq flags payload h = refl
seal_payload-nonce aead allowed (some cipher) t seq flags payload h = rw h refl

take_seq-cases :
    (writer : Writer) (aead : Aead) (c : PacketCodec) (w : writer.W)
    → ((c.next_send_seq + 1 < 2 ^ 64)
        × (take_seq writer aead (c, w)
            ≡ (ok c.next_send_seq, (record c { next_send_seq = c.next_send_seq + 1 }, w))))
      ⊎ (take_seq writer aead (c, w) ≡ (err crypto_error, (c, w)))
unfolding take_seq
take_seq-cases writer aead c w = ground arith

module _ (writer : Writer) (aead : Aead) (allowed : List ℕ → Bool) where
  open writer use {W}

  send-nonce :
      (p : Outgoing) (c : PacketCodec) (w : W)
      → (c.next_send_seq + 1 < 2 ^ 64 → allowed (seq_nonce c.next_send_seq) ≡ true)
      → send writer (sealing_under allowed aead) p (c, w) ≡ send writer aead p (c, w)
  unfolding send write_packet write_bytes flush_bytes
  send-nonce p c w h =
      let same : take_seq writer (sealing_under allowed aead) (c, w) ≡ take_seq writer aead (c, w) =
        unfold take_seq in refl in
      elim (take_seq-cases writer aead c w) [
        | inl (left, e) ↦
            rw
              (
                same,
                e,
                seal_payload-nonce aead allowed c.session p.packet_type c.next_send_seq p.flags
                    p.payload (h left),
              )
              refl
        | inr e ↦ rw (same, e) refl
      ]

  send_each-nonce :
      (ps : List Outgoing) (c : PacketCodec) (w : W)
      → ((n : ℕ) → c.next_send_seq ≤ n → n < 2 ^ 64 → allowed (seq_nonce n) ≡ true)
      → send_each writer (sealing_under allowed aead) ps (c, w) ≡ send_each writer aead ps (c, w)
  unfolding send_each
  send_each-nonce [] c w h = refl
  send_each-nonce (p ∷ ps) c w h =
      let s = (send writer aead p (c, w)).1 in
      ap (λ x. send_each writer (sealing_under allowed aead) ps x.1)
        (send-nonce p c w (λ k. h c.next_send_seq (omega arith) (omega arith)))
      ∙ send_each-nonce ps s.0 s.1 (λ n le lt. h n (omega (arith, send-le writer aead p c w)) lt)

module _ (writer : Writer) (aead : Aead) where
  open writer use {W}

  -- No nonce is used twice, whatever the stream and the cipher do and whether a packet is sent or
  -- fails. As long as the counter of a codec is not exhausted: its next packet is sealed under
  -- the nonce of its counter and no other, since it has the same outcome, codec and stream with a
  -- cipher that fails under every other nonce; and all later packets are never sealed under that
  -- nonce, since they have the same effect with a cipher that fails under it.
  pub send_each-nonce_fresh :
      (c : PacketCodec) (w : W) (p : Outgoing) (ps : List Outgoing)
      → c.next_send_seq + 1 < 2 ^ 64
      → (let nonce = seq_nonce c.next_send_seq in
          let s = (send writer aead p (c, w)).1 in
          (send writer (sealing_under (λ n. bytes_eq n nonce) aead) p (c, w)
            ≡ send writer aead p (c, w))
          × (send_each writer (sealing_under (λ n. not (bytes_eq n nonce)) aead) ps s
              ≡ send_each writer aead ps s))
  send_each-nonce_fresh c w p ps h =
      let nonce = seq_nonce c.next_send_seq in
      let s = (send writer aead p (c, w)).1 in
      let later : c.next_send_seq + 1 ≤ s.0.next_send_seq =
        elim (write_packet-next_send_seq writer aead c w p) [
          | inl (full, _) ↦ absurd (omega arith)
          | inr (_, stepped) ↦ rw stepped (omega arith)
        ] in
      (
        send-nonce writer aead (λ n. bytes_eq n nonce) p c w
            (λ k. ground (arith, bytes_eq_iff nonce nonce)),
        send_each-nonce writer aead (λ n. not (bytes_eq n nonce)) ps s.0 s.1
            (λ n le lt.
              ground
                (arith, bytes_eq_iff (seq_nonce n) nonce, seq_nonce-injective n c.next_send_seq)),
      )
