-- ===== src/Codec/Interfaces.antt =====
-- What the codec is given and does not implement: the streams of tokio and the AEAD of ring. The
-- operations are one record each; what their documentation promises is another.
use chatix_protocol.Base.{
  ℕ, ◌+◌, ◌≤◌, ◌<◌, ◌^◌, ◌-◌, ◌≡◌, List, ◌++◌, Option, some, ok, err, length, take, drop,
}
use chatix_protocol.Error.{IoError, IoResult}

-- `AsyncRead` with `read_exact`, which fills a buffer of the given length.
pub record Reader : Type 1 where
  pub R : Type 0
  pub read_exact : R → ℕ → IoResult (List ℕ) × R

-- A reader that delivers the bytes `pending r`, and then its end: an in-memory cursor, or a
-- connection that does not break.
pub record Delivers (reader : Reader) : Type 0 where
  pub pending : reader.R → List ℕ
  pub eof : IoError
  pub enough :
      (r : reader.R) (n : ℕ)
      → n ≤ length (pending r)
      → (reader.read_exact r n).0 ≡ ok (take n (pending r))
  pub short : (r : reader.R) (n : ℕ) → length (pending r) < n → (reader.read_exact r n).0 ≡ err eof
  pub rest : (r : reader.R) (n : ℕ) → pending (reader.read_exact r n).1 ≡ drop n (pending r)

-- `AsyncWrite` with `write_all` and `flush`.
pub record Writer : Type 1 where
  pub W : Type 0
  pub write_all : W → List ℕ → IoResult (Unit {0}) × W
  pub flush : W → IoResult (Unit {0}) × W

-- A writer that takes every byte: a growing buffer, or a connection that does not break.
pub record Collects (writer : Writer) : Type 0 where
  pub written : writer.W → List ℕ
  pub write_all_ok : (w : writer.W) (bs : List ℕ) → (writer.write_all w bs).0 ≡ ok tt
  pub write_all_written :
      (w : writer.W) (bs : List ℕ) → written (writer.write_all w bs).1 ≡ written w ++ bs
  pub flush_ok : (w : writer.W) → (writer.flush w).0 ≡ ok tt
  pub flush_written : (w : writer.W) → written (writer.flush w).1 ≡ written w

-- AES-256-GCM of ring. Key, nonce, associated data, and the text; `none` is ring's `Unspecified`.
pub record Aead : Type 1 where
  pub Key : Type 0
  pub unbound_key : List ℕ → Option Key
  pub seal_in_place_append_tag : Key → List ℕ → List ℕ → List ℕ → Option (List ℕ)
  pub open_in_place : Key → List ℕ → List ℕ → List ℕ → Option (List ℕ)

-- The longest text that ring seals under AES-GCM.
abbrev pub max_sealed_len : ℕ
max_sealed_len = 2 ^ 36 - 32

-- A key is 32 bytes; a text that is not too long is sealed, which adds the tag; a sealed text is
-- opened under the same key, nonce and associated data.
pub record IsAead (aead : Aead) : Type 0 where
  pub key_ok : (k : List ℕ) → length k ≡ 32 → (key : aead.Key) × (aead.unbound_key k ≡ some key)
  pub seal_ok :
      (key : aead.Key) (nonce aad text : List ℕ)
      → length text ≤ max_sealed_len
      → (sealed : List ℕ) × (aead.seal_in_place_append_tag key nonce aad text ≡ some sealed)
  pub length_seal :
      (key : aead.Key) (nonce aad text : List ℕ) {sealed : List ℕ}
      → aead.seal_in_place_append_tag key nonce aad text ≡ some sealed
      → length sealed ≡ length text + 16
  pub open_seal :
      (key : aead.Key) (nonce aad text : List ℕ) {sealed : List ℕ}
      → aead.seal_in_place_append_tag key nonce aad text ≡ some sealed
      → aead.open_in_place key nonce aad sealed ≡ some text

-- Opening recomputes the tag, so it succeeds on nothing but what sealing gives.
pub record OpensOnlySealed (aead : Aead) : Type 0 where
  pub open_sound :
      (key : aead.Key) (nonce aad sealed : List ℕ) {text : List ℕ}
      → aead.open_in_place key nonce aad sealed ≡ some text
      → aead.seal_in_place_append_tag key nonce aad text ≡ some sealed
