-- ===== src/Header/Layout.antt =====
-- `to_bytes` and `from_bytes` are inverse to one another.
use chatix_protocol.Base.{
  ℕ, ◌+◌, ◌<◌, ◌^◌, ◌≡◌, ◌∙◌, arith, List, [], ◌∷◌, ◌++◌, take, drop, length, IsByte, IsArray,
  AreBytes, All-append, to_be_bytes, length-append, length-to_be_bytes, to_be_bytes-AreBytes,
  from_be_bytes-to_be_bytes, take-append, drop-append,
}
use mathlib.Core.List.{append-nil, append_assoc}
use chatix_protocol.Header.{PacketHeader, to_bytes, from_bytes}

-- The ranges that the types of the fields give.
pub record IsHeader (h : PacketHeader) : Type 0 where
  pub magic : IsArray 4 h.magic
  pub version : IsByte h.version
  pub packet_type : IsByte h.packet_type
  pub flags : IsByte h.flags
  pub header_len : IsByte h.header_len
  pub payload_len : h.payload_len < 2 ^ 32
  pub sequence : h.sequence < 2 ^ 64
  pub reserved : h.reserved < 2 ^ 32

take_exact : (xs ys : List ℕ) (n : ℕ) → length xs ≡ n → take n (xs ++ ys) ≡ xs
take_exact xs ys n h = rw (← h) (take-append xs ys)

drop_exact : (xs ys : List ℕ) (n : ℕ) → length xs ≡ n → drop n (xs ++ ys) ≡ ys
drop_exact xs ys n h = rw (← h) (drop-append xs ys)

drop_both : (xs ys zs : List ℕ) (n : ℕ) → length xs + length ys ≡ n → drop n (xs ++ (ys ++ zs)) ≡ zs
drop_both xs ys zs n h =
    rw (← append_assoc xs ys zs) (drop_exact (xs ++ ys) zs n (length-append xs ys ∙ h))

take_all : (xs : List ℕ) (n : ℕ) → length xs ≡ n → take n xs ≡ xs
take_all xs n h = rw (append-nil xs) at (take_exact xs [] n h)

-- The fields of a header apart, so that the magic can be taken apart into its four bytes.
from_bytes-to_bytes_fields :
    (m : List ℕ) (v p f l n s r : ℕ)
    → length m ≡ 4
    → n < 256 ^ 4
    → s < 256 ^ 8
    → r < 256 ^ 4
    → (let h : PacketHeader = record {
      magic = m;
      version = v;
      packet_type = p;
      flags = f;
      header_len = l;
      payload_len = n;
      sequence = s;
      reserved = r;
    } in
        from_bytes (to_bytes h) ≡ h)
unfolding to_bytes from_bytes
from_bytes-to_bytes_fields (a ∷ b ∷ c ∷ d ∷ []) v p f l n s r hm hn hs hr = rw (
  take_exact (to_be_bytes 4 n) (to_be_bytes 8 s ++ to_be_bytes 4 r) 4 (length-to_be_bytes 4 n),
  drop_exact (to_be_bytes 4 n) (to_be_bytes 8 s ++ to_be_bytes 4 r) 4 (length-to_be_bytes 4 n),
  take_exact (to_be_bytes 8 s) (to_be_bytes 4 r) 8 (length-to_be_bytes 8 s),
  drop_both (to_be_bytes 4 n) (to_be_bytes 8 s) (to_be_bytes 4 r) 12
      (omega (arith, length-to_be_bytes 4 n, length-to_be_bytes 8 s)),
  take_all (to_be_bytes 4 r) 4 (length-to_be_bytes 4 r),
  from_be_bytes-to_be_bytes 4 n hn,
  from_be_bytes-to_be_bytes 8 s hs,
  from_be_bytes-to_be_bytes 4 r hr,
)
from_bytes-to_bytes_fields [] v p f l n s r hm hn hs hr = absurd (omega arith)
from_bytes-to_bytes_fields (a ∷ []) v p f l n s r hm hn hs hr = absurd (omega arith)
from_bytes-to_bytes_fields (a ∷ b ∷ []) v p f l n s r hm hn hs hr = absurd (omega arith)
from_bytes-to_bytes_fields (a ∷ b ∷ c ∷ []) v p f l n s r hm hn hs hr = absurd (omega arith)
from_bytes-to_bytes_fields (a ∷ b ∷ c ∷ d ∷ e ∷ m) v p f l n s r hm hn hs hr = absurd (omega arith)

-- A header whose fields are in the ranges of their types is read back from its bytes.
pub from_bytes-to_bytes : (h : PacketHeader) → IsHeader h → from_bytes (to_bytes h) ≡ h
from_bytes-to_bytes h v =
    from_bytes-to_bytes_fields h.magic h.version h.packet_type h.flags h.header_len h.payload_len
      h.sequence h.reserved v.magic.size v.payload_len v.sequence v.reserved

-- The bytes of a header are an array of 24 bytes.
pub to_bytes-IsArray : (h : PacketHeader) → IsHeader h → IsArray 24 (to_bytes h)
unfolding to_bytes
to_bytes-IsArray h v = record {
  size = omega (
    arith,
    v.magic.size,
    length-append h.magic (h.version ∷ h.packet_type ∷ h.flags ∷ h.header_len ∷ tail),
    length-append (to_be_bytes 4 h.payload_len)
        (to_be_bytes 8 h.sequence ++ to_be_bytes 4 h.reserved),
    length-append (to_be_bytes 8 h.sequence) (to_be_bytes 4 h.reserved),
    length-to_be_bytes 4 h.payload_len,
    length-to_be_bytes 8 h.sequence,
    length-to_be_bytes 4 h.reserved,
  );
  bytes =
      All-append IsByte h.magic _ v.magic.bytes
        (v.version, (v.packet_type, (v.flags, (v.header_len, tail-AreBytes))));
}
  where
    tail : List ℕ
    tail = to_be_bytes 4 h.payload_len ++ (to_be_bytes 8 h.sequence ++ to_be_bytes 4 h.reserved)

    tail-AreBytes : AreBytes tail
    tail-AreBytes =
        All-append IsByte (to_be_bytes 4 h.payload_len) _ (to_be_bytes-AreBytes 4 h.payload_len) (
          All-append IsByte (to_be_bytes 8 h.sequence) _ (to_be_bytes-AreBytes 8 h.sequence)
            (to_be_bytes-AreBytes 4 h.reserved))
