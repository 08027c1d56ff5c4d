-- ===== src/Payloads/Common/Total.antt =====
-- Decoding never panics: the parts that the decoders share.
use chatix_protocol.Base.{
  ℕ, ◌+◌, ◌≤◌, arith, List, [], ◌∷◌, ok, err, panic, length, slice-ok, index, from_be_bytes,
}
use chatix_protocol.Error.{IoError, IoResult}
use chatix_protocol.Payloads.Common.{decode_sized_string}
use chatix_protocol.Payloads.Common.Utf8.{from_utf8}

-- What a decoder of one field says it consumed, and 0 when it failed.
abbrev pub consumed : IoResult (List ℕ × ℕ) → ℕ
consumed (ok (s, n)) = n
consumed (err e) = 0
consumed panic = 0

pub decode_sized_string-consumed :
    (bytes : List ℕ) → consumed (decode_sized_string bytes) ≤ length bytes
unfolding decode_sized_string from_utf8 index
decode_sized_string-consumed [] = ground arith
decode_sized_string-consumed (a ∷ []) = ground arith
decode_sized_string-consumed (a ∷ b ∷ bs) =
    ground (arith, slice-ok {E = IoError} (a ∷ b ∷ bs) 2 (2 + from_be_bytes (a ∷ b ∷ [])))
