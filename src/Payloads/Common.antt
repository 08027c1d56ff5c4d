-- ===== src/Payloads/Common.antt =====
-- src/payloads/common.rs: strings and byte strings behind their length, and the checks of decoders.
-- A Rust `String` is the list of its bytes, of which `is_utf8` holds.
pub mod Utf8
pub mod Sized
pub mod Inverse
pub mod Total
use mathlib.Core.Bool.{not}
use chatix_protocol.Base.{
  ℕ, zero, suc, ◌+◌, ◌-◌, ◌%◌, ◌^◌, Bool, true, false, List, [], ◌∷◌, ◌++◌, String, Option, none,
  some, Result, ok, err, ◌>>=◌, ◌>>◌, ok_or, ltb, ◌==◌, if◌then◌else◌, length, index, slice,
  to_be_bytes, from_be_bytes, checked_add,
}
use chatix_protocol.Error.{IoError, IoResult, invalid_data, text, data_error, input_error}
use chatix_protocol.Payloads.Common.Utf8.{from_utf8}

unfoldable pub encode_sized_string : List ℕ → IoResult (List ℕ)
encode_sized_string value =
    if ltb 65535 (length value)
    then err (input_error "string too long")
    else ok (to_be_bytes 2 (length value % 2 ^ 16) ++ value)

unfoldable pub decode_sized_string : List ℕ → IoResult (List ℕ × ℕ)
decode_sized_string bytes = do
  (if ltb (length bytes) 2 then err (data_error "payload too short for string length") else ok tt)
  b₀ ← index bytes 0
  b₁ ← index bytes 1
  let str_len = from_be_bytes (b₀ ∷ b₁ ∷ [])
  end ← ok_or (checked_add 2 str_len) (data_error "string length overflow")
  (if ltb (length bytes) end then err (data_error "payload too short for string bytes") else ok tt)
  raw ← slice bytes 2 end
  value ← from_utf8 raw
  ok (value, end)

unfoldable pub encode_sized_bytes : List ℕ → IoResult (List ℕ)
encode_sized_bytes bytes =
    if ltb (2 ^ 32 - 1) (length bytes)
    then err (input_error "bytes too long")
    else ok (to_be_bytes 4 (length bytes % 2 ^ 32) ++ bytes)

unfoldable pub decode_sized_bytes : List ℕ → IoResult (List ℕ × ℕ)
decode_sized_bytes bytes = do
  (if ltb (length bytes) 4 then err (data_error "missing length") else ok tt)
  b₀ ← index bytes 0
  b₁ ← index bytes 1
  b₂ ← index bytes 2
  b₃ ← index bytes 3
  let len = from_be_bytes (b₀ ∷ b₁ ∷ b₂ ∷ b₃ ∷ [])
  end ← ok_or (checked_add 4 len) (data_error "byte length overflow")
  (if ltb (length bytes) end then err (data_error "not enough bytes") else ok tt)
  raw ← slice bytes 4 end
  ok (raw, end)

unfoldable pub require_fully_consumed : List ℕ → ℕ → String → IoResult (Unit {0})
require_fully_consumed bytes consumed payload_name =
    if not (length bytes == consumed)
    then err (record {
      kind = invalid_data;
      message = text payload_name ∷ text " payload length mismatch" ∷ [];
    })
    else ok tt

unfoldable pub decode_bool : ℕ → String → IoResult Bool
decode_bool value field_name =
    if value == 0
    then ok false
    else if value == 1
    then ok true
    else err (record {
      kind = invalid_data;
      message = text field_name ∷ text " must be encoded as 0 or 1" ∷ [];
    })

-- `if b { 1 } else { 0 }`
unfoldable pub encode_bool : Bool → ℕ
encode_bool b = if b then 1 else 0

-- `bytes.try_into()` to an array of `n` bytes.
unfoldable pub try_into : ℕ → List ℕ → IoError → IoResult (List ℕ)
try_into n bytes e = if length bytes == n then ok bytes else err e

-- `a + b` on `usize`.
abbrev pub add_usize : ℕ → ℕ → ℕ
add_usize a b = (a + b) % 2 ^ 64

-- `a.checked_add(b).and_then(|n| n.checked_add(c))`
abbrev pub checked_sum : ℕ → ℕ → ℕ → Option ℕ
checked_sum a b c = elim (checked_add a b) [ none ↦ none | some n ↦ checked_add n c ]
