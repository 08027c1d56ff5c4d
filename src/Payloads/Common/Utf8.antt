-- ===== src/Payloads/Common/Utf8.antt =====
-- `std::str::from_utf8`: the well-formed byte sequences of the Unicode standard (its table 3-7).
use chatix_protocol.Base.{
  ℕ, zero, suc, ◌≡◌, Bool, true, false, ◌&&◌, List, [], ◌∷◌, Option, none, some, ok, err, leb, ◌==◌,
  if◌then◌else◌, AreBytes,
}
use chatix_protocol.Error.{IoResult, data_error}

-- What a first byte asks for: how many bytes follow, and the range of the next one.
abbrev lead : ℕ → Option (ℕ × ℕ × ℕ)
lead b =
    if leb b 0x7f
    then some (0, 0, 0)
    else if leb 0xc2 b && leb b 0xdf
    then some (1, 0x80, 0xbf)
    else if b == 0xe0
    then some (2, 0xa0, 0xbf)
    else if leb 0xe1 b && leb b 0xec
    then some (2, 0x80, 0xbf)
    else if b == 0xed
    then some (2, 0x80, 0x9f)
    else if leb 0xee b && leb b 0xef
    then some (2, 0x80, 0xbf)
    else if b == 0xf0
    then some (3, 0x90, 0xbf)
    else if leb 0xf1 b && leb b 0xf3
    then some (3, 0x80, 0xbf)
    else if b == 0xf4
    then some (3, 0x80, 0x8f)
    else none

-- Within a character, `need` bytes are still to come, and the next one is between `low` and `high`.
walk : (need low high : ℕ) → List ℕ → Bool
walk zero low high [] = true
walk (suc need) low high [] = false
walk zero low high (b ∷ bs) = elim (lead b) [
  | none ↦ false
  | some (need, low', high') ↦ walk need low' high' bs
]
walk (suc need) low high (b ∷ bs) =
    let more = walk need 0x80 0xbf bs in leb low b && leb b high && more

unfoldable pub is_utf8 : List ℕ → Bool
unfolding walk
is_utf8 bytes = walk 0 0 0 bytes

unfoldable pub from_utf8 : List ℕ → IoResult (List ℕ)
from_utf8 bytes = if is_utf8 bytes then ok bytes else err (data_error "string is not valid UTF-8")

-- The contents of a `String`, as the type guarantees them.
pub record IsText (s : List ℕ) : Type 0 where
  pub bytes : AreBytes s
  pub utf8 : is_utf8 s ≡ true
