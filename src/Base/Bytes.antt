-- ===== src/Base/Bytes.antt =====
-- Machine integers as bytes: `to_be_bytes`, `from_be_bytes` and the checked addition of Rust.
use Prim.Native.Nat.{ℕ, zero, suc, ◌+◌, ◌*◌, ◌/◌, ◌%◌, ◌^◌, ◌<◌}
use mathlib.Core.Path.{◌≡◌, refl, ap, ◌∙◌}
use mathlib.Core.List.{List, [], ◌∷◌, reverse, reverse-reverse}
use mathlib.Core.Option.{Option, none, some}
use native.Mathlib.Omega.{arith}
use native.Mathlib.Nat.{pow-suc}
use chatix_protocol.Base.Tests.{ltb, if◌then◌else◌}
use chatix_protocol.Base.Lists.{length, length-reverse, All, All-reverse}

abbrev pub IsByte : ℕ → Type 0
IsByte b = b < 256

abbrev pub AreBytes : List ℕ → Type 0
AreBytes = All IsByte

-- An array of `n` bytes, as a list.
pub record IsArray (n : ℕ) (bs : List ℕ) : Type 0 where
  pub size : length bs ≡ n
  pub bytes : AreBytes bs

-- The lowest byte first.
to_le_bytes : ℕ → ℕ → List ℕ
to_le_bytes zero x = []
to_le_bytes (suc k) x = x % 256 ∷ to_le_bytes k (x / 256)

from_le_bytes : List ℕ → ℕ
from_le_bytes [] = 0
from_le_bytes (b ∷ bs) = b + 256 * from_le_bytes bs

-- The first argument is the width in bytes: 2 for `u16`, 4 for `u32`, 8 for `u64`.
unfoldable pub to_be_bytes : ℕ → ℕ → List ℕ
unfolding to_le_bytes
to_be_bytes k x = reverse (to_le_bytes k x)

unfoldable pub from_be_bytes : List ℕ → ℕ
unfolding from_le_bytes
from_be_bytes bs = from_le_bytes (reverse bs)

-- `a.checked_add(b)` on `usize`, which has 64 bits.
abbrev pub checked_add : ℕ → ℕ → Option ℕ
checked_add a b = if ltb (a + b) (2 ^ 64) then some (a + b) else none

length-to_le_bytes : (k x : ℕ) → length (to_le_bytes k x) ≡ k
unfolding to_le_bytes
length-to_le_bytes zero x = refl
length-to_le_bytes (suc k) x = ap suc (length-to_le_bytes k (x / 256))

to_le_bytes-AreBytes : (k x : ℕ) → AreBytes (to_le_bytes k x)
unfolding to_le_bytes
to_le_bytes-AreBytes zero x = tt
to_le_bytes-AreBytes (suc k) x = (omega arith, to_le_bytes-AreBytes k (x / 256))

from_le_bytes-to_le_bytes : (k x : ℕ) → x < 256 ^ k → from_le_bytes (to_le_bytes k x) ≡ x
unfolding to_le_bytes from_le_bytes
from_le_bytes-to_le_bytes zero x h = omega arith
from_le_bytes-to_le_bytes (suc k) x h =
    omega
      (arith, pow-suc 256 k, from_le_bytes-to_le_bytes k (x / 256) (omega (arith, pow-suc 256 k)))

to_le_bytes-from_le_bytes :
    (bs : List ℕ) → AreBytes bs → to_le_bytes (length bs) (from_le_bytes bs) ≡ bs
unfolding to_le_bytes from_le_bytes
to_le_bytes-from_le_bytes [] h = refl
to_le_bytes-from_le_bytes (b ∷ bs) (hb, hs) =
    rw (low, high) (ap (λ (t : List ℕ). b ∷ t) (to_le_bytes-from_le_bytes bs hs))
  where
    low : (b + 256 * from_le_bytes bs) % 256 ≡ b
    low = omega arith

    high : (b + 256 * from_le_bytes bs) / 256 ≡ from_le_bytes bs
    high = omega arith

from_le_bytes-lt : (bs : List ℕ) → AreBytes bs → from_le_bytes bs < 256 ^ length bs
unfolding from_le_bytes
from_le_bytes-lt [] h = omega arith
from_le_bytes-lt (b ∷ bs) h = omega (arith, from_le_bytes-lt bs h.1, pow-suc 256 (length bs))

pub length-to_be_bytes : (k x : ℕ) → length (to_be_bytes k x) ≡ k
unfolding to_be_bytes
length-to_be_bytes k x = length-reverse _ ∙ length-to_le_bytes k x

pub to_be_bytes-AreBytes : (k x : ℕ) → AreBytes (to_be_bytes k x)
unfolding to_be_bytes
to_be_bytes-AreBytes k x = All-reverse IsByte _ (to_le_bytes-AreBytes k x)

-- The integer comes back from its bytes.
pub from_be_bytes-to_be_bytes : (k x : ℕ) → x < 256 ^ k → from_be_bytes (to_be_bytes k x) ≡ x
unfolding to_be_bytes from_be_bytes
from_be_bytes-to_be_bytes k x h =
    rw (reverse-reverse (to_le_bytes k x)) (from_le_bytes-to_le_bytes k x h)

-- The bytes come back from the integer that they stand for.
pub to_be_bytes-from_be_bytes :
    (k : ℕ) (bs : List ℕ) → IsArray k bs → to_be_bytes k (from_be_bytes bs) ≡ bs
unfolding to_be_bytes from_be_bytes
to_be_bytes-from_be_bytes k bs h =
    ap reverse {x = to_le_bytes k (from_le_bytes (reverse bs))} {y = reverse bs}
      (rw (← width) (to_le_bytes-from_le_bytes (reverse bs) (All-reverse IsByte bs h.bytes)))
    ∙ reverse-reverse bs
  where
    width : length (reverse bs) ≡ k
    width = length-reverse bs ∙ h.size

-- An integer read from `k` bytes has `k` bytes.
pub from_be_bytes-lt : (k : ℕ) (bs : List ℕ) → IsArray k bs → from_be_bytes bs < 256 ^ k
unfolding from_be_bytes
from_be_bytes-lt k bs h =
    rw (length-reverse bs ∙ h.size) at
      (from_le_bytes-lt (reverse bs) (All-reverse IsByte bs h.bytes))
