-- ===== src/Header/Checks.antt =====
-- What `validate` and `is_encrypted` decide.
use Prim.Native.Nat.{bit_and, bit_or}
use chatix_protocol.Base.{
  ◌↔◌, ℕ, zero, suc, ◌%◌, ◌≤◌, ◌<◌, ◌≡◌, refl, ◌&&◌, arith, Bool, true, ok, ◌==◌, ltb, ==_iff,
  bytes_eq_iff, IsByte,
}
use chatix_protocol.Header.{
  PacketHeader, chatix_magic, chatix_version, chatix_header_len, max_payload_len, validate,
  encrypted,
}

-- What a header of this version of the protocol looks like.
pub record IsWellFormed (h : PacketHeader) : Type 0 where
  pub magic : h.magic ≡ chatix_magic
  pub version : h.version ≡ chatix_version
  pub header_len : h.header_len ≡ chatix_header_len
  pub payload_len : h.payload_len ≤ max_payload_len
  pub reserved : h.reserved ≡ 0

pub validate-IsWellFormed : (h : PacketHeader) → validate h ≡ ok tt → IsWellFormed h
unfolding validate
validate-IsWellFormed h e = ground (arith, bytes_eq_iff h.magic chatix_magic)

pub IsWellFormed-validate : (h : PacketHeader) → IsWellFormed h → validate h ≡ ok tt
unfolding validate
IsWellFormed-validate h w = ground (arith, bytes_eq_iff h.magic chatix_magic)

-- `validate` accepts a header exactly when it has the magic, the version and the header length of
-- this protocol, announces no more than the global payload limit, and leaves the reserved field
-- zero.
pub validate_iff : (h : PacketHeader) → (validate h ≡ ok tt) ↔ IsWellFormed h
validate_iff h = (validate-IsWellFormed h, IsWellFormed-validate h)

-- A Boolean test of all bytes below a bound, which the checker runs.
every_below : (ℕ → Bool) → ℕ → Bool
every_below test zero = true
every_below test (suc k) = every_below test k && test k

every_below-lookup :
    (test : ℕ → Bool) (k : ℕ) → every_below test k ≡ true → (f : ℕ) → f < k → test f ≡ true
unfolding every_below
every_below-lookup test zero passed f below = absurd (omega arith)
every_below-lookup test (suc k) passed f below = grind (arith, every_below-lookup test k)

set_encrypted_table :
    every_below
      (λ f. bit_and (bit_or f encrypted) encrypted == 1 && ltb (bit_or f encrypted) 256)
      256
    ≡ true
unfolding every_below
set_encrypted_table = refl

low_bit_table : every_below (λ f. bit_and f encrypted == f % 2) 256 ≡ true
unfolding every_below
low_bit_table = refl

-- A flag byte with `ENCRYPTED` set is a byte, and has that bit.
pub set_encrypted :
    (f : ℕ) → IsByte f → (bit_and (bit_or f encrypted) encrypted ≡ 1) × IsByte (bit_or f encrypted)
set_encrypted f h = ground (arith, every_below-lookup _ 256 set_encrypted_table f h)

pub low_bit : (f : ℕ) → IsByte f → bit_and f encrypted ≡ f % 2
low_bit f h = (==_iff _ _).0 (every_below-lookup _ 256 low_bit_table f h)
