-- ===== src/Crypto/SafetyNumber.antt =====
-- src/crypto/safety_number.rs: the numbers that two users compare, and the check of a pinned key.
pub mod Symmetry
pub mod Digits
use chatix_protocol.Base.{
  ℕ, zero, suc, ◌+◌, ◌-◌, ◌%◌, ◌/◌, ◌>>=◌, panic, slice_to, Bool, true, false, ◌&&◌, List, [], ◌∷◌,
  ◌++◌, Result, ok, err, ltb, leb, ◌==◌, if◌then◌else◌, length, take, drop, replicate, bytes_eq,
  from_be_bytes,
}
use chatix_protocol.Error.{ProtocolError, identity_key_changed}
use chatix_protocol.Payloads.E2eKey.{E2ePublicKey}
use chatix_protocol.Crypto.Primitives.{Sha256}

abbrev pub fingerprint_iterations : ℕ
fingerprint_iterations = 5200

abbrev pub digit_source_len : ℕ
digit_source_len = 30

unfoldable pub serialize_public_key : E2ePublicKey → List ℕ
serialize_public_key public_key =
    public_key.x25519_public ++ (public_key.ml_kem_ek ++ public_key.dsa_verifying_key)

module _ (sha256 : Sha256) where
  open sha256 use {digest}

  -- The loop, for the rounds that are left.
  unfoldable pub rehash : ℕ → List ℕ → List ℕ → List ℕ → List ℕ
  rehash zero identifier key_bytes d = d
  rehash (suc n) identifier key_bytes d =
      rehash n identifier key_bytes (digest (d ++ (identifier ++ key_bytes)))

  unfoldable pub compute_fingerprint : List ℕ → E2ePublicKey → List ℕ
  compute_fingerprint identifier public_key =
      let key_bytes = serialize_public_key public_key in
      rehash fingerprint_iterations identifier key_bytes (digest (identifier ++ key_bytes))

-- `a <= b` on strings, which compares their bytes.
unfoldable pub str_le : List ℕ → List ℕ → Bool
str_le [] b = true
str_le (x ∷ a) [] = false
str_le (x ∷ a) (y ∷ b) =
    let rest = str_le a b in if ltb x y then true else if x == y then rest else false

-- The decimal digits of a value in ASCII, of so many digits at most: a `u64` has no more than 20.
unfoldable pub decimal : ℕ → ℕ → List ℕ
decimal zero value = []
decimal (suc k) value =
    let front = decimal k (value / 10) in
    if ltb value 10 then (48 + value) ∷ [] else front ++ ((48 + value % 10) ∷ [])

-- `format!("{value:05}")`: zeros in front, up to five digits.
unfoldable pub format_05 : ℕ → List ℕ
format_05 value = let digits = decimal 20 value in replicate (5 - length digits) 48 ++ digits

-- `bytes.chunks(5)`, with no more chunks than bytes: the last may be shorter.
unfoldable pub chunks_of_5 : ℕ → List ℕ → List (List ℕ)
chunks_of_5 zero bytes = []
chunks_of_5 (suc n) [] = []
chunks_of_5 (suc n) (b ∷ bytes) = take 5 (b ∷ bytes) ∷ chunks_of_5 n (drop 5 (b ∷ bytes))

-- `buf[3..].copy_from_slice(chunk)` panics unless the chunk has the five bytes that are left in `buf`.
unfoldable pub digit_group : List ℕ → Result ProtocolError (List ℕ)
digit_group chunk =
    if length chunk == 5
    then ok (format_05 (from_be_bytes (replicate 3 0 ++ chunk) % 100000))
    else panic

-- `.map(…).collect()`
unfoldable pub map_groups : List (List ℕ) → Result ProtocolError (List (List ℕ))
map_groups [] = ok []
map_groups (c ∷ cs) = do g ← digit_group c; gs ← map_groups cs; ok (g ∷ gs)

unfoldable pub digit_groups : List ℕ → Result ProtocolError (List (List ℕ))
digit_groups fingerprint = do
  source ← slice_to fingerprint digit_source_len
  map_groups (chunks_of_5 (length source) source)

-- `groups.join(" ")`
unfoldable pub join : List (List ℕ) → List ℕ
join [] = []
join (g ∷ []) = g
join (g ∷ h ∷ gs) = g ++ b' ' ∷ join (h ∷ gs)

-- The string that is made of two fingerprints in their order.
unfoldable pub joined_groups : List ℕ → List ℕ → Result ProtocolError (List ℕ)
joined_groups first second = do
  groups ← digit_groups first
  more ← digit_groups second
  ok (join (groups ++ more))

module _ (sha256 : Sha256) where
  -- The result is `ok` or, where an array or a slice has the wrong size, a panic.
  unfoldable pub safety_number :
      List ℕ → E2ePublicKey → List ℕ → E2ePublicKey → Result ProtocolError (List ℕ)
  safety_number local_id local_key remote_id remote_key =
      let local_fingerprint = compute_fingerprint sha256 local_id local_key in
      let remote_fingerprint = compute_fingerprint sha256 remote_id remote_key in
      if str_le local_id remote_id
      then joined_groups local_fingerprint remote_fingerprint
      else joined_groups remote_fingerprint local_fingerprint

-- `==` of two keys, as it is derived.
unfoldable pub key_eq : E2ePublicKey → E2ePublicKey → Bool
unfolding bytes_eq
key_eq a b =
    bytes_eq a.x25519_public b.x25519_public
    && bytes_eq a.ml_kem_ek b.ml_kem_ek
    && bytes_eq a.dsa_verifying_key b.dsa_verifying_key

unfoldable pub verify_key_unchanged :
    List ℕ → E2ePublicKey → E2ePublicKey → Result ProtocolError (Unit {0})
unfolding key_eq
verify_key_unchanged identifier pinned fetched =
    if key_eq pinned fetched then ok tt else err (identity_key_changed identifier)
