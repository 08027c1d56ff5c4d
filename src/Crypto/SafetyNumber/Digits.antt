-- ===== src/Crypto/SafetyNumber/Digits.antt =====
-- The form of a safety number, src/crypto/safety_number.rs.
use chatix_protocol.Base.{
  ◌-◌, ◌*◌, ◌∙◌, ap, ◌≤◌, take-append-drop, drop, take, refl, ℕ, zero, suc, ◌+◌, ◌/◌, ◌%◌, ◌^◌, ◌<◌,
  ◌≡◌, inl, inr, arith, List, [], ◌∷◌, ◌++◌, ok, All, All-append, Bool-cases, length, length-append,
  length-take, length-drop, length-replicate, replicate, ltb, lt→ltb, Result, slice_to-ok,
  from_be_bytes,
}
use chatix_protocol.Error.{ProtocolError}
use chatix_protocol.Payloads.E2eKey.{E2ePublicKey}
use chatix_protocol.Crypto.Primitives.{Sha256, IsSha256}
use chatix_protocol.Crypto.SafetyNumber.{
  str_le, safety_number, compute_fingerprint, rehash, digit_groups, digit_group, map_groups, join,
  joined_groups, decimal, format_05, chunks_of_5, digit_source_len, fingerprint_iterations,
  serialize_public_key,
}

-- A decimal digit in ASCII.
abbrev pub IsDigit : ℕ → Type 0
IsDigit c = (48 ≤ c) × (c ≤ 57)

decimal-digits : (k v : ℕ) → All IsDigit (decimal k v)
unfolding decimal
decimal-digits zero v = tt
decimal-digits (suc k) v = elim (Bool-cases (ltb v 10)) [
  | inl y ↦ rw y ((omega arith, ground arith), tt)
  | inr y ↦ rw y (
      All-append IsDigit (decimal k (v / 10)) _ (decimal-digits k (v / 10))
        ((omega arith, omega arith), tt))
]

-- The number that some digits write.
abbrev read_digits : ℕ → List ℕ → ℕ
read_digits n [] = n
read_digits n (c ∷ cs) = read_digits (n * 10 + (c - 48)) cs

read_digits-append :
    (n : ℕ) (xs : List ℕ) (c : ℕ) → read_digits n (xs ++ c ∷ []) ≡ read_digits n xs * 10 + (c - 48)
read_digits-append n [] c = refl
read_digits-append n (x ∷ xs) c = read_digits-append (n * 10 + (x - 48)) xs c

-- The bound on the digits is enough: 20 of them write every value below 10^20, and so every `u64`.
decimal-read : (k v : ℕ) → v < 10 ^ k → read_digits 0 (decimal k v) ≡ v
unfolding decimal
decimal-read zero v h = omega arith
decimal-read (suc k) v h = elim (Bool-cases (ltb v 10)) [
  | inl y ↦ rw y (omega arith)
  | inr y ↦ rw y (
      omega (
        arith,
        read_digits-append 0 (decimal k (v / 10)) (48 + v % 10),
        decimal-read k (v / 10) (omega arith),
      ))
]

-- A value below a power of ten has no more digits than the power.
decimal-length : (k n v : ℕ) → v < 10 ^ suc n → length (decimal k v) ≤ suc n
unfolding decimal
decimal-length zero n v h = omega arith
decimal-length (suc k) zero v h = rw (lt→ltb v 10 (omega arith)) (omega arith)
decimal-length (suc k) (suc n) v h = elim (Bool-cases (ltb v 10)) [
  | inl y ↦ rw y (omega arith)
  | inr y ↦ rw y (
      omega (
        arith,
        decimal-length k n (v / 10) (omega arith),
        length-append (decimal k (v / 10)) ((48 + v % 10) ∷ []),
      ))
]

format_05-length : (v : ℕ) → v < 100000 → length (format_05 v) ≡ 5
unfolding format_05
format_05-length v h = omega (
  arith,
  decimal-length 20 4 v h,
  length-append (replicate (5 - length (decimal 20 v)) 48) (decimal 20 v),
  length-replicate {A = ℕ} (5 - length (decimal 20 v)) 48,
)

zeros-digits : (n : ℕ) → All IsDigit (replicate n 48)
zeros-digits zero = tt
zeros-digits (suc n) = ((omega arith, omega arith), zeros-digits n)

-- Five digits.
abbrev pub IsGroup : List ℕ → Type 0
IsGroup g = (length g ≡ 5) × All IsDigit g

format_05-IsGroup : (v : ℕ) → v < 100000 → IsGroup (format_05 v)
unfolding format_05
format_05-IsGroup v h = (
  format_05-length v h,
  All-append IsDigit _ (decimal 20 v) (zeros-digits _) (decimal-digits 20 v),
)

chunks_of_5-whole :
    (n k : ℕ) (bytes : List ℕ)
    → length bytes ≡ n * 5
    → n ≤ k
    → (length (chunks_of_5 k bytes) ≡ n) × All (λ c. length c ≡ 5) (chunks_of_5 k bytes)
unfolding chunks_of_5
chunks_of_5-whole zero zero bytes h le = (refl, tt)
chunks_of_5-whole zero (suc k) [] h le = (refl, tt)
chunks_of_5-whole zero (suc k) (b ∷ bytes) h le = absurd (omega arith)
chunks_of_5-whole (suc n) zero bytes h le = absurd (omega arith)
chunks_of_5-whole (suc n) (suc k) [] h le = absurd (omega arith)
chunks_of_5-whole (suc n) (suc k) (b ∷ bytes) h le =
    let (count, whole) =
      chunks_of_5-whole n k (drop 5 (b ∷ bytes)) (omega (arith, length-drop 5 (b ∷ bytes)))
        (omega arith) in
    (omega arith, (omega (arith, length-take 5 (b ∷ bytes)), whole))

abbrev joined_chunks : List (List ℕ) → List ℕ
joined_chunks [] = []
joined_chunks (c ∷ cs) = c ++ joined_chunks cs

-- As many chunks as bytes are enough: nothing is left over.
chunks_of_5-joined :
    (k : ℕ) (bytes : List ℕ) → length bytes ≤ k → joined_chunks (chunks_of_5 k bytes) ≡ bytes
unfolding chunks_of_5
chunks_of_5-joined zero [] h = refl
chunks_of_5-joined zero (b ∷ bytes) h = absurd (omega arith)
chunks_of_5-joined (suc k) [] h = refl
chunks_of_5-joined (suc k) (b ∷ bytes) h =
    let rest = drop 5 (b ∷ bytes) in
    let fewer : length rest ≤ k = omega (arith, length-drop 5 (b ∷ bytes)) in
    ap (λ xs. take 5 (b ∷ bytes) ++ xs) (chunks_of_5-joined k rest fewer)
    ∙ take-append-drop 5 (b ∷ bytes)

digit_group-IsGroup :
    (chunk : List ℕ) → length chunk ≡ 5 → (g : List ℕ) × (digit_group chunk ≡ ok g) × IsGroup g
unfolding digit_group
digit_group-IsGroup chunk h =
    let v = from_be_bytes (replicate 3 0 ++ chunk) % 100000 in
    (format_05 v, ground arith, format_05-IsGroup v (omega arith))

map_groups-IsGroup :
    (cs : List (List ℕ))
    → All (λ c. length c ≡ 5) cs
    → (gs : List (List ℕ)) × (map_groups cs ≡ ok gs) × (length gs ≡ length cs) × All IsGroup gs
unfolding map_groups
map_groups-IsGroup [] h = ([], refl, refl, tt)
map_groups-IsGroup (c ∷ cs) (h, hs) =
    let (g, e, is_group) = digit_group-IsGroup c h in
    let (gs, es, count, are_groups) = map_groups-IsGroup cs hs in
    (g ∷ gs, rw (e, es) refl, ap suc count, (is_group, are_groups))

digit_groups-six :
    (fingerprint : List ℕ)
    → length fingerprint ≡ 32
    → (gs : List (List ℕ)) × (digit_groups fingerprint ≡ ok gs) × (length gs ≡ 6) × All IsGroup gs
unfolding digit_groups
digit_groups-six f h =
    let source = take digit_source_len f in
    let size : length source ≡ 30 = omega (arith, length-take digit_source_len f) in
    let (count, whole) = chunks_of_5-whole 6 (length source) source (omega arith) (omega arith) in
    let (gs, e, same, groups) = map_groups-IsGroup (chunks_of_5 (length source) source) whole in
    (
      gs,
      rw (slice_to-ok {E = ProtocolError} f digit_source_len (omega arith)) e,
      omega arith,
      groups,
    )

-- Groups of five digits, and a space between any two of them.
join-length :
    (gs : List (List ℕ)) (n : ℕ) → length gs ≡ suc n → All IsGroup gs → length (join gs) ≡ n * 6 + 5
unfolding join
join-length [] n h groups = absurd (omega arith)
join-length (g ∷ []) n h (group, _) = omega (arith, group.0)
join-length (g ∷ k ∷ gs) zero h groups = absurd (omega arith)
join-length (g ∷ k ∷ gs) (suc n) h (group, groups) = omega (
  arith,
  group.0,
  join-length (k ∷ gs) n (omega arith) groups,
  length-append g (b' ' ∷ join (k ∷ gs)),
)

-- What a safety number looks like: twelve groups of five digits.
abbrev pub HasForm : Result ProtocolError (List ℕ) → Type 0
HasForm number =
    (gs : List (List ℕ)) × (number ≡ ok (join gs))
    × (length gs ≡ 12)
    × All IsGroup gs
    × (length (join gs) ≡ 71)

joined_groups-HasForm :
    (first second : List ℕ)
    → length first ≡ 32
    → length second ≡ 32
    → HasForm (joined_groups first second)
unfolding joined_groups
joined_groups-HasForm first second h k =
    let (gs, e, six, are_groups) = digit_groups-six first h in
    let (more, e', six', more_groups) = digit_groups-six second k in
    let count : length (gs ++ more) ≡ 12 = omega (arith, length-append gs more) in
    let groups = All-append IsGroup gs more are_groups more_groups in
    (gs ++ more, rw (e, e') refl, count, groups, join-length (gs ++ more) 11 count groups)

module _ (sha256 : Sha256) (is_sha256 : IsSha256 sha256) where
  rehash-length :
      (n : ℕ) (identifier key_bytes d : List ℕ)
      → length d ≡ 32
      → length (rehash sha256 n identifier key_bytes d) ≡ 32
  unfolding rehash
  rehash-length zero identifier key_bytes d h = h
  rehash-length (suc n) identifier key_bytes d h =
      rehash-length n identifier key_bytes _ (is_sha256.digest_array _).size

  compute_fingerprint-length :
      (identifier : List ℕ) (key : E2ePublicKey)
      → length (compute_fingerprint sha256 identifier key) ≡ 32
  unfolding compute_fingerprint
  compute_fingerprint-length identifier key =
      rehash-length fingerprint_iterations identifier (serialize_public_key key) _
        (is_sha256.digest_array _).size

  -- With a SHA-256 whose digests are 32 bytes, computing a safety number does not panic: no slice
  -- of a fingerprint is out of range, and every chunk has the five bytes that are copied. The
  -- number is 12 groups of exactly five decimal digits, joined by spaces, 71 characters in all.
  pub safety_number-HasForm :
      (a : List ℕ) (ka : E2ePublicKey) (b : List ℕ) (kb : E2ePublicKey)
      → HasForm (safety_number sha256 a ka b kb)
  unfolding safety_number
  safety_number-HasForm a ka b kb =
      let f = compute_fingerprint-length a ka in
      let g = compute_fingerprint-length b kb in
      elim (Bool-cases (str_le a b)) [
        | inl e ↦ rw e (joined_groups-HasForm _ _ f g)
        | inr e ↦ rw e (joined_groups-HasForm _ _ g f)
      ]
