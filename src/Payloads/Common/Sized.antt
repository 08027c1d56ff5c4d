-- ===== src/Payloads/Common/Sized.antt =====
-- The two length-prefixed formats: how they are written, read back, and that reading never panics.
use chatix_protocol.Base.{
  slice_from, slice_from-append, ◌∙◌, ℕ, ◌+◌, ◌≤◌, ◌<◌, ◌^◌, ◌≡◌, ◌≢◌, refl, arith, List, [], ◌∷◌,
  ◌++◌, ok, panic, length, length-append, to_be_bytes, from_be_bytes, length-to_be_bytes,
  from_be_bytes-to_be_bytes, slice-append, slice-ok, index,
}
use chatix_protocol.Payloads.Common.{
  encode_sized_string, decode_sized_string, encode_sized_bytes, decode_sized_bytes,
}
use mathlib.Core.List.{append-nil}
use chatix_protocol.Error.{IoError}
use chatix_protocol.Payloads.Common.Utf8.{IsText, from_utf8}

-- A byte string behind its length in two bytes, and in four.
abbrev pub sized_string : List ℕ → List ℕ
sized_string s = to_be_bytes 2 (length s) ++ s

abbrev pub sized_bytes : List ℕ → List ℕ
sized_bytes bs = to_be_bytes 4 (length bs) ++ bs

pub encode_sized_string-ok :
    (s : List ℕ) → length s ≤ 65535 → encode_sized_string s ≡ ok (sized_string s)
unfolding encode_sized_string
encode_sized_string-ok s h = ground arith

pub encode_sized_bytes-ok :
    (bs : List ℕ) → length bs < 2 ^ 32 → encode_sized_bytes bs ≡ ok (sized_bytes bs)
unfolding encode_sized_bytes
encode_sized_bytes-ok bs h = ground arith

two_bytes : (xs : List ℕ) → length xs ≡ 2 → (a b : ℕ) × (xs ≡ a ∷ b ∷ [])
two_bytes (a ∷ b ∷ []) h = (a, b, refl)
two_bytes [] h = absurd (omega arith)
two_bytes (a ∷ []) h = absurd (omega arith)
two_bytes (a ∷ b ∷ c ∷ xs) h = absurd (omega arith)

four_bytes : (xs : List ℕ) → length xs ≡ 4 → (a b c d : ℕ) × (xs ≡ a ∷ b ∷ c ∷ d ∷ [])
four_bytes (a ∷ b ∷ c ∷ d ∷ []) h = (a, b, c, d, refl)
four_bytes [] h = absurd (omega arith)
four_bytes (a ∷ []) h = absurd (omega arith)
four_bytes (a ∷ b ∷ []) h = absurd (omega arith)
four_bytes (a ∷ b ∷ c ∷ []) h = absurd (omega arith)
four_bytes (a ∷ b ∷ c ∷ d ∷ e ∷ xs) h = absurd (omega arith)

decode_after_prefix :
    (a b : ℕ) (s rest : List ℕ)
    → from_be_bytes (a ∷ b ∷ []) ≡ length s
    → length s ≤ 65535
    → IsText s
    → decode_sized_string (a ∷ b ∷ (s ++ rest)) ≡ ok (s, 2 + length s)
unfolding decode_sized_string from_utf8 index
decode_after_prefix a b s rest n h t = ground (
  arith,
  length-append s rest,
  slice-append {E = IoError} (a ∷ b ∷ []) s rest 2 (2 + length s),
  t.utf8,
)

-- A string is read back, whatever follows it.
pub decode_sized_string-append :
    (s rest : List ℕ)
    → IsText s
    → length s ≤ 65535
    → decode_sized_string (sized_string s ++ rest) ≡ ok (s, 2 + length s)
decode_sized_string-append s rest t h =
    let (a, b, e) = two_bytes (to_be_bytes 2 (length s)) (length-to_be_bytes 2 (length s)) in
    rw e (
      decode_after_prefix a b s rest
        (rw e at (from_be_bytes-to_be_bytes 2 (length s) (omega arith))) h t)

decode_bytes_after_prefix :
    (a b c d : ℕ) (bs rest : List ℕ)
    → from_be_bytes (a ∷ b ∷ c ∷ d ∷ []) ≡ length bs
    → length bs < 2 ^ 32
    → decode_sized_bytes (a ∷ b ∷ c ∷ d ∷ (bs ++ rest)) ≡ ok (bs, 4 + length bs)
unfolding decode_sized_bytes index
decode_bytes_after_prefix a b c d bs rest n h = ground (
  arith,
  length-append bs rest,
  slice-append {E = IoError} (a ∷ b ∷ c ∷ d ∷ []) bs rest 4 (4 + length bs),
)

pub decode_sized_bytes-append :
    (bs rest : List ℕ)
    → length bs < 2 ^ 32
    → decode_sized_bytes (sized_bytes bs ++ rest) ≡ ok (bs, 4 + length bs)
decode_sized_bytes-append bs rest h =
    let (a, b, c, d, e) =
      four_bytes (to_be_bytes 4 (length bs)) (length-to_be_bytes 4 (length bs)) in
    rw e (
      decode_bytes_after_prefix a b c d bs rest
        (rw e at (from_be_bytes-to_be_bytes 4 (length bs) (omega arith))) h)

-- Reading never panics, and what it consumes is there.
pub decode_sized_string-ne-panic : (bytes : List ℕ) → decode_sized_string bytes ≢ panic
unfolding decode_sized_string from_utf8 index
decode_sized_string-ne-panic [] = ground arith
decode_sized_string-ne-panic (a ∷ []) = ground arith
decode_sized_string-ne-panic (a ∷ b ∷ bs) =
    ground (arith, slice-ok {E = IoError} (a ∷ b ∷ bs) 2 (2 + from_be_bytes (a ∷ b ∷ [])))

pub decode_sized_bytes-ne-panic : (bytes : List ℕ) → decode_sized_bytes bytes ≢ panic
unfolding decode_sized_bytes index
decode_sized_bytes-ne-panic [] = ground arith
decode_sized_bytes-ne-panic (a ∷ []) = ground arith
decode_sized_bytes-ne-panic (a ∷ b ∷ []) = ground arith
decode_sized_bytes-ne-panic (a ∷ b ∷ c ∷ []) = ground arith
decode_sized_bytes-ne-panic (a ∷ b ∷ c ∷ d ∷ bs) =
    ground (
      arith,
      slice-ok {E = IoError} (a ∷ b ∷ c ∷ d ∷ bs) 4 (4 + from_be_bytes (a ∷ b ∷ c ∷ d ∷ [])),
    )

-- The contents of a string that a payload can carry.
pub record IsSizedString (s : List ℕ) : Type 0 where
  pub text : IsText s
  pub short : length s ≤ 65535

-- The facts on a string at the front of a payload, and on a string that is the whole payload.
module _ (s rest : List ℕ) where
  pub length-sized_string : length (sized_string s ++ rest) ≡ 2 + length s + length rest
  length-sized_string = omega (
    arith,
    length-append (sized_string s) rest,
    length-append (to_be_bytes 2 (length s)) s,
    length-to_be_bytes 2 (length s),
  )

  pub slice_from-sized_string :
      slice_from {E = IoError} (sized_string s ++ rest) (2 + length s) ≡ ok rest
  slice_from-sized_string =
      slice_from-append (sized_string s) rest (2 + length s)
        (omega (arith, length-append (to_be_bytes 2 (length s)) s, length-to_be_bytes 2 (length s)))

module _ (s : List ℕ) (v : IsSizedString s) where
  pub decode_sized_string-front :
      (rest : List ℕ) → decode_sized_string (sized_string s ++ rest) ≡ ok (s, 2 + length s)
  decode_sized_string-front rest = decode_sized_string-append s rest v.text v.short

  pub decode_sized_string-whole :
      (decode_sized_string (sized_string s) ≡ ok (s, 2 + length s))
      × (length (sized_string s) ≡ 2 + length s)
  decode_sized_string-whole =
      let e : sized_string s ++ [] ≡ sized_string s = append-nil (sized_string s) in
      (
        rw e at (decode_sized_string-append s [] v.text v.short),
        rw e at (length-sized_string s []) ∙ omega arith,
      )
