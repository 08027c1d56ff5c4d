-- ===== src/Payloads/Common/Inverse.antt =====
-- What a successful read of a length-prefixed format says of its input.
use chatix_protocol.Base.{
  ℕ, ◌+◌, ◌-◌, ◌≤◌, ◌<◌, ◌^◌, ◌≡◌, refl, ap, ◌∙◌, arith, List, [], ◌∷◌, ◌++◌, ok, true, length,
  take, drop, AreBytes, IsByte, IsArray, from_be_bytes, to_be_bytes-from_be_bytes, from_be_bytes-lt,
  slice-ok, index, take-append-drop, length-take, All-take, All-drop, ◌>>=◌, >>=-eq-ok, sym,
  length-append, subst, slice_from, slice_from-append, to_be_bytes, length-to_be_bytes,
}
use mathlib.Core.List.{append-nil, append_assoc}
use chatix_protocol.Error.{IoError, IoResult}
use chatix_protocol.Payloads.Common.{
  decode_sized_string, decode_sized_bytes, encode_sized_string, encode_sized_bytes,
}
use chatix_protocol.Payloads.Common.Utf8.{IsText, is_utf8, from_utf8}
use chatix_protocol.Payloads.Common.Sized.{
  sized_string, sized_bytes, IsSizedString, length-sized_string, encode_sized_string-ok,
  encode_sized_bytes-ok,
}

pub empty_of_length : (xs : List ℕ) → length xs ≡ 0 → xs ≡ []
empty_of_length [] h = refl
empty_of_length (x ∷ xs) h = absurd (omega arith)

-- The string `s` was read from the front of `bytes`, and `n` bytes were consumed.
pub record ReadString (bytes s : List ℕ) (n : ℕ) : Type 0 where
  pub rest : List ℕ
  pub split : bytes ≡ sized_string s ++ rest
  pub consumed : n ≡ 2 + length s
  pub short : length s ≤ 65535
  pub is_text : IsText s
  pub rest_bytes : AreBytes rest

pub record ReadBytes (bytes bs : List ℕ) (n : ℕ) : Type 0 where
  pub rest : List ℕ
  pub split : bytes ≡ sized_bytes bs ++ rest
  pub consumed : n ≡ 4 + length bs
  pub short : length bs < 2 ^ 32
  pub are_bytes : AreBytes bs
  pub rest_bytes : AreBytes rest

decoded_string_shape :
    (a b : ℕ) (bs s : List ℕ) (n : ℕ)
    → decode_sized_string (a ∷ b ∷ bs) ≡ ok (s, n)
    → (let l = from_be_bytes (a ∷ b ∷ []) in
        (l ≤ length bs) × (s ≡ take (2 + l - 2) bs) × (n ≡ 2 + l) × (is_utf8 s ≡ true))
unfolding decode_sized_string from_utf8 index
decoded_string_shape a b bs s n e =
    ground (arith, slice-ok {E = IoError} (a ∷ b ∷ bs) 2 (2 + from_be_bytes (a ∷ b ∷ [])))

pub decode_sized_string-ReadString :
    (bytes : List ℕ) {s : List ℕ} {n : ℕ}
    → AreBytes bytes
    → decode_sized_string bytes ≡ ok (s, n)
    → ReadString bytes s n
decode_sized_string-ReadString [] h e = absurd (unfold decode_sized_string in cc)
decode_sized_string-ReadString (a ∷ []) h e = absurd (unfold decode_sized_string in cc)
decode_sized_string-ReadString (a ∷ b ∷ bs) {s} {n} (ha, (hb, hbs)) e =
    let (fits, text, used, utf8) = decoded_string_shape a b bs s n e in
    let l = from_be_bytes (a ∷ b ∷ []) in
    let pair : IsArray 2 (a ∷ b ∷ []) = record { size = refl; bytes = (ha, (hb, tt)) } in
    let same : 2 + l - 2 ≡ l = omega arith in
    let text' : s ≡ take l bs = rw same at text in
    let size : length s ≡ l = ap length text' ∙ omega (arith, length-take l bs) in
    record {
      rest = drop l bs;
      split =
          rw (size, to_be_bytes-from_be_bytes 2 (a ∷ b ∷ []) pair, text', take-append-drop l bs);
      consumed = omega arith;
      short = omega (arith, from_be_bytes-lt 2 (a ∷ b ∷ []) pair);
      is_text = record { bytes = rw text' (All-take IsByte l bs hbs); utf8 = utf8 };
      rest_bytes = All-drop IsByte l bs hbs;
    }

decoded_bytes_shape :
    (a b c d : ℕ) (bs xs : List ℕ) (n : ℕ)
    → decode_sized_bytes (a ∷ b ∷ c ∷ d ∷ bs) ≡ ok (xs, n)
    → (let l = from_be_bytes (a ∷ b ∷ c ∷ d ∷ []) in
        (l ≤ length bs) × (xs ≡ take (4 + l - 4) bs) × (n ≡ 4 + l))
unfolding decode_sized_bytes index
decoded_bytes_shape a b c d bs xs n e =
    ground (
      arith,
      slice-ok {E = IoError} (a ∷ b ∷ c ∷ d ∷ bs) 4 (4 + from_be_bytes (a ∷ b ∷ c ∷ d ∷ [])),
    )

pub decode_sized_bytes-ReadBytes :
    (bytes : List ℕ) {xs : List ℕ} {n : ℕ}
    → AreBytes bytes
    → decode_sized_bytes bytes ≡ ok (xs, n)
    → ReadBytes bytes xs n
decode_sized_bytes-ReadBytes [] h e = absurd (unfold decode_sized_bytes in cc)
decode_sized_bytes-ReadBytes (a ∷ []) h e = absurd (unfold decode_sized_bytes in cc)
decode_sized_bytes-ReadBytes (a ∷ b ∷ []) h e = absurd (unfold decode_sized_bytes in cc)
decode_sized_bytes-ReadBytes (a ∷ b ∷ c ∷ []) h e = absurd (unfold decode_sized_bytes in cc)
decode_sized_bytes-ReadBytes (a ∷ b ∷ c ∷ d ∷ bs) {xs} {n} (ha, (hb, (hc, (hd, hbs)))) e =
    let (fits, text, used) = decoded_bytes_shape a b c d bs xs n e in
    let l = from_be_bytes (a ∷ b ∷ c ∷ d ∷ []) in
    let quad : IsArray 4 (a ∷ b ∷ c ∷ d ∷ []) = record {
      size = refl;
      bytes = (ha, (hb, (hc, (hd, tt))));
    } in
    let same : 4 + l - 4 ≡ l = omega arith in
    let text' : xs ≡ take l bs = rw same at text in
    let size : length xs ≡ l = ap length text' ∙ omega (arith, length-take l bs) in
    record {
      rest = drop l bs;
      split = rw (
        size,
        to_be_bytes-from_be_bytes 4 (a ∷ b ∷ c ∷ d ∷ []) quad,
        text',
        take-append-drop l bs,
      );
      consumed = omega arith;
      short = omega (arith, from_be_bytes-lt 4 (a ∷ b ∷ c ∷ d ∷ []) quad);
      are_bytes = rw text' (All-take IsByte l bs hbs);
      rest_bytes = All-drop IsByte l bs hbs;
    }

pub decode_sized_string-IsSizedString :
    (bytes : List ℕ) {s : List ℕ} {n : ℕ}
    → AreBytes bytes
    → decode_sized_string bytes ≡ ok (s, n)
    → IsSizedString s
decode_sized_string-IsSizedString bytes h e =
    let r = decode_sized_string-ReadString bytes h e in record { text = r.is_text; short = r.short }

-- A decoder that begins with a string reads bytes that begin with it.
pub decode_sized_string-front_inv :
    {A : Type 0} (bytes : List ℕ) (k : List ℕ × ℕ → IoResult A) {p : A}
    → AreBytes bytes
    → decode_sized_string bytes >>= k ≡ ok p
    → (s rest : List ℕ) × IsSizedString s × AreBytes rest × (bytes ≡ sized_string s ++ rest)
decode_sized_string-front_inv bytes k h e =
    let ((s, n), d, e') = >>=-eq-ok (decode_sized_string bytes) k e in
    let r = decode_sized_string-ReadString bytes h d in
    (s, r.rest, record { text = r.is_text; short = r.short }, r.rest_bytes, r.split)

-- A string that takes all the bytes is encoded as those bytes.
pub decode_sized_string-whole_inv :
    (bytes : List ℕ) {s : List ℕ} {n : ℕ}
    → AreBytes bytes
    → decode_sized_string bytes ≡ ok (s, n)
    → (n ≤ 65537) × (length bytes ≡ n → encode_sized_string s ≡ ok bytes)
decode_sized_string-whole_inv bytes {s} {n} h e =
    let r = decode_sized_string-ReadString bytes h e in
    (
      omega (arith, r.consumed, r.short),
      λ whole.
          let empty : r.rest ≡ [] =
            empty_of_length r.rest
              (omega (arith, ap length r.split, length-sized_string s r.rest, r.consumed)) in
          encode_sized_string-ok s r.short
          ∙ ap ok (sym (r.split ∙ rw empty (append-nil (sized_string s)))),
    )

pub decode_sized_bytes-whole_inv :
    (bytes : List ℕ) {xs : List ℕ} {n : ℕ}
    → AreBytes bytes
    → decode_sized_bytes bytes ≡ ok (xs, n)
    → (n < 2 ^ 32 + 4) × (length bytes ≡ n → encode_sized_bytes xs ≡ ok bytes)
decode_sized_bytes-whole_inv bytes {xs} {n} h e =
    let r = decode_sized_bytes-ReadBytes bytes h e in
    (
      omega (arith, r.consumed, r.short),
      λ whole.
          let empty : r.rest ≡ [] = empty_of_length r.rest (
            omega (
              arith,
              ap length r.split,
              length-append (sized_bytes xs) r.rest,
              length-append (to_be_bytes 4 (length xs)) xs,
              length-to_be_bytes 4 (length xs),
              r.consumed,
            )) in
          encode_sized_bytes-ok xs r.short
          ∙ ap ok (sym (r.split ∙ rw empty (append-nil (sized_bytes xs)))),
    )

pub from_be_bytes_small :
    (bytes : List ℕ) → AreBytes bytes → length bytes ≡ 8 → from_be_bytes bytes < 2 ^ 64
from_be_bytes_small bytes h n =
    omega (arith, from_be_bytes-lt 8 bytes (record { size = n; bytes = h }))

pub to_be_bytes_inv :
    (bytes : List ℕ)
    → AreBytes bytes
    → length bytes ≡ 8
    → to_be_bytes 8 (from_be_bytes bytes) ≡ bytes
to_be_bytes_inv bytes h n = to_be_bytes-from_be_bytes 8 bytes (record { size = n; bytes = h })

-- The first `n` bytes, and the others.
pub split_front :
    (n : ℕ) (bytes : List ℕ)
    → AreBytes bytes
    → n ≤ length bytes
    → (front after : List ℕ) × IsArray n front × AreBytes after × (bytes ≡ front ++ after)
split_front n bytes h fits = (
  take n bytes,
  drop n bytes,
  record { size = omega (arith, length-take n bytes); bytes = All-take IsByte n bytes h },
  All-drop IsByte n bytes h,
  sym (take-append-drop n bytes),
)

-- The facts on a string that stands behind `k` bytes.
module _ (front s rest : List ℕ) (k : ℕ) (size : length front ≡ k) where
  pub length-string_after :
      length (front ++ (sized_string s ++ rest)) ≡ k + (2 + length s) + length rest
  length-string_after =
      omega (arith, length-append front (sized_string s ++ rest), length-sized_string s rest)

  pub slice_from-string_after :
      slice_from {E = IoError} (front ++ (sized_string s ++ rest)) (k + (2 + length s)) ≡ ok rest
  slice_from-string_after = rw (← append_assoc front (sized_string s) rest) (
      slice_from-append (front ++ sized_string s) rest (k + (2 + length s)) (
        omega (
          arith,
          length-append front (sized_string s),
          length-append (to_be_bytes 2 (length s)) s,
          length-to_be_bytes 2 (length s),
        )))

-- Bytes that are the encoding of a payload which is read back are decoded to no other payload.
pub encoded_inv :
    {P : Type 0} (encode : P → IoResult (List ℕ)) (decode : List ℕ → IoResult P) (q p : P)
    (bytes : List ℕ) (IsValid : P → Type 0)
    → IsValid q
    → encode q ≡ ok bytes
    → (encode q >>= decode) ≡ ok q
    → decode bytes ≡ ok p
    → IsValid p × (encode p ≡ ok bytes)
encoded_inv encode decode q p bytes IsValid valid written read e =
    let same : ok q ≡ decode bytes = sym read ∙ ap (λ m. m >>= decode) written in
    let equal : q ≡ p = cc in subst (λ r. IsValid r × (encode r ≡ ok bytes)) equal (valid, written)

pub encoded_bytes_inv :
    {P : Type 0} (encode : P → List ℕ) (decode : List ℕ → IoResult P) (q p : P) (bytes : List ℕ)
    (IsValid : P → Type 0)
    → IsValid q
    → bytes ≡ encode q
    → decode (encode q) ≡ ok q
    → decode bytes ≡ ok p
    → IsValid p × (encode p ≡ bytes)
encoded_bytes_inv encode decode q p bytes IsValid valid written read e =
    let same : ok q ≡ decode bytes = sym read ∙ ap decode (sym written) in
    let equal : q ≡ p = cc in subst (λ r. IsValid r × (encode r ≡ bytes)) equal (valid, sym written)
