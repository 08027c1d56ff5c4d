-- ===== src/Header/Inverse.antt =====
-- Every array of 24 bytes is the bytes of the header that is read from it.
use chatix_protocol.Base.{
  ℕ, ◌+◌, ◌≡◌, refl, ap, ◌∙◌, arith, List, [], ◌∷◌, ◌++◌, length, take, drop, take-append-drop,
  take-append, length-take, length-drop, All-take, All-drop, IsByte, IsArray, to_be_bytes,
  from_be_bytes, to_be_bytes-from_be_bytes, from_be_bytes-lt,
}
use mathlib.Core.List.{append-nil}
use chatix_protocol.Header.{to_bytes, from_bytes}
use chatix_protocol.Header.Layout.{IsHeader}

take_all : (n : ℕ) (xs : List ℕ) → length xs ≡ n → take n xs ≡ xs
take_all n xs h = rw (← h) (rw (append-nil xs) at (take-append xs []))

-- An integer of `k` bytes at the front of some bytes.
front :
    (k : ℕ) (xs : List ℕ) (n : ℕ)
    → IsArray (k + n) xs
    → IsArray k (take k xs)
      × IsArray n (drop k xs)
      × (to_be_bytes k (from_be_bytes (take k xs)) ++ drop k xs ≡ xs)
front k xs n v =
    let first : IsArray k (take k xs) = record {
      size = omega (arith, length-take k xs, v.size);
      bytes = All-take IsByte k xs v.bytes;
    } in
    (
      first,
      record {
        size = omega (arith, length-drop k xs, v.size);
        bytes = All-drop IsByte k xs v.bytes;
      },
      ap (λ ys. ys ++ drop k xs) (to_be_bytes-from_be_bytes k (take k xs) first)
          ∙ take-append-drop k xs,
    )

fields :
    (a b c d e f g h i j k l : ℕ) (ys : List ℕ)
    → (let bytes = a ∷ b ∷ c ∷ d ∷ e ∷ f ∷ g ∷ h ∷ i ∷ j ∷ k ∷ l ∷ ys in
        IsArray 24 bytes → (to_bytes (from_bytes bytes) ≡ bytes) × IsHeader (from_bytes bytes))
unfolding to_bytes from_bytes
fields a b c d e f g h i j k l ys v =
    let (ha, (hb, (hc, (hd, (he, (hf, (hg, (hh, (hi, (hj, (hk, (hl, hys)))))))))))) = v.bytes in
    let len : IsArray 4 (i ∷ j ∷ k ∷ l ∷ []) = record {
      size = refl;
      bytes = (hi, (hj, (hk, (hl, tt))));
    } in
    let (seq, res, whole) = front 8 ys 4 (record { size = omega (arith, v.size); bytes = hys }) in
    let last : to_be_bytes 4 (from_be_bytes (drop 8 ys)) ≡ drop 8 ys =
      to_be_bytes-from_be_bytes 4 (drop 8 ys) res in
    let all : take 4 (drop 8 ys) ≡ drop 8 ys = take_all 4 (drop 8 ys) res.size in
    (
      rw (to_be_bytes-from_be_bytes 4 (i ∷ j ∷ k ∷ l ∷ []) len, all, last, whole),
      record {
        magic = record { size = refl; bytes = (ha, (hb, (hc, (hd, tt)))) };
        version = he;
        packet_type = hf;
        flags = hg;
        header_len = hh;
        payload_len = from_be_bytes-lt 4 (i ∷ j ∷ k ∷ l ∷ []) len;
        sequence = from_be_bytes-lt 8 (take 8 ys) seq;
        reserved = rw all (from_be_bytes-lt 4 (drop 8 ys) res);
      },
    )

-- Every array of 24 bytes is given back by writing the header that is read from it, and the
-- fields of that header are in the ranges of their types.
pub to_bytes-from_bytes :
    (bytes : List ℕ)
    → IsArray 24 bytes
    → (to_bytes (from_bytes bytes) ≡ bytes) × IsHeader (from_bytes bytes)
to_bytes-from_bytes (a ∷ b ∷ c ∷ d ∷ e ∷ f ∷ g ∷ h ∷ i ∷ j ∷ k ∷ l ∷ ys) v =
    fields a b c d e f g h i j k l ys v
to_bytes-from_bytes _ v = absurd (omega (arith, v.size))
