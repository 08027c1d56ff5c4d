-- ===== src/Tests/Cipher.antt =====
-- A toy cipher, which is no cipher at all but has the laws that the codec relies on: it appends a tag of
-- 16 bytes that depends on the key, the nonce, the associated data and the text.
use chatix_protocol.Base.{
  ℕ, ◌+◌, ◌-◌, ◌%◌, ◌≡◌, refl, arith, ◌&&◌, List, [], ◌∷◌, ◌++◌, Option, none, some, ◌==◌, leb,
  if◌then◌else◌, length, take, replicate, bytes_eq, bytes_eq_iff, length-append, take-append,
}
use chatix_protocol.Codec.Interfaces.{Aead, IsAead, OpensOnlySealed, max_sealed_len}

abbrev pub sum : List ℕ → ℕ
sum [] = 0
sum (x ∷ xs) = x + sum xs

abbrev pub tag : List ℕ → List ℕ → List ℕ → List ℕ → List ℕ
tag key nonce aad text = replicate 16 ((sum key + sum nonce + sum aad + sum text) % 256)

unfoldable pub seal : List ℕ → List ℕ → List ℕ → List ℕ → Option (List ℕ)
seal key nonce aad text =
    if leb (length text) max_sealed_len then some (text ++ tag key nonce aad text) else none

unfoldable pub open_text : List ℕ → List ℕ → List ℕ → List ℕ → Option (List ℕ)
unfolding bytes_eq
open_text key nonce aad sealed =
    let text = take (length sealed - 16) sealed in
    if leb (length text) max_sealed_len && bytes_eq (text ++ tag key nonce aad text) sealed
    then some text
    else none

unfoldable pub bind_key : List ℕ → Option (List ℕ)
bind_key k = if length k == 32 then some k else none

abbrev pub toy : Aead
toy = record {
  Key = List ℕ;
  unbound_key = bind_key;
  seal_in_place_append_tag = seal;
  open_in_place = open_text;
}

length-tag : (key nonce aad text : List ℕ) → length (tag key nonce aad text) ≡ 16
length-tag key nonce aad text = refl

taken :
    (text end : List ℕ) → length end ≡ 16 → take (length (text ++ end) - 16) (text ++ end) ≡ text
taken text end h =
    let n : length (text ++ end) - 16 ≡ length text = omega (arith, length-append text end) in
    rw n (take-append text end)

pub toy-IsAead : IsAead toy
unfolding seal open_text bind_key
toy-IsAead = record {
  key_ok = λ k h. (k, ground arith);
  seal_ok = λ key nonce aad text h. (text ++ tag key nonce aad text, ground arith);
  length_seal = λ key nonce aad text {sealed} e.
      ground (arith, length-append text (tag key nonce aad text), length-tag key nonce aad text);
  open_seal = λ key nonce aad text {sealed} e.
      let same = taken text (tag key nonce aad text) (length-tag key nonce aad text) in
      ground (arith, same, bytes_eq_iff sealed sealed);
}

pub toy-OpensOnlySealed : OpensOnlySealed toy
unfolding seal open_text
toy-OpensOnlySealed = record {
  open_sound = λ key nonce aad sealed {text} e. ground (
    arith,
    bytes_eq_iff
        (take (length sealed - 16) sealed ++ tag key nonce aad (take (length sealed - 16) sealed))
        sealed,
  );
}
