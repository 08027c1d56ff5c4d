-- ===== src/Base/Slices.antt =====
-- Slices and indices of byte strings, which panic out of range.
use Prim.Native.Nat.{ℕ, ◌+◌, ◌-◌, ◌≤◌, ◌<◌}
use mathlib.Core.Path.{◌≡◌, ap}
use mathlib.Core.Logic.{◌≢◌}
use mathlib.Core.Bool.{◌&&◌}
use mathlib.Core.Option.{Option, none, some}
use mathlib.Core.List.{List, ◌∷◌, ◌++◌}
use native.Mathlib.Omega.{arith}
use chatix_protocol.Base.Tests.{leb, le→leb, if◌then◌else◌}
use chatix_protocol.Base.Lists.{
  length, get_elem?, take, drop, take-append, drop-append, get_elem?-append, get_elem?-lt,
  length-append,
}
use chatix_protocol.Base.Outcome.{Result, ok, panic}

abbrev or_panic {ℓ κ} : {E : Type ℓ} {A : Type κ} → Option A → Result E A
or_panic none = panic
or_panic (some a) = ok a

module _ {ℓ} {E : Type ℓ} where
  -- `bytes[i]`
  unfoldable pub index : List ℕ → ℕ → Result E ℕ
  index bytes i = or_panic (get_elem? bytes i)

  -- `&bytes[..n]`
  unfoldable pub slice_to : List ℕ → ℕ → Result E (List ℕ)
  slice_to bytes n = if leb n (length bytes) then ok (take n bytes) else panic

  -- `&bytes[n..]`
  unfoldable pub slice_from : List ℕ → ℕ → Result E (List ℕ)
  slice_from bytes n = if leb n (length bytes) then ok (drop n bytes) else panic

  -- `&bytes[a..b]`
  unfoldable pub slice : List ℕ → ℕ → ℕ → Result E (List ℕ)
  slice bytes a b =
      if leb a b && leb b (length bytes) then ok (take (b - a) (drop a bytes)) else panic

  pub index-append :
      (xs : List ℕ) (y : ℕ) (ys : List ℕ) (i : ℕ) → length xs ≡ i → index (xs ++ y ∷ ys) i ≡ ok y
  unfolding index
  index-append xs y ys i h = rw (← h, index, get_elem?-append xs y ys)

  pub slice_to-append : (xs ys : List ℕ) (n : ℕ) → length xs ≡ n → slice_to (xs ++ ys) n ≡ ok xs
  unfolding slice_to
  slice_to-append xs ys n h = rw (← h) (
      rw (
        le→leb (length xs) (length (xs ++ ys)) (omega (arith, length-append xs ys)),
        take-append xs ys,
      ))

  pub slice_from-append : (xs ys : List ℕ) (n : ℕ) → length xs ≡ n → slice_from (xs ++ ys) n ≡ ok ys
  unfolding slice_from
  slice_from-append xs ys n h = rw (← h) (
      rw (
        le→leb (length xs) (length (xs ++ ys)) (omega (arith, length-append xs ys)),
        drop-append xs ys,
      ))

  pub slice-append :
      (xs ys zs : List ℕ) (a b : ℕ)
      → length xs ≡ a
      → a + length ys ≡ b
      → slice (xs ++ (ys ++ zs)) a b ≡ ok ys
  unfolding slice
  slice-append xs ys zs a b ha hb = rw (
    le→leb a b (omega arith),
    le→leb b (length (xs ++ (ys ++ zs)))
        (omega (arith, length-append xs (ys ++ zs), length-append ys zs)),
    ← ha,
    drop-append xs (ys ++ zs),
    width,
    take-append ys zs,
  )
    where
      width : b - length xs ≡ length ys
      width = omega arith

  -- In range nothing panics.
  pub index-ok : (bytes : List ℕ) (i : ℕ) → i < length bytes → (b : ℕ) × (index bytes i ≡ ok b)
  unfolding index
  index-ok bytes i h = let (b, e) = get_elem?-lt bytes i h in (b, ap or_panic e)

  pub index-ne-panic : (bytes : List ℕ) (i : ℕ) → i < length bytes → index bytes i ≢ panic
  index-ne-panic bytes i h = let (b, e) = index-ok bytes i h in cc

  pub slice_to-ok :
      (bytes : List ℕ) (n : ℕ) → n ≤ length bytes → slice_to bytes n ≡ ok (take n bytes)
  unfolding slice_to
  slice_to-ok bytes n h = rw (le→leb n (length bytes) h)

  pub slice_from-ok :
      (bytes : List ℕ) (n : ℕ) → n ≤ length bytes → slice_from bytes n ≡ ok (drop n bytes)
  unfolding slice_from
  slice_from-ok bytes n h = rw (le→leb n (length bytes) h)

  pub slice-ok :
      (bytes : List ℕ) (a b : ℕ)
      → a ≤ b
      → b ≤ length bytes
      → slice bytes a b ≡ ok (take (b - a) (drop a bytes))
  unfolding slice
  slice-ok bytes a b h k = rw (le→leb a b h, le→leb b (length bytes) k)

  pub slice_to-ne-panic : (bytes : List ℕ) (n : ℕ) → n ≤ length bytes → slice_to bytes n ≢ panic
  slice_to-ne-panic bytes n h = let e = slice_to-ok bytes n h in cc

  pub slice_from-ne-panic : (bytes : List ℕ) (n : ℕ) → n ≤ length bytes → slice_from bytes n ≢ panic
  slice_from-ne-panic bytes n h = let e = slice_from-ok bytes n h in cc

  pub slice-ne-panic :
      (bytes : List ℕ) (a b : ℕ) → a ≤ b → b ≤ length bytes → slice bytes a b ≢ panic
  slice-ne-panic bytes a b h k = let e = slice-ok bytes a b h k in cc
