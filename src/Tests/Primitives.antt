-- ===== src/Tests/Primitives.antt =====
-- Toy primitives, which keep no secret at all but have the laws that the crate relies on.
use chatix_protocol.Base.{
  ℕ, ◌+◌, ◌-◌, ◌*◌, ◌%◌, refl, arith, List, [], ◌∷◌, Option, none, some, ◌==◌, ==_refl, leb,
  if◌then◌else◌, length, replicate, length-replicate,
}
use chatix_protocol.Sizes.{
  ml_kem_768_ek_size, ml_kem_768_ct_size, ml_dsa_65_sig_size, ml_dsa_65_vk_size,
}
use chatix_protocol.Crypto.Primitives.{
  X25519, IsX25519, MlKem, IsMlKem, Hkdf, IsHkdf, Sha256, IsSha256, MlDsa, IsMlDsa,
}

abbrev pub head : List ℕ → ℕ
head [] = 0
head (x ∷ xs) = x

abbrev pub toy_dh : X25519
toy_dh = record {
  EphemeralSecret = ℕ;
  public_key = λ a. replicate 32 a;
  diffie_hellman = λ a pk. (a + head pk) ∷ [];
  secret_to_bytes = λ a. replicate 32 a;
  secret_from_bytes = λ bytes. head bytes;
}

pub toy_dh-IsX25519 : IsX25519 toy_dh
toy_dh-IsX25519 = record {
  length_public_key = λ a. refl;
  diffie_hellman_comm = λ a b. ground arith;
  secret_from_to_bytes = λ a. refl;
}

abbrev pub toy_kem : MlKem
toy_kem = record {
  DecapsulationKey = ℕ;
  EncapsulationKey = ℕ;
  generate_keypair = λ seed. (head seed, head seed);
  ek_to_bytes = λ ek. replicate ml_kem_768_ek_size ek;
  ek_new = λ bytes. some (head bytes);
  encapsulate = λ ek r. (replicate ml_kem_768_ct_size (ek + head r), head r ∷ []);
  decapsulate = λ dk ct. (head ct - dk) ∷ [];
}

pub toy_kem-IsMlKem : IsMlKem toy_kem
toy_kem-IsMlKem = record {
  length_ek = λ seed. length-replicate ml_kem_768_ek_size (head seed);
  ek_new_to_bytes = λ seed. refl;
  length_ct = λ ek r. length-replicate ml_kem_768_ct_size (ek + head r);
  decapsulate_encapsulate = λ seed r. ground arith;
}

abbrev pub expand_toy : List ℕ → List ℕ → ℕ → Option (List ℕ)
expand_toy k info n = if leb n (255 * 32) then some (replicate n (head k + length info)) else none

abbrev pub toy_hkdf : Hkdf
toy_hkdf = record { Prk = List ℕ; new = λ ikm. ikm; expand = expand_toy }

pub toy_hkdf-IsHkdf : IsHkdf toy_hkdf
toy_hkdf-IsHkdf = record {
  expand_ok = λ k info n h.
      (replicate n (head k + length info), ground arith, length-replicate n (head k + length info));
}

abbrev pub toy_sha : Sha256
toy_sha = record { digest = λ bytes. replicate 32 (length bytes % 256) }

pub toy_sha-IsSha256 : IsSha256 toy_sha
toy_sha-IsSha256 = record { digest_array = λ bytes. record { size = refl; bytes = ground arith } }

abbrev pub toy_dsa : MlDsa
toy_dsa = record {
  SigningKey = ℕ;
  VerifyingKey = ℕ;
  Signature = ℕ;
  to_seed = λ sk. replicate 32 sk;
  from_seed = λ seed. head seed;
  verifying_key = λ sk. sk;
  vk_encode = λ vk. replicate ml_dsa_65_vk_size vk;
  vk_decode = λ bytes. head bytes;
  sign = λ sk m. sk + length m;
  sig_encode = λ s. replicate ml_dsa_65_sig_size s;
  sig_decode = λ bytes. some (head bytes);
  verify = λ vk m s. s == vk + length m;
}

pub toy_dsa-IsMlDsa : IsMlDsa toy_dsa
toy_dsa-IsMlDsa = record {
  length_seed = λ sk. refl;
  from_seed_to_seed = λ sk. refl;
  length_vk = λ vk. length-replicate ml_dsa_65_vk_size vk;
  vk_decode_encode = λ vk. refl;
  length_sig = λ s. length-replicate ml_dsa_65_sig_size s;
  sig_decode_encode = λ s. refl;
  verify_sign = λ sk m. ==_refl (sk + length m);
}
