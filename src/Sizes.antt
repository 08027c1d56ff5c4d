-- ===== src/Sizes.antt =====
-- The sizes that the crate's constants fix: src/crypto/session.rs and src/crypto/e2e.rs.
use chatix_protocol.Base.{ℕ, ◌%◌, ◌^◌}

abbrev pub ml_kem_768_ek_size : ℕ
ml_kem_768_ek_size = 1184

abbrev pub ml_kem_768_ct_size : ℕ
ml_kem_768_ct_size = 1088

abbrev pub nonce_len : ℕ
nonce_len = 12

abbrev pub gcm_tag_len : ℕ
gcm_tag_len = 16

abbrev pub ml_dsa_65_sig_size : ℕ
ml_dsa_65_sig_size = 3309

abbrev pub ml_dsa_65_vk_size : ℕ
ml_dsa_65_vk_size = 1952

-- `n as u32`
abbrev pub as_u32 : ℕ → ℕ
as_u32 n = n % 2 ^ 32
