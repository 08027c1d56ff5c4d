-- ===== src/Crypto/Session/Keys.antt =====
-- Which input of HKDF each key of a session comes from, src/crypto/session.rs.
use chatix_protocol.Base.{
  ℕ, ◌≡◌, ◌≢◌, refl, arith, true, false, List, ◌++◌, some, ok, if◌then◌else◌, bytes_eq,
  bytes_eq_iff, append_cancel,
}
use chatix_protocol.Crypto.Primitives.{Hkdf, IsHkdf}
use chatix_protocol.Crypto.Session.{
  SessionKeys, derive_keys, c2s_info, s2c_info, c2s_label, s2c_label,
}

-- HKDF with another output for one info.
abbrev pub expanding_to : List ℕ → List ℕ → Hkdf → Hkdf
expanding_to info out hkdf = record hkdf {
  expand = λ k i n. if bytes_eq i info then some out else hkdf.expand k i n;
}

info_hit : (i : List ℕ) → bytes_eq i i ≡ true
info_hit i = ground (arith, bytes_eq_iff i i)

labels-ne : c2s_label ≢ s2c_label
labels-ne e = ground arith

infos-ne : (context : List ℕ) → c2s_info context ≢ s2c_info context
infos-ne context e = labels-ne (append_cancel context context refl e).1

module _ (hkdf : Hkdf) (is_hkdf : IsHkdf hkdf) where
  -- With an HKDF that keeps its documented law, `derive_keys` gives two keys for any shared
  -- secrets and any context, and each comes from an info of its own: with an HKDF that has
  -- another output for the client-to-server info, only the client-to-server key changes, and it
  -- is that output; and with one that has another output for the server-to-client info, only the
  -- server-to-client key.
  pub derive_keys_independent :
      (x25519_shared kyber_shared context out : List ℕ)
      → (keys : SessionKeys) × (derive_keys hkdf x25519_shared kyber_shared context ≡ ok keys)
        × (derive_keys (expanding_to (c2s_info context) out hkdf) x25519_shared kyber_shared context
            ≡ ok (record keys { client_to_server = out }))
        × (derive_keys (expanding_to (s2c_info context) out hkdf) x25519_shared kyber_shared context
            ≡ ok (record keys { server_to_client = out }))
  unfolding derive_keys
  derive_keys_independent x25519_shared kyber_shared context out =
      let k = hkdf.new (x25519_shared ++ kyber_shared) in
      let (up, e, _) = is_hkdf.expand_ok k (c2s_info context) 32 (omega arith) in
      let (down, e', _) = is_hkdf.expand_ok k (s2c_info context) 32 (omega arith) in
      let ne : bytes_eq (c2s_info context) (s2c_info context) ≡ false =
        ground (arith, infos-ne context, bytes_eq_iff (c2s_info context) (s2c_info context)) in
      let ne' : bytes_eq (s2c_info context) (c2s_info context) ≡ false =
        ground (arith, infos-ne context, bytes_eq_iff (s2c_info context) (c2s_info context)) in
      (
        record { client_to_server = up; server_to_client = down },
        rw (e, e') refl,
        rw (info_hit (c2s_info context), ne', e') refl,
        rw (info_hit (s2c_info context), ne, e) refl,
      )
