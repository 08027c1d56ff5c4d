-- ===== src/Crypto.antt =====
-- src/crypto/: the cryptographic protocols. The primitives of the crates that they call are records of
-- operations (`Primitives`), with what those crates document as records of laws.
pub mod Primitives
pub mod Session
pub mod Auth
pub mod SafetyNumber
pub mod Separation
pub mod E2e
