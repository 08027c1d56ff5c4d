-- ===== src/Tests.antt =====
-- Tests: the models at concrete inputs.
-- `Streams` is a pair of streams in memory, `Cipher` a toy cipher with the laws of an AEAD, and
-- `Primitives` are toy primitives with the laws of those of src/crypto/.
pub mod Streams
pub mod Cipher
pub mod Header
pub mod Connection
pub mod Payloads
pub mod Channel
pub mod Codec
pub mod Authentic
pub mod Primitives
pub mod Crypto
pub mod E2e
