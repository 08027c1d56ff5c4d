-- ===== src/Lib.antt =====
-- Verification of the Chatix protocol library (the Rust crate under src/): the wire format, the
-- connection state machine and the encrypted packet codec of a chat protocol.
--
-- The program. A connection is two byte streams. Each packet is a header of 24 bytes and a payload.
-- `PacketCodec` reads and writes packets: it numbers them, checks the numbers, and once a session is
-- established seals each payload with AES-256-GCM. What the payload of a packet type holds is decided
-- by the structs of src/payloads/. Whether a packet may arrive at all is decided by `ConnectionState`,
-- which the caller of the codec asks before it uses a packet.
--
-- The files.
--   Base          lists and numbers, byte order, slices (which panic out of range) and the outcome of a
--                 call: a value, an error, or a panic.
--   Error         src/error.rs: `ProtocolError`; and `std::io::Error`, as its kind and its message.
--   Sizes         the constants of src/crypto/session.rs and src/crypto/e2e.rs that the codec and the
--                 payloads use.
--   PacketType    src/packet_type.rs: codes, payload limits, directions.
--   Header        src/header.rs: `new_header` is `PacketHeader::new`, the other functions keep their
--                 names.
--   Connection    src/connection_state.rs: `initial`, `validate_incoming` and `advance`. `Graph` is the
--                 specification, a step relation; `Handshake` is about runs, and `Progress` about how
--                 long a handshake takes.
--   Codec         src/codec.rs and src/raw_packet.rs. `Read` and `Write` translate `read_packet` and
--                 `write_packet`, cut where the source has a paragraph; a method on `&mut self` is a
--                 function from the codec and the stream to the outcome and the two after it, so an
--                 error leaves the state that the failing step left. `Channel` is the specification of
--                 a connection, a queue of packets in each direction, and the two codecs that make it;
--                 `Security`, `Downgrade`, `Integrity` and `Authentic` are about what an attacker can
--                 do, and `Nonces` about what is sealed under which nonce.
--   Payloads      src/payloads/: a module for each source file. `decode_ping` is `PingPayload::decode`,
--                 and so on; `OfType` gathers them by packet type. The children are named for what
--                 they prove: `RoundTrip` (what is encoded is decoded), `Inverse` (what is decoded was
--                 encoded), `Total` (no panic), and `OfType.Limits` (what fits a packet type).
--   Crypto        src/crypto/: `Session`, `E2e`, `Auth` and `SafetyNumber` are its source files, over
--                 the primitives of `Crypto.Primitives`. `Session.Secured` is a connection from the
--                 key exchange to its packets, `E2e.Delivered` a text through all the layers, and
--                 `Separation` is about what is signed and what keys are derived from.
--   Tests         the models at concrete inputs.
--
-- The models. A byte is a number below 256 and a Rust integer a number below its range; where the
-- source wraps, saturates or checks an addition, the model does. A `String` is its bytes, on which the
-- UTF-8 check of the standard library is modelled. Recursion is structural. Two loops of the safety
-- numbers count down a bound: the digits of a value stop at 20, which is enough for a `u64`
-- (`decimal-read`), and the chunks at as many as there are bytes, which leaves no byte over
-- (`chunks_of_5-joined`).
--
-- What is a parameter. `Codec.Interfaces` has the streams of tokio and the AEAD of ring as records of
-- operations, and what their documentation promises as records of laws: a reader that delivers the bytes
-- that were sent, a writer that takes every byte, an AEAD that opens what it sealed (`IsAead`), and one
-- that opens nothing else (`OpensOnlySealed`, which holds of AES-GCM as a function because opening
-- recomputes the tag). `Codec.Authentic.OpensOnlySent` is the authenticity of AES-GCM: what a stream can
-- deliver opens only if the other side sealed it, since nobody else has the key.
--
-- `Codec.Channel.Network` is what lies between two streams: bytes that are written at one end arrive,
-- in order, behind those that are pending at the other.
--
-- `Crypto.Primitives` has X25519, ML-KEM-768, HKDF, SHA-256 and ML-DSA-65 in the same way; a random
-- value is an argument.
--
-- What is not modelled: the poll points of the futures, the zeroing of freed memory, and the texts of
-- error displays.
pub mod Base
pub mod Error
pub mod Sizes
pub mod PacketType
pub mod Header
pub mod Connection
pub mod Codec
pub mod Payloads
pub mod Crypto
pub mod Tests
