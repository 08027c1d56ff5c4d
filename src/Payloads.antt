-- ===== src/Payloads.antt =====
-- src/payloads/: the payload of each packet type, as it is encoded and decoded. A child for each
-- source file; `Common` models the helpers that the others share.
pub mod Common
pub mod Message
pub mod Queue
pub mod Ping
pub mod Close
pub mod Registration
pub mod Account
pub mod Friend
pub mod Auth
pub mod Hello
pub mod E2eKey
pub mod OfType
