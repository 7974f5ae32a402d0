-- ===== src/Common.antt =====
-- protocol-lib/common/common.go: the messages and their form as JSON.
pub mod Documents
pub mod Codec
pub mod Messages
pub mod Marshalled
pub mod RoundTrip
