-- ===== src/Opaque.antt =====
-- protocol-lib: the OPAQUE protocol in Go, over libraries that are parameters.
pub mod Go
pub mod Slices
pub mod Primitives
pub mod Client
pub mod Server
pub mod Stored
pub mod Session
pub mod Returns
pub mod Acceptance
pub mod Envelopes
pub mod Steps
pub mod Tokens
pub mod Agreement
