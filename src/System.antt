-- ===== src/System.antt =====
-- All parts together: lib.ts in an environment in which the bindings are those of js-bindings and the
-- requests are answered by the auth server.
pub mod Forwarding
pub mod Environment
pub mod Server
pub mod Client
pub mod Registration
pub mod Authentication
pub mod Agreement
pub mod Refusals
pub mod Resources
pub mod Demo
