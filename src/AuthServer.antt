-- ===== src/AuthServer.antt =====
-- auth-server: its storage in Redis, and the protocol over it.
pub mod Redis
pub mod RedisWrapper
pub mod Keys
pub mod Handlers
pub mod Login
pub mod Registration
pub mod Credentials
pub mod Kept
pub mod Nonces
pub mod Agreement
pub mod Middleware
pub mod Router
pub mod Cors
pub mod Listing
pub mod Index
