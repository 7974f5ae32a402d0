-- ===== src/Sdk.antt =====
-- js-sdk/src/lib.ts, `plissken-js-sdk`: the two runs of the protocol that it exports, over axios and
-- the Go bindings.
pub mod Classes
pub mod Requests
pub mod Protocol
mod Replies
pub mod Authentication
pub mod Registration
pub mod Secrecy
pub mod Health
pub mod Fields
pub mod Completed
pub mod Completion
