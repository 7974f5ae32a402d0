-- ===== src/Tests.antt =====
-- Runs of each part and of the whole in small environments, and the theorems at them.
mod Setting
mod Sdk
mod LoginForm
mod NodeClient
mod Opaque
mod AuthServer
mod Handlers
mod Json
mod Hex
mod Common
mod ResourceServer
mod Listing
mod Index
mod Health
mod Local
mod Network
mod System
