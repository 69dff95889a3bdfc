-- ===== src/Sdk.antt =====
-- packages/sdk: the client of the coordinator's API.
pub mod Client
pub mod Errors
pub mod Request
pub mod Phoenix
pub mod Sse
pub mod Progress
pub mod Watch
