-- ===== src/Common.antt =====
-- packages/common: the vocabulary that the worker, the SDK and the demo share.
pub mod Canonical
pub mod Errors
pub mod Json
pub mod Phases
pub mod Types
