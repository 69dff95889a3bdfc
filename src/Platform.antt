-- ===== src/Platform.antt =====
-- packages/agent/src/platform: the host that the worker runs on.
pub mod Decimal
pub mod Paths
pub mod Host
pub mod Epochs
