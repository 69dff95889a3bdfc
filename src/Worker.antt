-- ===== src/Worker.antt =====
-- packages/agent/src/worker: the sandboxes of one worker.
pub mod Types
pub mod Core
pub mod Manifest
pub mod Files
pub mod Lifecycle
pub mod Snapshot
pub mod GuestOps
pub mod Create
pub mod Phases
pub mod Migration
pub mod Transfer
pub mod Verify
pub mod Service
