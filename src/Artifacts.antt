-- ===== src/Artifacts.antt =====
-- packages/agent/src/artifacts: serving, pulling and judging the files of a snapshot.
pub mod Range
pub mod Compatibility
pub mod Pull
