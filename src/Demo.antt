-- ===== src/Demo.antt =====
-- packages/demo: the check that a program went on counting across a migration.
pub mod Events
pub mod Sequence
pub mod Utf8
pub mod Tcp
pub mod Validator
