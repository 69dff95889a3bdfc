-- ===== src/Server.antt =====
-- packages/agent/src/server: the HTTP routes in front of the worker.
pub mod Requests
pub mod Routes
