-- ===== src/Lib.antt =====
-- Firemig: the worker agent, which runs Firecracker sandboxes and moves them from host to host, the
-- SDK of its clients, and the demo that validates a migration.
--
-- One WorkerService (packages/agent/src/worker/index.ts) holds the state of a host, WorkerCore: the
-- sandboxes, the fencing epochs that it has accepted, the consumed snapshots, the reservations of
-- migrations, the relays, the child processes and the owners of networks and ports. A coordinator
-- sends it requests that carry an epoch; `mutableRecord` is where a request meets the epoch. The
-- development models the agent with its HTTP routes, which turn a request into one operation of the
-- service, and of packages/common the types and tables that the agent uses. The SDK talks to the
-- coordinator, by requests with retries, by server-sent events for the progress of a migration, and
-- by Phoenix channels for commands. The demo counts in a sandbox while it is moved, and its validator
-- says from the events observed whether the run was continuous.
--
-- Which file models what:
--   Prelude, Exec   lists, maps and tests; asynchronous methods as `Exec S A = S → Settled A × S`,
--                   where a rejection keeps what was written before it
--   Common          packages/common/src/protocol and types, with the failure test of the SDK's
--                   client/migration-progress.ts; Canonical is runtime/hash.ts
--   Platform        packages/agent/src/platform: Paths (paths.ts), Epochs (epochs.ts), Host
--                   (adapters.ts, and the calls of runtime/firecracker.ts and runtime/vsock.ts),
--                   Decimal (the decimal text of a number)
--   Planning        packages/agent/src/planning
--   Network         packages/agent/src/runtime/network.ts; Network/Allocator is
--                   worker/core/worker-allocator.ts, and Network/Relay the sockets of one relay in
--                   runtime/relay.ts
--   Artifacts       packages/agent/src/artifacts: Range, Pull (transfer.ts and artifact-partial.ts)
--                   and Compatibility (manifest.ts)
--   Worker          packages/agent/src/worker: Types and Core (core/, platform/processes.ts and
--                   runtime/relay.ts), Files, Manifest and Snapshot (snapshot/), Create, Lifecycle,
--                   GuestOps and Phases (lifecycle/), Migration, Transfer and Verify (migration/),
--                   and Service (index.ts and migration/worker-facade.ts), with `serve` for one
--                   request and `serve_all` for a sequence of them
--   Server          packages/agent/src/server: Requests (server-requests.ts), Routes (server.ts and
--                   the files of routes), with `respond` for one HTTP request
--   Sdk             packages/sdk/src: Client (client.ts and client/sandbox.ts), Errors (errors.ts),
--                   Request (client/request.ts), Sse (sse.ts), Progress and Watch
--                   (client/migration-progress.ts and migration.ts), Phoenix (phoenix/ and
--                   websocket.ts: Protocol, Pending, Socket, Commands), and Session for the events
--                   that may happen to a client, one at a time
--   Demo            packages/demo/src: Events, Sequence, Validator and Tcp (tcp.ts),
--                   with Utf8 for its decoder
--   Tests           concrete workers, and the theorems applied to them
-- A function has the name of its source in snake case. A function by clauses beside it is a branch
-- of the source function that is matched on.
--
-- The world. What the agent calls outside is a `World`: it says of every call whether it fails, and
-- what its answer holds, by the calls made before. The theorems hold for every world, so for every
-- pattern of failures, unless they say what it answers: a restart reads what was written last, and
-- a download stands on files that are what the calls have made them. Files, processes, the
-- Firecracker API, the guest agent, the clock, HTTP and SHA-256 are such answers. Every call stands
-- in the trace of the host, failed or not.
--
-- Bounds and fuel. Numbers are natural numbers; an epoch is refused above 2^53 - 1, as
-- Number.isSafeInteger does. The search for a network makes 1,024 attempts, as the code does, and
-- the search for a port goes through the 65536 - base ports of its range once. `waitForGuest` waits
-- at least one millisecond in each round before its deadline, so it is given one round more than
-- the milliseconds of its timeout; the world's clock is not forced to advance, and at the end of the
-- rounds the model rejects. A number has at most as many digits as its value plus one. A request of
-- the SDK is given one round more than its retries, a watcher a round for each poll up to the one
-- that reports a terminal phase, and the parser of a stream and the TCP collector as many rounds as
-- the buffer is long, since each round takes at least one character from it.
--
-- What is not modelled. A request runs in one step: the awaits of two requests do not interleave,
-- and `preparing`, which covers that, is left out; the epoch store chains its calls itself. Messages
-- and details of errors are left out, codes, statuses and the retryable flag are kept. Tasks that
-- run at once run in order, settle all, and the first rejection in order is thrown. Maps whose order
-- is not observed are functions; the epochs are an association list. A path is its list of resolved
-- segments, the last one first. Clients of Firecracker and of a guest are their sockets. The names
-- of temporary files are fixed. URLs are joined without escapes, and without a token. The race of a
-- file's watcher with the exit of a process is a failure of the watch.
-- Of the routes, the schemas that Fastify checks are the readers of the body, and a negative
-- integer in a body is a bad request. Of the SDK, URLs, fetch, JSON.parse and TextDecoder are
-- parameters; the length of a back-off and its jitter are left out, so a sleep only ends or
-- rejects; the `ts` of a progress is left out; listeners of events do not throw; a promise is a
-- number, and what settles it stands in a list; a poll is answered or fails, and a stream is seen
-- up to any one of its events, behind which it may stay open for ever; the text of a URL holds no
-- lone surrogate, and bytes are given in base64. The address of a socket and the default factory of
-- sockets are left out. Of the canonical text, what JSON cannot hold (undefined, dates, functions)
-- and numbers of 10^21 and more are left out, and the text of a fraction is given. Of the relay,
-- the bytes that go through its pipes are left out. Of the demo, its command line and the source of
-- the server that it starts are left out; the text of an error is left out, and each chunk has a
-- clock of its own. The back-off and the fault lists of packages/common, the agent's cli.ts and the
-- reading of its environment, the Elixir services, the guest's Python agent and the infrastructure
-- are left out.
pub mod Prelude
pub mod Exec
pub mod Common
pub mod Platform
pub mod Planning
pub mod Network
pub mod Artifacts
pub mod Worker
pub mod Server
pub mod Sdk
pub mod Demo
pub mod Tests
