-- ===== src/Lib.antt =====
-- Verification of Alphaping, a monitoring service: the wire formats and claims in packages/contracts,
-- the access decisions in packages/authz, and the workers that run checks, deliver notifications and
-- relay live frames.
--
-- How the parts interact. An agent sends compressed reports and, while someone watches, live frames;
-- both carry samples as protobuf fields, which packages/contracts decodes. The checks worker takes a
-- lease, loads the checks that are due, executes them in batches, and stores each result with the
-- confirmed state of the check, the state of its service, and rollups; it also marks machines offline
-- that have stopped reporting. Changes of state are queued as events, from which the notifications
-- worker makes the rows of an outbox, by the rules of a workspace, and which it claims, sends and ends.
-- The retention worker removes what is older than the policy of a workspace, under a lease. The hub
-- forwards a live frame to the viewers once it is decrypted.
--
-- Where things are.
--   Prelude: the shared names, Boolean tests, lists over native numbers, integers, and Outcome for code
--     that throws, where `stuck` stands for fuel that ran out and is no behaviour of the program.
--   Contracts: Protobuf (packages/contracts/src/protobuf.ts), MetricFields and LiveFrame
--     (live-frame.ts), MachineReport (machine-report.ts), Telemetry (telemetry.ts),
--     LiveTicket (live-ticket.ts).
--   Authz: packages/authz/src/index.ts.
--   Checks: workers/checks/src. Schedule (schedule.ts and the slot condition of the query
--     of index.ts), SchedulerState
--     (scheduler-state.ts), Confirmation, Latest, ServiceState and Rollups (persistence.ts), Liveness
--     (machine-liveness.ts), Batches (index.ts and executor.ts), Deadline (index.ts), Assertions
--     (assertions.ts), Hostname (validation.ts), Http and Tcp (executor.ts).
--   Notifications: Outbox and Batch (workers/notifications/src/outbox.ts), Discovery (discovery.ts), of
--     which Rules and Run hold the rules and the run.
--   Live: Sequences and Connections (workers/live/src/live-hub.ts).
--   Retention: Cursor (workers/retention/src/cursor.ts), Telemetry (telemetry-retention.ts), Policies
--     (index.ts).
-- Modules below a component hold its proofs and are named for what they prove; the Runs modules apply
-- the results to concrete data.
--
-- How code is modelled. A function keeps its name in snake_case. A timestamp or a count is a natural
-- number; where the source may go below zero the integers of Prelude.Int are used, or the test is
-- written as a sum. A SQL statement is a function on the rows it can touch, with NULL as `none`. A
-- promise that is awaited between two statements splits the handler in two steps, and other steps may
-- come in between. Code that throws yields an Outcome. A table is the list of its rows in the order of its
-- primary key, and a database may refuse a write, which throws.
--
-- Fuel. The readers of fields take the number of bytes as fuel, since each field moves forward by a
-- byte at least; a varint takes ten rounds, as in the source; the loops over batches of candidates, of
-- keys and of deliveries take the length of the list, since each batch has one at least. The loop over
-- redirects is on the rounds left.
--
-- Not modelled. Base64, key derivation, AES-GCM, decompression, digests and the providers are
-- parameters, and so are `fetch`, sockets, the URL parser, ipaddr.js, JSON.parse, JSONPath, regular
-- expressions and the test of header names. Of the retention worker the removal of control data, of artifacts and of what is softly
-- deleted is a step of a parameter. The signing of tickets, the parsing of stored requests, the
-- database's schema and repositories, the web application, the site, and the agent are left out.
pub mod Prelude
pub mod Contracts
pub mod Authz
pub mod Checks
pub mod Notifications
pub mod Live
pub mod Retention
