-- ===== src/Lib.antt =====
-- IntentGuard: payments of AI agents under an intent that their owner has committed on chain, with
-- receipts that can be challenged. The repository has Solidity contracts (not modelled here), a
-- service that indexes their events and answers an HTTP API (services/infra), a library that
-- serializes the decision trace of an agent (packages/trace), scripted agents (agents), a service that
-- runs demo scenarios (services/demo-control) and a dashboard (apps/web).
--
-- Which file models what:
--   Store/*            services/infra/src/store/*.ts, a file for each table
--   Indexer/Decoder    services/infra/src/indexer/decoder.ts, handleLog
--   Indexer/Poller     services/infra/src/indexer/poller.ts: indexRange, resolveStartBlock, catchUp
--   Indexer/Cache      the same file, getBlockTimestamp
--   Indexer/DemoStatus  services/infra/src/indexer/demo-status.ts, tick
--   Api/Prepare        services/infra/src/api/challenges-prepare.ts
--   Api/Feed           services/infra/src/api/feed.ts
--   Api/Executions     services/infra/src/api/executions.ts
--   Api/Traces         services/infra/src/api/traces.ts and replay.ts
--   Api/Execute        services/infra/src/api/execute.ts, behind the guard of api/app.ts
--   Api/Reviewer       services/infra/src/api/reviewer.ts, and signer/index.ts
--   Api/LiveFeed       services/infra/src/api/live-feed.ts, the bus
--   Api/Manifests      services/infra/src/api/manifests.ts
--   Api/Summaries      services/infra/src/gemini/summarize.ts, and client.ts, generateSummary
--   Auth/Sessions      services/infra/src/middleware/auth.ts
--   Auth/SignIn        services/infra/src/api/auth.ts, requests that run alone; Auth/Replay: the
--                      statements of requests that overlap
--   Screening/Screener services/infra/src/screening/*.ts and api/screen.ts
--   Screening/Gemini   services/infra/src/gemini/client.ts, screenTrace, and screen.ts
--   Canonical/Manifest services/infra/src/canonical/manifest.ts
--   Canonical/Encode   services/infra/src/canonical/json.ts
--   Canonical/Stringify  canonicalStringify of packages/trace/src/serialize.ts
--   Trace/Validation   packages/trace/src/validation.ts
--   Trace/Serialize    the rest of packages/trace/src/serialize.ts; Keys, Numbers and Laws: its proofs
--   Trace/Client       packages/trace/src/trace-client.ts and digest.ts; Upload: the client and the
--                      service of Api/Traces together
--   Agents/Request     packages/trace/src/execution-request.ts
--   Agents/Flow        agents/shared.ts, the flows of the agents with the calls that they make; Laws
--                      and Guarded: its proofs
--   Agents/Runtime     packages/trace/src/runtime-env.ts, and loadAgentEnv of agents/shared.ts
--   Demo/*             services/demo-control/src/state.ts and index.ts
--   Web/Phases, Web/Terminal  apps/web/src/components/demo/demo-visualizer.ts
--   Web/Theater        apps/web/src/components/demo/use-demo-visualizer.ts
--   Prelude/*          shared: texts, integers, results, tables, sorting
--   Tests/*            the theorems at concrete inputs
-- A module named Laws, Order or Liveness holds proofs about its parent.
--
-- How the parts meet: the poller walks the blocks and hands each log to the decoder, which writes the
-- tables of Store; the API reads them; the feed and the preparation of a challenge ask the same
-- tables; the execution API canonicalizes a trace and keeps its own table. A function keeps the
-- source's name in the spelling of this library (upsertReceipt is upsert_receipt).
--
-- Conventions. A string is the list of its UTF-16 code units. Hexadecimal identifiers are ASCII, so
-- toLowerCase is the one of ASCII. Numbers that the code keeps as bigint or as a safe integer are
-- natural numbers; BigInt of a request's text is read in full. Date.now() and fresh UUIDs are
-- arguments. A SQL statement or a Supabase query is an operation on the list of the table's rows, in
-- the order of insertion, under a Provider: a violated constraint throws in SQLite and is dropped by
-- the Supabase client, whose errors the code does not read. The tables executions and gemini_summaries,
-- which supabase/migrations does not create, are under Supabase neither written nor read. Rows that an ORDER BY does not tell apart
-- stay in the order of insertion. An HTTP error is a value of Failure. A React effect runs after a
-- render in which a dependency has changed.
--
-- Parameters: decodeEventLog, getLogs, getBlockNumber and getBlock of the RPC client, keccak256,
-- getAddress and encodeFunctionData of viem, the pinner and the signer of
-- traces, SIWE, SHA-256, what viem signs and sends for the reviewer, JSON.parse of the answers of a
-- model, and the model itself. Scores are multiples of a fixed fraction, or NaN, or infinite. The walk over the blocks is on
-- fuel, one round for each block, which is enough: a batch has at least one block.
--
-- Not modelled: the contracts, start-up code, loggers, the remote services, the React views, the
-- timer loops of the pollers, and the frames of the event streams. The render of the theater between new props and the reset is no state of its own.
pub mod Prelude
pub mod Store
pub mod Indexer
pub mod Api
pub mod Auth
pub mod Screening
pub mod Trace
pub mod Agents
pub mod Canonical
pub mod Demo
pub mod Web
pub mod Tests
