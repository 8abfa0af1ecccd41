-- ===== src/Store.antt =====
-- services/infra/src/store: the tables of the infra service, one child for each module, under both
-- of its database providers.
pub mod Provider
pub mod Receipts
pub mod Challenges
pub mod Intents
pub mod Agents
pub mod Manifests
pub mod Traces
pub mod Summaries
pub mod Blocked
pub mod Executions
