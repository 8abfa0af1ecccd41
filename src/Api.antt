-- ===== src/Api.antt =====
-- The HTTP handlers of services/infra/src/api. A request that fails its schema is a bad request; a
-- value of `Date.now()` is an argument.
pub mod Prepare
pub mod Feed
pub mod Executions
pub mod Traces
pub mod Execute
pub mod Reviewer
pub mod LiveFeed
pub mod Manifests
pub mod Summaries
