-- ===== src/Agents.antt =====
-- The scripted agents (agents/shared.ts) and the requests that they build.
pub mod Request
pub mod Flow
pub mod Laws
pub mod Guarded
pub mod Runtime
