-- ===== src/Tests.antt =====
-- The theorems at concrete inputs.
mod Indexer
mod Store
mod Api
mod Canonical
mod Demo
mod Theater
mod Texts
mod Traces
mod DemoStatus
mod Manifest
mod Auth
mod Screening
mod Routes
mod DecisionTrace
mod Agents
