-- ===== src/Trace.antt =====
-- The trace library of the agents (packages/trace).
pub mod Validation
pub mod Serialize
pub mod Client
pub mod Keys
pub mod Numbers
pub mod Laws
pub mod Upload
