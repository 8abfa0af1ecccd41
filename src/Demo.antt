-- ===== src/Demo.antt =====
-- The demo control service (services/demo-control/src).
pub mod State
pub mod Control
pub mod Laws
