-- ===== src/Web.antt =====
-- The dashboard's demo theater (apps/web/src/components/demo).
pub mod Phases
pub mod Terminal
pub mod Theater
