-- ===== src/Screening.antt =====
-- Advice about traces and payments, which never decides anything.
pub mod Score
pub mod Screener
pub mod Gemini
pub mod Laws
