-- ===== src/Auth.antt =====
-- Sign-in with a wallet, sessions, and the keys of partners.
pub mod Sessions
pub mod SignIn
pub mod Laws
pub mod Replay
pub mod Gates
