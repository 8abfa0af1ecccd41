-- ===== src/Canonical.antt =====
-- Canonical JSON, which is hashed into `intentHash` and `contextDigest`.
pub mod Value
pub mod Encode
pub mod Stringify
pub mod Laws
pub mod Order
pub mod Manifest
