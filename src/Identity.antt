-- ===== src/Identity.antt =====
-- identity.c: the authenticated identity.
pub mod Build
pub mod Utf8
pub mod Decode
pub mod Encode
pub mod Identities
mod Tests
