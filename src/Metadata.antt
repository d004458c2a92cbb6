-- ===== src/Metadata.antt =====
-- metadata.c: the discovery document of an issuer.
pub mod Parse
pub mod Sound
mod Tests
