-- ===== src/Jwks.antt =====
-- jwks.c: the one key of a key set that a token may be verified with.
pub mod Keys
pub mod Select
pub mod Chosen
pub mod Sound
mod Tests
