-- ===== src/Signature.antt =====
-- signature.c: the verification of a token's signature by libjwt, which is a parameter.
pub mod Verify
pub mod Sound
mod Tests
