-- ===== src/JwtEnvelope.antt =====
-- jwt_envelope.c: the structure of a token, before anything in it is trusted.
pub mod Parse
pub mod Segments
pub mod Accepted
pub mod Header
pub mod Sound
mod Tests
