-- ===== src/Base64Url.antt =====
-- base64url.c: the encoding of the parts of a token.
pub mod Codec
pub mod Alphabet
pub mod Groups
pub mod Decoded
pub mod RoundTrip
mod Tests
