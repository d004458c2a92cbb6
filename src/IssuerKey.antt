-- ===== src/IssuerKey.antt =====
-- issuer_key.c: from a token's key id to the provider's key, through the discovery document and the
-- key set, with the cache in front of both.
pub mod Io
pub mod Context
pub mod Documents
pub mod Keys
pub mod Fetch
pub mod Rules
pub mod Protocol
pub mod Released
pub mod ReleasedKeys
pub mod Traced
pub mod Provenance
pub mod Selected
pub mod Sources
pub mod Sound
mod Tests
