-- ===== src/Claims.antt =====
-- claims.c: what the payload of a token with a verified signature must say.
pub mod Policy
pub mod Scopes
pub mod Audience
pub mod Roles
pub mod Validate
pub mod ScopesSound
pub mod AudienceSound
pub mod RolesSound
pub mod Accepted
pub mod Sound
mod Tests
