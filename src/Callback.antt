-- ===== src/Callback.antt =====
-- pg_oauth_validator.c, with the settings of config.c and the rule of hba_policy.c: the callback that
-- PostgreSQL asks to validate a token.
pub mod Settings
pub mod Stages
pub mod Validate
pub mod Sound
pub mod Authorized
pub mod Decided
mod Tests
