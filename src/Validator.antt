-- ===== src/Validator.antt =====
-- validator.c: the stages of the validation in their order of trust.
pub mod Pipeline
pub mod Cases
pub mod Sound
pub mod Denied
mod Tests
