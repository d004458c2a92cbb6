-- ===== src/PolicyBuild.antt =====
-- policy.c: the validation policy from the administrator's settings and the matched HBA rule.
pub mod Lists
pub mod Build
pub mod Parsed
pub mod Bounded
mod Tests
