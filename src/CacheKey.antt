-- ===== src/CacheKey.antt =====
-- cache_key.c: the bytes under which the documents of a policy are cached.
pub mod Build
pub mod Layout
pub mod Width
pub mod Injective
pub mod Policies
mod Tests
