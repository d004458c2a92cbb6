-- ===== src/SharedCache.antt =====
-- shared_cache.c: the cache in the shared memory of the server, which every backend attaches to. The
-- lock makes each operation atomic, so the calls of all backends are one sequence.
pub mod State
pub mod Operations
pub mod Io
pub mod System
pub mod Refinement
pub mod Waiting
mod Tests
