-- ===== src/CacheState.antt =====
-- cache_state.c: the cache of provider documents, a fixed array of entries with one owner for each
-- refresh. An operation takes the cache and returns it with its result. The callers serialize the
-- calls by a lock, so a history is a list of operations.
pub mod Types
pub mod Lookup
pub mod Begin
pub mod Complete
pub mod Invariant
pub mod Slots
pub mod Rules
pub mod Preserve
pub mod PreserveComplete
pub mod History
pub mod Ownership
mod Tests
pub mod View
pub mod Answers
pub mod Eviction
pub mod Documents
pub mod Fetch
pub mod SingleFlight
