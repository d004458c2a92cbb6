-- ===== src/SharedCache/Io.antt =====
-- cache_io.h, and the functions that `pg_oauth_shared_cache_io` fills it with.
use pg_oauth_validator.CacheState.Types.{RefreshResult, Refresh}
use pg_oauth_validator.CacheState.Complete.{Outcome}
use pg_oauth_validator.CacheState.History.{Op, run}
use pg_oauth_validator.SharedCache.State.{Sizes, Registry, Segment, Backend}
use pg_oauth_validator.SharedCache.Operations.{
  IoLookup, Wait, with_cache, shared_cache_lookup, shared_cache_begin_refresh,
  shared_cache_wait_refresh, shared_cache_complete_refresh,
}
use pg_oauth_validator.Base.{[], ◌∷◌, none, some, ℕ, ℤ, pos, Bool, Option, List, Bytes}

-- PgOAuthCacheIo: the state is what `context` points to. All functions are there.
pub record CacheIo : Type 1 where
  pub State : Type 0
  pub lookup : State → Bytes → ℕ → Bool → ℕ → State × IoLookup
  pub begin_refresh : State → Bytes → ℕ → Bool → ℤ → State × (RefreshResult × Refresh)
  pub wait_refresh : State → Bytes → ℤ → State × Wait
  pub complete_refresh : State → Refresh → ℕ → Outcome → State × Bool

-- A backend with the segment, and what the other backends do before each of its next calls, or, if
-- the call waits, during its sleep.
pub record Shared : Type 0 where
  pub backend : Backend
  pub segment : Option Segment
  pub others : List (List Op)

abbrev pub next_others : List (List Op) → List Op
next_others [] = []
next_others (ops ∷ rest) = ops

abbrev pub later_others : List (List Op) → List (List Op)
later_others [] = []
later_others (ops ∷ rest) = rest

abbrev pub meanwhile : Option Segment → List Op → Option Segment
meanwhile none ops = none
meanwhile (some s) ops = some (with_cache s (run s.cache ops))

module _ (sizes : Sizes) (registry : Registry) where
  unfoldable pub shared_io_lookup : Shared → Bytes → ℕ → Bool → ℕ → Shared × IoLookup
  shared_io_lookup s key now allow_stale size =
      let a =
        shared_cache_lookup sizes registry s.backend (meanwhile s.segment (next_others s.others))
          (some key) (pos now) allow_stale (some size) in
      (
        record { backend = a.backend; segment = a.segment; others = later_others s.others },
        a.result,
      )

  unfoldable pub shared_io_begin :
      Shared → Bytes → ℕ → Bool → ℤ → Shared × (RefreshResult × Refresh)
  shared_io_begin s key now unknown_kid cooldown =
      let a =
        shared_cache_begin_refresh sizes registry s.backend
          (meanwhile s.segment (next_others s.others)) (some key) (pos now) unknown_kid cooldown in
      (
        record { backend = a.backend; segment = a.segment; others = later_others s.others },
        a.result,
      )

  unfoldable pub shared_io_wait : Shared → Bytes → ℤ → Shared × Wait
  shared_io_wait s key timeout =
      let a =
        shared_cache_wait_refresh sizes registry s.backend s.segment (some key) timeout
          (next_others s.others) in
      (
        record { backend = a.backend; segment = a.segment; others = later_others s.others },
        a.result,
      )

  unfoldable pub shared_io_complete : Shared → Refresh → ℕ → Outcome → Shared × Bool
  shared_io_complete s refresh now outcome =
      let a =
        shared_cache_complete_refresh sizes registry s.backend
          (meanwhile s.segment (next_others s.others)) refresh (pos now) outcome in
      (
        record { backend = a.backend; segment = a.segment; others = later_others s.others },
        a.result,
      )

  abbrev pub shared_cache_io : CacheIo
  shared_cache_io = record {
    State = Shared;
    lookup = shared_io_lookup;
    begin_refresh = shared_io_begin;
    wait_refresh = shared_io_wait;
    complete_refresh = shared_io_complete;
  }
