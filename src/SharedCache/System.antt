-- ===== src/SharedCache/System.antt =====
-- All the backends of a server with the one segment, and what their calls do to it.
use pg_oauth_validator.CacheState.Types.{Refresh}
use pg_oauth_validator.CacheState.Complete.{Outcome}
use pg_oauth_validator.CacheState.History.{Op, looks_up, begins, completes, InRange}
use pg_oauth_validator.SharedCache.State.{
  Sizes, Registry, Segment, Backend, shared_cache_attach, new_backend, configure_capacity,
}
use pg_oauth_validator.SharedCache.Operations.{
  shared_cache_lookup, shared_cache_begin_refresh, shared_cache_complete_refresh,
  shared_cache_stats,
}
use pg_oauth_validator.Base.{
  [], ◌∷◌, Option, ℤ, List, All, ℕ, Bytes, get_or, Bool, set, if◌then◌else◌, ◌++◌,
}

pub record System : Type 0 where
  pub segment : Option Segment
  pub backends : List Backend

-- What a backend calls. A wait is two calls that only read, with the calls of others in between.
pub data Call : Type 0 where
  configures : ℤ → Call
  looks_up_key : Option Bytes → ℤ → Bool → Option ℕ → Call
  begins_key : Option Bytes → ℤ → Bool → ℤ → Call
  completes_key : Refresh → ℤ → Outcome → Call
  only_reads : Call

-- What the call does to the cache if the backend is attached.
abbrev pub op_of : Call → List Op
op_of (configures capacity) = []
op_of (looks_up_key k now allow size) = looks_up k now allow ∷ []
op_of (begins_key k now u m) = begins k now u m ∷ []
op_of (completes_key r now o) = completes r now o ∷ []
op_of only_reads = []

abbrev pub CallInRange : Call → Type 0
CallInRange c = All InRange (op_of c)

module _ (sizes : Sizes) (registry : Registry) where
  unfoldable pub call : Backend → Option Segment → Call → Backend × Option Segment
  call b s (configures capacity) = ((configure_capacity sizes registry b s capacity).0, s)
  call b s (looks_up_key k now allow size) =
      let a = shared_cache_lookup sizes registry b s k now allow size in (a.backend, a.segment)
  call b s (begins_key k now u m) =
      let a = shared_cache_begin_refresh sizes registry b s k now u m in (a.backend, a.segment)
  call b s (completes_key r now o) =
      let a = shared_cache_complete_refresh sizes registry b s r now o in (a.backend, a.segment)
  call b s only_reads = let a = shared_cache_stats sizes registry b s in (a.backend, a.segment)

  unfoldable pub system_step : System → ℕ × Call → System
  system_step w (i, c) =
      let done = call (get_or w.backends i new_backend) w.segment c in
      record { segment = done.1; backends = set w.backends i done.0 }

  unfoldable pub system_run : System → List (ℕ × Call) → System
  system_run w [] = w
  system_run w (c ∷ cs) = system_run (system_step w c) cs

  -- The operations that are carried out, in order: those of the calls whose backend is attached.
  unfoldable pub carried_out : System → List (ℕ × Call) → List Op
  carried_out w [] = []
  carried_out w ((i, c) ∷ cs) =
      let rest = carried_out (system_step w (i, c)) cs in
      let a = shared_cache_attach sizes registry (get_or w.backends i new_backend) w.segment in
      if a.result then op_of c ++ rest else rest
