-- ===== src/SharedCache/Operations.antt =====
-- The operations of a backend on the shared cache. Each attaches first, and holds the lock while it
-- works on the cache.
use pg_oauth_validator.CacheState.Types.{
  Cache, Refresh, Stats, no_refresh, LookupResult, miss, CopyResult, copy_not_found, RefreshResult,
  invalid_argument, max_key_size,
}
use pg_oauth_validator.CacheState.Lookup.{Lookup, lookup, copy_payload, is_refreshing}
use pg_oauth_validator.CacheState.Begin.{begin_refresh}
use pg_oauth_validator.CacheState.Complete.{Outcome, complete_refresh}
use pg_oauth_validator.CacheState.History.{Op, run}
use pg_oauth_validator.SharedCache.State.{
  Sizes, Registry, Segment, Backend, Attach, shared_cache_attach,
}
use pg_oauth_validator.Base.{
  [], none, some, ℕ, ℤ, pos, Bool, Option, List, Bytes, ◌==◌, if◌then◌else◌, ◌||◌, true, false, not,
  ltb, ltb_ℤ, length, magnitude,
}

-- The backend and the segment behind an operation, with its result.
pub record After (A : Type 0) : Type 0 where
  pub backend : Backend
  pub segment : Option Segment
  pub result : A

pub record IoLookup : Type 0 where
  pub freshness : LookupResult
  pub copy_result : CopyResult
  pub output : Bytes
  pub payload_length : ℕ

abbrev pub no_io_lookup : IoLookup
no_io_lookup = record {
  freshness = miss;
  copy_result = copy_not_found;
  output = [];
  payload_length = 0;
}

abbrev pub with_cache : Segment → Cache → Segment
with_cache s c = record s { cache = c }

-- What the lookup hands out: the copy of an entry, unless there is none.
unfoldable pub copied : Lookup → Option ℕ → IoLookup
copied l output_size = elim l.freshness [
  | miss ↦ no_io_lookup
  | f ↦
      let copy = copy_payload l.cache l.entry_index output_size in
      record {
        freshness = l.freshness;
        copy_result = copy.result;
        output = copy.output;
        payload_length = copy.payload_length;
      }
]

-- An operation under the lock, or the result where the backend is not attached.
unfoldable pub locked_on :
    {A : Type 0} → Backend → Option Segment → Bool → A → (Cache → Cache × A) → After A
locked_on b none attached refused work = record { backend = b; segment = none; result = refused }
locked_on b (some s) attached refused work =
    if not attached then record { backend = b; segment = some s; result = refused } else record {
      backend = b;
      segment = some (with_cache s (work s.cache).0);
      result = (work s.cache).1;
    }

abbrev pub locked : {A : Type 0} → Attach → A → (Cache → Cache × A) → After A
locked a refused work = locked_on a.backend a.segment a.result refused work

-- `key_length` is the length of the key.
abbrev pub bad_key : Option Bytes → Bool
bad_key none = true
bad_key (some key) = length key == 0 || ltb max_key_size (length key)

-- `*elapsed_ms` goes with a result of true.
pub record Wait : Type 0 where
  pub result : Bool
  pub elapsed_ms : ℕ

abbrev pub not_waited : Wait
not_waited = record { result = false; elapsed_ms = 0 }

-- The check of the key, the sleep, in which the others work, and the second check.
unfoldable pub wait_on : Option Bytes → ℕ → List Op → Cache → Cache × Wait
wait_on key timeout_ms slept c =
    if not (is_refreshing c key)
    then (c, record { result = true; elapsed_ms = 0 })
    else let c' = run c slept in
      (c', record { result = not (is_refreshing c' key); elapsed_ms = timeout_ms })

unfoldable pub bad_timeout : ℤ → Bool
bad_timeout timeout_ms = not (ltb_ℤ (pos 0) timeout_ms) || ltb_ℤ (pos 5000) timeout_ms

module _ (sizes : Sizes) (registry : Registry) where
  unfoldable pub shared_cache_lookup :
      Backend → Option Segment → Option Bytes → ℤ → Bool → Option ℕ → After IoLookup
  shared_cache_lookup b segment key now allow_stale output_size =
      locked (shared_cache_attach sizes registry b segment) no_io_lookup
        λ c. let l = lookup c key now allow_stale in (l.cache, copied l output_size)

  unfoldable pub shared_cache_begin_refresh :
      Backend → Option Segment → Option Bytes → ℤ → Bool → ℤ → After (RefreshResult × Refresh)
  shared_cache_begin_refresh b segment key now unknown_kid cooldown =
      locked (shared_cache_attach sizes registry b segment) (invalid_argument, no_refresh)
        λ c.
          let g = begin_refresh c key now unknown_kid cooldown in (g.cache, (g.result, g.refresh))

  unfoldable pub shared_cache_complete_refresh :
      Backend → Option Segment → Refresh → ℤ → Outcome → After Bool
  shared_cache_complete_refresh b segment refresh now outcome =
      locked (shared_cache_attach sizes registry b segment) false
        λ c. let d = complete_refresh c refresh now outcome in (d.cache, d.result)

  -- `slept` is what the other backends do while this one sleeps.
  unfoldable pub shared_cache_wait_refresh :
      Backend → Option Segment → Option Bytes → ℤ → List Op → After Wait
  shared_cache_wait_refresh b segment key timeout_ms slept =
      locked (shared_cache_attach sizes registry b segment) not_waited λ c.
        if bad_key key || bad_timeout timeout_ms
        then (c, not_waited)
        else wait_on key (magnitude timeout_ms) slept c

  -- `none` where the function returns false.
  unfoldable pub shared_cache_stats : Backend → Option Segment → After (Option Stats)
  shared_cache_stats b segment =
      locked (shared_cache_attach sizes registry b segment) none λ c. (c, some c.control.stats)
