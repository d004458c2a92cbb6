-- ===== src/SharedCache/Tests.antt =====
-- Two backends on a new segment of eight entries.
use pg_oauth_validator.CacheState.Begin.{begin_refresh}
use pg_oauth_validator.CacheState.Complete.{Outcome}
use pg_oauth_validator.CacheState.History.{Op, looks_up, run}
use pg_oauth_validator.CacheState.Lookup.{is_refreshing}
use pg_oauth_validator.CacheState.Types.{Cache, blank, no_stats, attach}
use pg_oauth_validator.SharedCache.Operations.{
  shared_cache_wait_refresh, with_cache, bad_key, bad_timeout, shared_cache_begin_refresh,
  locked_on,
}
use pg_oauth_validator.SharedCache.Refinement.{Behind, Registers, no_segment, system_run-run}
use pg_oauth_validator.SharedCache.State.{
  Sizes, Registry, Segment, Backend, shared_cache_size, attach_when, attach_segment, attach_view,
  cache_magic, cache_version,
}
use pg_oauth_validator.SharedCache.System.{
  Call, begins_key, system_run, system_step, call, carried_out,
}
use pg_oauth_validator.SharedCache.Waiting.{shared_cache_wait_refresh_result, GoodKey, GoodTimeout}
use pg_oauth_validator.Base.{not, ◌&&◌, ◌||◌, if◌then◌else◌, false}
use pg_oauth_validator.Base.{
  [], ◌∷◌, none, some, true, false, ◌≡◌, refl, replicate, Bytes, pos, List, Option, text, ◌↔◌, ℕ,
  ◌⊎◌,
}

abbrev cache_8 : Cache
cache_8 = record {
  entries = replicate 8 blank;
  control = record { next_refresh_serial = 1; stats = no_stats };
}

abbrev the_key : Bytes
the_key = text "k"

abbrev document : Outcome
document = record {
  success = true;
  cacheable = true;
  revalidation_required = false;
  ttl_ms = pos 100;
  stale_grace_ms = pos 50;
  payload = some (text "{}");
}

abbrev looking : List Op
looking = looks_up (some the_key) (pos 11) true ∷ []

abbrev sizes : Sizes
sizes = record { header = 256; entry = 69760 }

abbrev same_or_new : Option Segment → Segment → Option Segment
same_or_new none t = some t
same_or_new (some s) t = some s

abbrev registry : Registry
registry = record { get_named_segment = same_or_new }

abbrev attached_8 : Backend
attached_8 = record { attached = true; configured_capacity = 8 }

abbrev refreshing_8 : Segment
refreshing_8 = record {
  magic = cache_magic;
  version = cache_version;
  capacity = 8;
  cache = run (begin_refresh cache_8 (some the_key) (pos 10) false (pos 0)).cache looking;
}

shared_cache_wait_refresh_result_example :
    let w =
      shared_cache_wait_refresh sizes registry attached_8
        (some refreshing_8)
        (some the_key)
        (pos 5000)
        looking in
    let sleeps =
      not (bad_key (some the_key) || bad_timeout (pos 5000))
      && is_refreshing refreshing_8.cache (some the_key) in
    ((w.result.result ≡ true) ↔ (
      GoodKey (some the_key)
      × GoodTimeout (pos 5000)
      × ((is_refreshing refreshing_8.cache (some the_key) ≡ false)
          ⊎ (is_refreshing (run refreshing_8.cache looking) (some the_key) ≡ false))))
    × (w.segment
        ≡ some (
            with_cache refreshing_8
              (if sleeps then run refreshing_8.cache looking else refreshing_8.cache)))
    × (w.result.elapsed_ms ≡ (if sleeps then 5000 else 0))
unfolding attach_when
shared_cache_wait_refresh_result_example =
    shared_cache_wait_refresh_result sizes registry attached_8 (some refreshing_8) refreshing_8
      (some the_key) (pos 5000) looking refl refl

registry-Registers : Registers sizes registry
registry-Registers = ((λ s t. refl), (λ t. refl))

abbrev backends : List Backend
backends =
    record { attached = false; configured_capacity = 8 }
    ∷ record { attached = false; configured_capacity = 8 }
    ∷ []

abbrev calls : List (ℕ × Call)
calls = (0, begins_key (some the_key) (pos 10) false (pos 0)) ∷ []

abbrev after_begin : Segment
after_begin = record {
  magic = cache_magic;
  version = cache_version;
  capacity = 8;
  cache = (begin_refresh cache_8 (some the_key) (pos 10) false (pos 0)).cache;
}

system_run_lem :
    (system_run sizes registry (no_segment sizes registry backends) calls).segment
    ≡ some after_begin
unfolding system_run system_step call shared_cache_begin_refresh locked_on attach_when
    attach_segment attach_view attach shared_cache_size begin_refresh
system_run_lem = refl

system_run-run_example :
    Behind sizes registry
      (carried_out sizes registry (no_segment sizes registry backends) calls)
      after_begin
system_run-run_example =
    system_run-run sizes registry backends calls registry-Registers system_run_lem
