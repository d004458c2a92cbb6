-- ===== src/CacheState/Tests.antt =====
-- Runs of the cache on small inputs.
use pg_oauth_validator.CacheState.Preserve.{begin_refresh-IsValid}
use pg_oauth_validator.CacheState.Fetch.{fetched_document}
use pg_oauth_validator.CacheState.SingleFlight.{single_flight}
use pg_oauth_validator.CacheState.Documents.{
  complete_refresh-SameReplies, failed_refresh-SameReplies, completes_once,
}
use pg_oauth_validator.CacheState.Eviction.{begin_refresh-SameReplies}
use pg_oauth_validator.CacheState.History.{Op, run-init-IsValid, run, looks_up, begins}
use pg_oauth_validator.CacheState.Answers.{SameReplies, lookup-answer_of, reply}
use pg_oauth_validator.CacheState.View.{entry_of}
use pg_oauth_validator.CacheState.Lookup.{is_refreshing, lookup}
use pg_oauth_validator.CacheState.Begin.{
  begin_refresh, Begin, find_refresh_slot, find_slot, note_slot, choose_slot, begin_at,
  start_refresh,
}
use pg_oauth_validator.CacheState.Invariant.{IsValid, bounded_add_bounds}
use pg_oauth_validator.CacheState.Complete.{Outcome, bad_outcome, complete_refresh, bad_payload}
use pg_oauth_validator.Base.{
  replicate, Bytes, List, text, true, false, some, pos, ◌≤◌, ◌≡◌, int64_max, arith, refl, [], inl,
  ◌∷◌,
}
use pg_oauth_validator.CacheState.Types.{
  Cache, init, bounded_add, blank, valid_key, no_stats, same_key, miss, count_refresh, started,
  in_progress, fresh,
}

abbrev cache_2 : Cache
cache_2 = record {
  entries = replicate 2 blank;
  control = record { next_refresh_serial = 1; stats = no_stats };
}

abbrev the_key : Bytes
the_key = text "k"

abbrev other_key : Bytes
other_key = text "x"

abbrev jwks : Outcome
jwks = record {
  success = true;
  cacheable = true;
  revalidation_required = false;
  ttl_ms = pos 100;
  stale_grace_ms = pos 50;
  payload = some (text "{}");
}

abbrev failed : Outcome
failed = record jwks { success = false }

-- what the other backends do while the first one fetches
abbrev meanwhile : List Op
meanwhile =
    looks_up (some the_key) (pos 11) true ∷ begins (some other_key) (pos 12) false (pos 0) ∷ []

cache_2-IsValid : IsValid cache_2
unfolding init run
cache_2-IsValid = run-init-IsValid 2 [] refl tt

run-init-IsValid_example : IsValid (run cache_2 meanwhile)
unfolding init run
run-init-IsValid_example = run-init-IsValid 2 meanwhile refl (tt, (tt, tt))

cache_2-started : (begin_refresh cache_2 (some the_key) (pos 10) false (pos 0)).result ≡ started
unfolding begin_refresh valid_key find_refresh_slot find_slot same_key note_slot choose_slot
    begin_at start_refresh count_refresh
cache_2-started = refl

abbrev begun : Begin
begun = begin_refresh cache_2 (some the_key) (pos 10) false (pos 0)

single_flight_example :
    (is_refreshing (run begun.cache meanwhile) (some the_key) ≡ true)
    × ((begin_refresh (run begun.cache meanwhile) (some the_key) (pos 20) false (pos 0)).result
        ≡ in_progress)
single_flight_example =
    single_flight cache_2 the_key (pos 10) false (pos 0) meanwhile 20 0 false cache_2-IsValid
      cache_2-started (tt, (tt, tt)) (tt, (tt, tt))

fetched_document_example :
    let done = complete_refresh (run begun.cache meanwhile) begun.refresh (pos 15) jwks in
    (done.result ≡ true)
    × (reply (entry_of done.cache.entries the_key) 60 false ≡ (fresh, text "{}"))
    × ((lookup done.cache (some the_key) (pos 60) false).freshness ≡ fresh)
unfolding bounded_add bad_outcome bad_payload
fetched_document_example =
    fetched_document cache_2 the_key (pos 10) false (pos 0) meanwhile 15 jwks 60 false
      cache_2-IsValid cache_2-started (tt, (tt, tt)) (tt, (tt, tt)) (omega arith) refl refl refl

lookup-answer_of_example : (lookup cache_2 (some the_key) (pos 5) true).freshness ≡ miss
unfolding entry_of valid_key same_key
lookup-answer_of_example = lookup-answer_of cache_2 the_key 5 true cache_2-IsValid refl

failed_refresh-SameReplies_example :
    SameReplies 10
      (entry_of (complete_refresh begun.cache begun.refresh (pos 15) failed).cache.entries the_key)
      (entry_of cache_2.entries the_key)
failed_refresh-SameReplies_example =
    failed_refresh-SameReplies cache_2 (some the_key) 10 false (pos 0) (pos 15) failed the_key
      cache_2-IsValid (inl refl)

begin_refresh-SameReplies_example :
    SameReplies 10 (entry_of begun.cache.entries other_key) (entry_of cache_2.entries other_key)
begin_refresh-SameReplies_example =
    begin_refresh-SameReplies cache_2 (some the_key) 10 false (pos 0) other_key cache_2-IsValid

complete_refresh-SameReplies_example :
    SameReplies 0
      (entry_of (complete_refresh begun.cache begun.refresh (pos 15) failed).cache.entries the_key)
      (entry_of begun.cache.entries the_key)
complete_refresh-SameReplies_example =
    complete_refresh-SameReplies begun.cache begun.refresh (pos 15) failed the_key
      (begin_refresh-IsValid cache_2 (some the_key) (pos 10) false (pos 0) cache_2-IsValid)
      (inl refl)

completes_once_example :
    let c' = (complete_refresh begun.cache begun.refresh (pos 15) jwks).cache in
    complete_refresh c' begun.refresh (pos 16) failed ≡ record { cache = c'; result = false }
completes_once_example = completes_once begun.cache begun.refresh (pos 15) (pos 16) jwks failed

bounded_add_bounds_example : (5 ≤ bounded_add 5 7) × (bounded_add 5 7 ≤ int64_max)
bounded_add_bounds_example = bounded_add_bounds 5 7 (omega arith)
