-- ===== src/IssuerKey/Keys.antt =====
-- The second half: the key set, and the fetch as a whole.
use pg_oauth_validator.CacheState.Types.{
  RefreshResult, started, in_progress, suppressed, capacity_full, invalid_argument, Refresh,
  LookupResult, miss,
}
use pg_oauth_validator.HttpTransport.Transfer.{Response, Got, got, not_got}
use pg_oauth_validator.HttpTransport.Request.{HttpPolicy}
use pg_oauth_validator.IssuerKey.Context.{
  CachePolicy, IssuerKeyPolicy, IssuerKeyError, cache_failed, jwks_http_failed, jwks_invalid, Step,
  pure, fail_with, then_do, set_http_error, set_selected, clear_selected, look_up, begin_refresh,
  wait_refresh, advance, give_up, complete_response, is_positive,
}
use pg_oauth_validator.IssuerKey.Documents.{is_copied, is_fresh, stored_or_fail}
use pg_oauth_validator.SharedCache.Io.{CacheIo}
use pg_oauth_validator.IssuerKey.Io.{Requests}
use pg_oauth_validator.Json.{Jansson}
use pg_oauth_validator.Jwks.Keys.{OpenSsl}
use pg_oauth_validator.Jwks.Select.{
  Selection, selected, unselected, JwksError, jwks_select, key_not_found,
}
use pg_oauth_validator.SharedCache.Operations.{IoLookup, Wait}
use pg_oauth_validator.Url.Parts.{CurlUrl}
use pg_oauth_validator.Base.{
  none, some, ℕ, ℤ, Bool, Bytes, true, false, if◌then◌else◌, ◌&&◌, not, ◌||◌,
}

abbrev pub is_key_not_found : JwksError → Bool
is_key_not_found key_not_found = true
is_key_not_found _ = false

abbrev pub is_miss : LookupResult → Bool
is_miss miss = true
is_miss _ = false

module _ (J : Jansson) (ssl : OpenSsl) (curl : CurlUrl) (getdate : Bytes → ℤ) (io : CacheIo)
    (web : Requests) where
  -- What the copy of the key set in the cache is good for.
  pub data Copied : Type 0 where
    no_copy : Copied
    copied_key : Bool → J.Json → ℕ → Copied
    copied_none : JwksError → Copied

  -- The copy that a lookup found; `copied_key` has whether it is fresh.
  unfoldable pub copied_from : Bool → Selection J ssl → Copied
  copied_from f (selected key a) = copied_key f key a
  copied_from f (unselected e) = copied_none e

  module _ (p : IssuerKeyPolicy) (key_id : Bytes) (algorithm : ℕ) where
    abbrev pub select_in : Bytes → Selection J ssl
    select_in document = jwks_select J ssl (some document) (some key_id) algorithm (some p.jwks)

    unfoldable pub copied_keys : IoLookup → Copied
    copied_keys l =
        if is_miss l.freshness || not (is_copied l.copy_result)
        then no_copy
        else copied_from (is_fresh l.freshness) (select_in l.output)

    -- After a request with no cache.
    unfoldable pub direct_selected : Selection J ssl → Step J io (Unit {0})
    direct_selected (selected key a) = set_selected J io none (some (key, a))
    direct_selected (unselected e) =
        then_do J io (set_selected J io (some e) none) λ u. fail_with J io jwks_invalid

    unfoldable pub direct_keys : Got → Step J io (Unit {0})
    direct_keys (not_got e) =
        then_do J io (set_http_error J io (some e)) λ u. fail_with J io jwks_http_failed
    direct_keys (got r) =
        then_do J io (set_http_error J io none) λ u. direct_selected (select_in r.body)

    module _ (q : CachePolicy) (response_time : ℤ) (key : Bytes) (size : ℕ) where
      unfoldable pub refreshed_selected :
          Refresh → Response → Selection J ssl → Step J io (Unit {0})
      refreshed_selected refresh r (unselected e) =
          then_do J io (set_selected J io (some e) none)
            λ u. then_do J io (give_up J io refresh) λ v. fail_with J io jwks_invalid
      refreshed_selected refresh r (selected k a) =
          then_do J io (set_selected J io none (some (k, a))) λ u.
            then_do J io
              (complete_response J io getdate refresh response_time q.jwks_freshness
                q.jwks_stale_grace_ms r)
              (stored_or_fail J curl getdate io web)

      unfoldable pub stale_or_fail : Bool → IssuerKeyError → Step J io (Unit {0})
      stale_or_fail true e = pure J io tt
      stale_or_fail false e = fail_with J io e

      -- The request of the owner. A fresh document takes the place of the stale key.
      unfoldable pub refreshed_keys : Bool → Refresh → Got → Step J io (Unit {0})
      refreshed_keys from_stale refresh (not_got e) =
          then_do J io (set_http_error J io (some e))
            λ u. then_do J io (give_up J io refresh) λ v. stale_or_fail from_stale jwks_http_failed
      refreshed_keys from_stale refresh (got r) = then_do J io (set_http_error J io none) λ u.
          then_do J io (if from_stale then clear_selected J io else pure J io tt)
            λ v. refreshed_selected refresh r (select_in r.body)

      -- The copy behind a wait: fresh or stale, it must have the key.
      unfoldable pub waited_keys : Copied → Step J io (Unit {0})
      waited_keys no_copy = fail_with J io cache_failed
      waited_keys (copied_key f k a) = set_selected J io none (some (k, a))
      waited_keys (copied_none e) =
          then_do J io (set_selected J io (some e) none) λ u. fail_with J io cache_failed

      unfoldable pub after_wait : Wait → Step J io (Unit {0})
      after_wait w =
          if not w.result
          then fail_with J io cache_failed
          else then_do J io (advance J io w.elapsed_ms) λ u.
            then_do J io (look_up J io key (is_positive q.jwks_stale_grace_ms) size)
              λ l. waited_keys (copied_keys l)

      unfoldable pub keys_begun :
          Bytes → HttpPolicy → Bool → RefreshResult × Refresh → Step J io (Unit {0})
      keys_begun uri http from_stale (started, refresh) =
          refreshed_keys from_stale refresh (web.jwks_request uri http)
      keys_begun uri http from_stale (in_progress, refresh) =
          if not from_stale && is_positive q.refresh_wait_timeout_ms
          then then_do J io (wait_refresh J io key q.refresh_wait_timeout_ms) after_wait
          else stale_or_fail from_stale cache_failed
      keys_begun uri http from_stale (suppressed, refresh) = stale_or_fail from_stale cache_failed
      keys_begun uri http from_stale (capacity_full, refresh) =
          stale_or_fail from_stale cache_failed
      keys_begun uri http from_stale (invalid_argument, refresh) =
          stale_or_fail from_stale cache_failed

      unfoldable pub refresh_keys : Bytes → HttpPolicy → Bool → Bool → Step J io (Unit {0})
      refresh_keys uri http unknown_kid from_stale =
          then_do J io (begin_refresh J io key unknown_kid q.unknown_kid_refresh_cooldown_ms)
            (keys_begun uri http from_stale)

      unfoldable pub found_keys : Bytes → HttpPolicy → Copied → Step J io (Unit {0})
      found_keys uri http no_copy = refresh_keys uri http false false
      found_keys uri http (copied_key true k a) = set_selected J io none (some (k, a))
      found_keys uri http (copied_key false k a) =
          then_do J io (set_selected J io none (some (k, a))) λ u. refresh_keys uri http false true
      found_keys uri http (copied_none e) = then_do J io (set_selected J io (some e) none) λ u.
          if is_key_not_found e
          then refresh_keys uri http true false
          else fail_with J io cache_failed

      unfoldable pub cached_keys : Bytes → HttpPolicy → Step J io (Unit {0})
      cached_keys uri http =
          then_do J io (look_up J io key (is_positive q.jwks_stale_grace_ms) size)
            λ l. found_keys uri http (copied_keys l)
