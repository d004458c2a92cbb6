-- ===== src/IssuerKey/Documents.antt =====
-- The first half of the fetch: the discovery document, from the cache or from the provider.
use pg_oauth_validator.CacheState.Types.{
  RefreshResult, started, in_progress, suppressed, capacity_full, invalid_argument, Refresh,
  LookupResult, fresh, CopyResult, copy_ok,
}
use pg_oauth_validator.HttpTransport.Transfer.{Response, Got, got, not_got}
use pg_oauth_validator.IssuerKey.Context.{
  CachePolicy, IssuerKeyPolicy, cache_failed, metadata_http_failed, metadata_invalid, Step, pure,
  fail_with, then_do, set_http_error, set_metadata_error, look_up, begin_refresh, wait_refresh,
  advance, give_up, complete_response, is_positive,
}
use pg_oauth_validator.SharedCache.Io.{CacheIo}
use pg_oauth_validator.IssuerKey.Io.{Requests}
use pg_oauth_validator.HttpTransport.Request.{UrlHost, url_host_ok, url_host_failed, http_url_host}
use pg_oauth_validator.Json.{Jansson}
use pg_oauth_validator.Metadata.Parse.{Metadata, parsed, refused, metadata_parse}
use pg_oauth_validator.SharedCache.Operations.{IoLookup, Wait}
use pg_oauth_validator.Url.Parts.{CurlUrl}
use pg_oauth_validator.Base.{
  none, some, ℕ, ℤ, pos, Bool, Option, Bytes, true, false, if◌then◌else◌, ◌&&◌, not,
}

-- `lookup.copy_result == PG_OAUTH_CACHE_COPY_OK`
abbrev pub is_copied : CopyResult → Bool
is_copied copy_ok = true
is_copied _ = false

abbrev pub is_fresh : LookupResult → Bool
is_fresh fresh = true
is_fresh _ = false

-- A copy of a fresh document.
unfoldable pub fresh_copy : IoLookup → Option Bytes
fresh_copy l = if is_fresh l.freshness && is_copied l.copy_result then some l.output else none

-- Where a document comes from: the cache, a request whose refresh this backend owns, or a request
-- with no cache.
pub data Origin : Type 0 where
  from_cache : Bytes → Origin
  from_refresh : Refresh → Response → Origin
  from_request : Response → Origin

abbrev pub body_of : Origin → Bytes
body_of (from_cache b) = b
body_of (from_refresh r x) = x.body
body_of (from_request x) = x.body

module _ (J : Jansson) (curl : CurlUrl) (getdate : Bytes → ℤ) (io : CacheIo) (web : Requests) where
  module _ (p : IssuerKeyPolicy) (q : CachePolicy) (metadata_url : Bytes) (key : Bytes)
      (size : ℕ) where
    unfoldable pub metadata_requested : Refresh → Got → Step J io Origin
    metadata_requested refresh (got r) =
        then_do J io (set_http_error J io none) λ u. pure J io (from_refresh refresh r)
    metadata_requested refresh (not_got e) =
        then_do J io (set_http_error J io (some e))
          λ u. then_do J io (give_up J io refresh) λ v. fail_with J io metadata_http_failed

    unfoldable pub metadata_copied : Option Bytes → Step J io Origin
    metadata_copied none = fail_with J io cache_failed
    metadata_copied (some b) = pure J io (from_cache b)

    unfoldable pub metadata_waited : Wait → Step J io Origin
    metadata_waited w =
        if not w.result
        then fail_with J io cache_failed
        else then_do J io (advance J io w.elapsed_ms)
            λ u. then_do J io (look_up J io key false size) λ l. metadata_copied (fresh_copy l)

    unfoldable pub metadata_begun : RefreshResult × Refresh → Step J io Origin
    metadata_begun (started, refresh) =
        metadata_requested refresh (web.metadata_request metadata_url p.metadata_http)
    metadata_begun (in_progress, refresh) =
        if is_positive q.refresh_wait_timeout_ms
        then then_do J io (wait_refresh J io key q.refresh_wait_timeout_ms) metadata_waited
        else fail_with J io cache_failed
    metadata_begun (suppressed, refresh) = fail_with J io cache_failed
    metadata_begun (capacity_full, refresh) = fail_with J io cache_failed
    metadata_begun (invalid_argument, refresh) = fail_with J io cache_failed

    unfoldable pub metadata_found : Option Bytes → Step J io Origin
    metadata_found (some b) = pure J io (from_cache b)
    metadata_found none = then_do J io (begin_refresh J io key false (pos 0)) metadata_begun

    unfoldable pub cached_metadata : Step J io Origin
    cached_metadata = then_do J io (look_up J io key false size) λ l. metadata_found (fresh_copy l)

  unfoldable pub metadata_direct : Got → Step J io Origin
  metadata_direct (got r) = then_do J io (set_http_error J io none) λ u. pure J io (from_request r)
  metadata_direct (not_got e) =
      then_do J io (set_http_error J io (some e)) λ u. fail_with J io metadata_http_failed

  -- The owner of the refresh gives up a document that cannot be used.
  unfoldable pub drop_origin : Origin → Step J io (Unit {0})
  drop_origin (from_refresh refresh r) = give_up J io refresh
  drop_origin (from_cache b) = pure J io tt
  drop_origin (from_request r) = pure J io tt

  unfoldable pub stored_or_fail : Bool → Step J io (Unit {0})
  stored_or_fail true = pure J io tt
  stored_or_fail false = fail_with J io cache_failed

  -- `complete_response` for the owner of a refresh; `cached` is none with no cache.
  unfoldable pub store_metadata : ℤ → Option CachePolicy → Origin → Step J io (Unit {0})
  store_metadata response_time (some q) (from_refresh refresh r) =
      then_do J io
        (complete_response J io getdate refresh response_time q.metadata_freshness (pos 0) r)
        stored_or_fail
  store_metadata response_time none (from_refresh refresh r) = pure J io tt
  store_metadata response_time q (from_cache b) = pure J io tt
  store_metadata response_time q (from_request r) = pure J io tt

  -- `jwks_uri`, and the host of the discovery URL
  unfoldable pub metadata_host : Bytes → UrlHost curl → Step J io (Bytes × Bytes)
  metadata_host uri (url_host_ok host) =
      then_do J io (set_http_error J io none) λ u. pure J io (uri, host)
  metadata_host uri (url_host_failed e) =
      then_do J io (set_http_error J io (some e)) λ u. fail_with J io metadata_http_failed

  unfoldable pub metadata_parsed :
      IssuerKeyPolicy
      → Option CachePolicy
      → ℤ
      → Bytes
      → Origin
      → Metadata
      → Step J io (Bytes × Bytes)
  metadata_parsed p q response_time metadata_url origin (refused e) =
      then_do J io (set_metadata_error J io (some e))
        λ u. then_do J io (drop_origin origin) λ v. fail_with J io metadata_invalid
  metadata_parsed p q response_time metadata_url origin (parsed uri) =
      then_do J io (set_metadata_error J io none) λ u.
        then_do J io (store_metadata response_time q origin) λ v. metadata_host uri (
          http_url_host curl (some metadata_url) p.metadata_http.max_url_size
            p.metadata_http.allow_insecure_http)

  unfoldable pub use_metadata :
      IssuerKeyPolicy → Option CachePolicy → ℤ → Bytes → Bytes → Origin → Step J io (Bytes × Bytes)
  use_metadata p q response_time metadata_url issuer origin =
      metadata_parsed p q response_time metadata_url origin
        (metadata_parse J curl (some (body_of origin)) (some issuer) (some p.metadata))
