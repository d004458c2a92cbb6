-- ===== src/IssuerKey/Fetch.antt =====
-- `pg_oauth_issuer_key_fetch_cached` and `pg_oauth_issuer_key_fetch`.
use pg_oauth_validator.CacheKey.Build.{
  KeyPolicy, KeyResult, key_ok, key_invalid_argument, key_too_large, build, metadata_resource,
  jwks_resource,
}
use pg_oauth_validator.CacheState.Types.{max_payload_size}
use pg_oauth_validator.HttpTransport.Request.{HttpPolicy}
use pg_oauth_validator.IssuerKey.Context.{
  CachePolicy, cache_policy_valid, IssuerKeyPolicy, cache_failed, issuer_bad_argument, Context,
  Step, fail_with, then_do,
}
use pg_oauth_validator.IssuerKey.Documents.{cached_metadata, metadata_direct, use_metadata}
use pg_oauth_validator.IssuerKey.Keys.{cached_keys, direct_keys}
use pg_oauth_validator.SharedCache.Io.{CacheIo}
use pg_oauth_validator.IssuerKey.Io.{Requests}
use pg_oauth_validator.Json.{Jansson}
use pg_oauth_validator.Jwks.Keys.{OpenSsl}
use pg_oauth_validator.Url.Parts.{CurlUrl}
use pg_oauth_validator.Base.{
  none, some, ℕ, ℤ, pos, Option, Bytes, if◌then◌else◌, not, ltb, ◌==◌, ◌||◌,
}

-- The larger of the two response sizes.
unfoldable pub cached_capacity : IssuerKeyPolicy → ℕ
cached_capacity p =
    if ltb p.metadata_http.max_response_size p.jwks_http.max_response_size
    then p.jwks_http.max_response_size
    else p.metadata_http.max_response_size

-- The host of the discovery URL is the first host of the key set.
abbrev pub jwks_policy_for : IssuerKeyPolicy → Bytes → HttpPolicy
jwks_policy_for p host = record (p.jwks_http) { allowed_host = some host }

abbrev pub metadata_key_policy : CachePolicy → Bytes → Bytes → KeyPolicy
metadata_key_policy q issuer url = record (q.key_policy) {
  resource = metadata_resource;
  issuer = some issuer;
  metadata_url = some url;
  jwks_url = none;
}

abbrev pub jwks_key_policy : CachePolicy → Bytes → Bytes → Bytes → KeyPolicy
jwks_key_policy q issuer url uri = record (q.key_policy) {
  resource = jwks_resource;
  issuer = some issuer;
  metadata_url = some url;
  jwks_url = some uri;
}

module _ (J : Jansson) (ssl : OpenSsl) (curl : CurlUrl) (getdate : Bytes → ℤ) (io : CacheIo)
    (web : Requests) where
  module _ (p : IssuerKeyPolicy) (response_time : ℤ) (url issuer key_id : Bytes)
      (algorithm : ℕ) where
    unfoldable pub direct_rest : Bytes × Bytes → Step J io (Unit {0})
    direct_rest (uri, host) =
        direct_keys J ssl curl getdate io web p key_id algorithm
          (web.jwks_request uri (jwks_policy_for p host))

    unfoldable pub direct_fetch : Step J io (Unit {0})
    direct_fetch =
        then_do J io
          (metadata_direct J curl getdate io web (web.metadata_request url p.metadata_http))
          λ o.
            then_do J io (use_metadata J curl getdate io web p none response_time url issuer o)
              direct_rest

    module _ (q : CachePolicy) where
      unfoldable pub keys_under : Bytes × Bytes → KeyResult → Step J io (Unit {0})
      keys_under (uri, host) (key_ok key) =
          cached_keys J ssl curl getdate io web p key_id algorithm q response_time key
            (cached_capacity p) uri (jwks_policy_for p host)
      keys_under x key_invalid_argument = fail_with J io cache_failed
      keys_under x key_too_large = fail_with J io cache_failed

      unfoldable pub cached_rest : Bytes × Bytes → Step J io (Unit {0})
      cached_rest (uri, host) =
          keys_under (uri, host) (build (some (jwks_key_policy q issuer url uri)))

      unfoldable pub metadata_under : KeyResult → Step J io (Unit {0})
      metadata_under (key_ok key) =
          then_do J io (cached_metadata J curl getdate io web p q url key (cached_capacity p)) λ o.
            then_do J io (use_metadata J curl getdate io web p (some q) response_time url issuer o)
              cached_rest
      metadata_under key_invalid_argument = fail_with J io cache_failed
      metadata_under key_too_large = fail_with J io cache_failed

      unfoldable pub cached_fetch : Step J io (Unit {0})
      cached_fetch =
          if cached_capacity p == 0 || ltb max_payload_size (cached_capacity p)
          then fail_with J io cache_failed
          else metadata_under (build (some (metadata_key_policy q issuer url)))

  unfoldable pub fetch_with :
      IssuerKeyPolicy → ℤ → Bytes → Bytes → Bytes → ℕ → Option CachePolicy → Step J io (Unit {0})
  fetch_with p response_time url issuer key_id algorithm none =
      direct_fetch p response_time url issuer key_id algorithm
  fetch_with p response_time url issuer key_id algorithm (some q) =
      if not (cache_policy_valid q)
      then fail_with J io issuer_bad_argument
      else cached_fetch p response_time url issuer key_id algorithm q

  -- `memset(result, 0, sizeof(*result))`
  abbrev pub new_context : io.State → ℕ → Context J io
  new_context s now = record {
    cache = s;
    now = now;
    selected = none;
    http_error = none;
    metadata_error = none;
    jwks_error = none;
  }

  unfoldable pub fetch_cached :
      Option Bytes
      → Option Bytes
      → Option Bytes
      → ℕ
      → Option IssuerKeyPolicy
      → Option CachePolicy
      → ℤ
      → Step J io (Unit {0})
  fetch_cached none issuer key_id algorithm p q time = fail_with J io issuer_bad_argument
  fetch_cached (some url) none key_id algorithm p q time = fail_with J io issuer_bad_argument
  fetch_cached (some url) (some issuer) none algorithm p q time = fail_with J io issuer_bad_argument
  fetch_cached (some url) (some issuer) (some key_id) algorithm none q time =
      fail_with J io issuer_bad_argument
  fetch_cached (some url) (some issuer) (some key_id) algorithm (some p) q time =
      if algorithm == 0
      then fail_with J io issuer_bad_argument
      else fetch_with p time url issuer key_id algorithm q

  -- `pg_oauth_issuer_key_fetch`
  unfoldable pub fetch :
      Option Bytes → Option Bytes → Option Bytes → ℕ → Option IssuerKeyPolicy → Step J io (Unit {0})
  fetch url issuer key_id algorithm p = fetch_cached url issuer key_id algorithm p none (pos 0)
