-- ===== src/IssuerKey/Context.antt =====
-- The variables of `pg_oauth_issuer_key_fetch_cached`, and the steps on them: a step returns, or it
-- goes to `done` with an error.
use pg_oauth_validator.Json.{Jansson}
use pg_oauth_validator.CacheKey.Build.{KeyPolicy}
use pg_oauth_validator.CacheState.Types.{RefreshResult, Refresh}
use pg_oauth_validator.CacheState.Complete.{Outcome}
use pg_oauth_validator.HttpFreshness.Calculate.{
  Policy, Freshness, Result, ok, invalid_argument, invalid_header, calculate,
}
use pg_oauth_validator.HttpTransport.Request.{HttpError, HttpPolicy}
use pg_oauth_validator.HttpTransport.Transfer.{Response}
use pg_oauth_validator.SharedCache.Io.{CacheIo}
use pg_oauth_validator.Jwks.Keys.{JwksPolicy}
use pg_oauth_validator.Jwks.Select.{JwksError}
use pg_oauth_validator.Metadata.Parse.{MetadataError, MetadataPolicy}
use pg_oauth_validator.SharedCache.Operations.{IoLookup, Wait}
use pg_oauth_validator.Base.{
  none, some, ℕ, ℤ, pos, Bool, Option, Bytes, ◌⊎◌, inl, inr, true, false, ltb, ltb_ℤ, if◌then◌else◌,
  ◌+◌, ◌-◌, ◌&&◌, not, is_negative, int64_max,
}

pub data IssuerKeyError : Type 0 where
  issuer_bad_argument metadata_http_failed metadata_invalid jwks_http_failed jwks_invalid :
      IssuerKeyError
  cache_failed : IssuerKeyError

pub record IssuerKeyPolicy : Type 0 where
  pub metadata_http : HttpPolicy
  pub metadata : MetadataPolicy
  pub jwks_http : HttpPolicy
  pub jwks : JwksPolicy

pub record CachePolicy : Type 0 where
  pub key_policy : KeyPolicy
  pub metadata_freshness : Policy
  pub jwks_freshness : Policy
  pub jwks_stale_grace_ms : ℤ
  pub unknown_kid_refresh_cooldown_ms : ℤ
  pub refresh_wait_timeout_ms : ℤ

abbrev pub is_positive : ℤ → Bool
is_positive n = ltb_ℤ (pos 0) n

unfoldable pub cache_policy_valid : CachePolicy → Bool
cache_policy_valid p =
    not (is_negative p.metadata_freshness.default_ttl_ms)
    && is_positive p.metadata_freshness.maximum_ttl_ms
    && not (is_negative p.jwks_freshness.default_ttl_ms)
    && is_positive p.jwks_freshness.maximum_ttl_ms
    && not (is_negative p.jwks_stale_grace_ms)
    && not (is_negative p.unknown_kid_refresh_cooldown_ms)
    && not (is_negative p.refresh_wait_timeout_ms)

-- What the owner of a refresh reports when it gives up.
abbrev pub given_up : Outcome
given_up = record {
  success = false;
  cacheable = false;
  revalidation_required = false;
  ttl_ms = pos 0;
  stale_grace_ms = pos 0;
  payload = none;
}

module _ (J : Jansson) (io : CacheIo) where
  -- The result of the fetch, the state of the cache, and `cache_now_ms`. The times are not negative.
  pub record Context : Type 0 where
    pub cache : io.State
    pub now : ℕ
    pub selected : Option (J.Json × ℕ)
    pub http_error : Option HttpError
    pub metadata_error : Option MetadataError
    pub jwks_error : Option JwksError

  abbrev pub Step : Type 0 → Type 0
  Step A = Context → Context × (IssuerKeyError ⊎ A)

  abbrev pub pure : {A : Type 0} → A → Step A
  pure a c = (c, inr a)

  abbrev pub fail_with : {A : Type 0} → IssuerKeyError → Step A
  fail_with e c = (c, inl e)

  -- What follows a step that has ended.
  abbrev pub continue :
      {A B : Type 0}
      → (A → Step B)
      → Context × (IssuerKeyError ⊎ A)
      → Context × (IssuerKeyError ⊎ B)
  continue f (c, inl e) = (c, inl e)
  continue f (c, inr a) = f a c

  abbrev pub then_do : {A B : Type 0} → Step A → (A → Step B) → Step B
  then_do m f c = continue f (m c)

  unfoldable pub set_http_error : Option HttpError → Step (Unit {0})
  set_http_error e c = (record c { http_error = e }, inr tt)

  unfoldable pub set_metadata_error : Option MetadataError → Step (Unit {0})
  set_metadata_error e c = (record c { metadata_error = e }, inr tt)

  unfoldable pub set_selected : Option JwksError → Option (J.Json × ℕ) → Step (Unit {0})
  set_selected e k c = (record c { jwks_error = e; selected = k }, inr tt)

  unfoldable pub clear_selected : Step (Unit {0})
  clear_selected c = (record c { selected = none }, inr tt)

  unfoldable pub look_up : Bytes → Bool → ℕ → Step IoLookup
  look_up key allow_stale size c =
      let (s, l) = io.lookup c.cache key c.now allow_stale size in (record c { cache = s }, inr l)

  unfoldable pub begin_refresh : Bytes → Bool → ℤ → Step (RefreshResult × Refresh)
  begin_refresh key unknown_kid cooldown c =
      let (s, r) = io.begin_refresh c.cache key c.now unknown_kid cooldown in
      (record c { cache = s }, inr r)

  unfoldable pub wait_refresh : Bytes → ℤ → Step Wait
  wait_refresh key timeout c =
      let (s, w) = io.wait_refresh c.cache key timeout in (record c { cache = s }, inr w)

  unfoldable pub complete_refresh : Refresh → Outcome → Step Bool
  complete_refresh refresh outcome c =
      let (s, b) = io.complete_refresh c.cache refresh c.now outcome in
      (record c { cache = s }, inr b)

  -- `cache_now_ms += elapsed_ms` after the test for overflow
  unfoldable pub advance : ℕ → Step (Unit {0})
  advance elapsed_ms c =
      if ltb (int64_max - c.now) elapsed_ms
      then (c, inl cache_failed)
      else (record c { now = c.now + elapsed_ms }, inr tt)

  -- The outcome of a response by its freshness.
  unfoldable pub outcome_of : Freshness → ℤ → Response → Outcome
  outcome_of f stale_grace r = record {
    success = true;
    cacheable = f.cacheable;
    revalidation_required = f.revalidation_required;
    ttl_ms = pos f.ttl_ms;
    stale_grace_ms = stale_grace;
    payload = some r.body;
  }

  -- The owner gives the refresh up, whatever the cache answers.
  unfoldable pub give_up : Refresh → Step (Unit {0})
  unfolding complete_refresh
  give_up refresh = then_do (complete_refresh refresh given_up) λ b. pure tt

  module _ (getdate : Bytes → ℤ) where
    unfoldable pub complete_with : Refresh → ℤ → Response → Result → Step Bool
    complete_with refresh stale_grace r (ok f) =
        complete_refresh refresh (outcome_of f stale_grace r)
    complete_with refresh stale_grace r invalid_argument = then_do (give_up refresh) λ u. pure false
    complete_with refresh stale_grace r invalid_header = then_do (give_up refresh) λ u. pure false

    unfoldable pub complete_response : Refresh → ℤ → Policy → ℤ → Response → Step Bool
    complete_response refresh response_time p stale_grace r =
        complete_with refresh stale_grace r (calculate getdate r.headers response_time (some p))
