-- ===== src/Callback/Sound.antt =====
-- The parts of an authorization.
use pg_oauth_validator.IssuerKey.Sound.{fetch_cached-Trusted}
use pg_oauth_validator.IssuerKey.Fetch.{new_context, fetch_cached}
use pg_oauth_validator.Callback.Settings.{config_snapshot, hba_policy_read}
use pg_oauth_validator.Callback.Stages.{
  metadata_url, bounded_length, monotonic_ms, issuer_key_policy, validator_policy, cache_policy_for,
  key_source, max_url_size, fetched_key, FetchDetail,
}
use pg_oauth_validator.Callback.Validate.{ModuleResult, Environment}
use pg_oauth_validator.HttpTransport.Request.{url_host_ok, http_url_host}
use pg_oauth_validator.IssuerKey.Context.{Context, IssuerKeyError}
use pg_oauth_validator.IssuerKey.Provenance.{Trusted}
use pg_oauth_validator.Jwks.Keys.{OpenSsl}
use pg_oauth_validator.Json.{Jansson}
use pg_oauth_validator.PolicyBuild.Bounded.{Complete}
use pg_oauth_validator.PolicyBuild.Build.{HbaPolicy, ValidationPolicy}
use pg_oauth_validator.SharedCache.Io.{CacheIo, Shared, shared_cache_io}
use pg_oauth_validator.SharedCache.State.{
  Sizes, Registry, Backend, configure_capacity, shared_cache_attach,
}
use pg_oauth_validator.Signature.Sound.{CheckedBy, signature_verify-CheckedBy}
use pg_oauth_validator.Signature.Verify.{Libjwt, signature_verify}
use pg_oauth_validator.Url.Parts.{CurlUrl}
use pg_oauth_validator.Validator.Pipeline.{ValidatorResult, KeySource}
use pg_oauth_validator.Validator.Sound.{Authenticated}
use pg_oauth_validator.Base.{
  [], ◌∷◌, some, true, false, inl, inr, ℕ, Bytes, suc, ℤ, ◌≤◌, Option, take, ◌≡◌, ◌⊎◌, arith, refl,
  ap, zero, none, sym, ◌∙◌, subst,
}

-- The whole token is what is validated.
pub bounded_length_lem :
    (n : ℕ) (token : Bytes)
    → bounded_length (suc n) token ≤ n
    → take (bounded_length (suc n) token) token ≡ token
unfolding bounded_length
bounded_length_lem n [] h = refl
bounded_length_lem zero (b ∷ bs) h = absurd (omega arith)
bounded_length_lem (suc n) (b ∷ bs) h = ap (◌∷◌ b) (bounded_length_lem n bs (omega arith))

module _ (J : Jansson) (ssl : OpenSsl) (curl : CurlUrl) (getdate : Bytes → ℤ) (L : Libjwt J)
    (sizes : Sizes) (registry : Registry) (x : Environment) where
  abbrev pub io : CacheIo
  io = shared_cache_io sizes registry

  -- The shared cache as the backend has it once it is attached.
  abbrev pub attached_shared : Backend → Shared
  attached_shared b =
      let a = shared_cache_attach sizes registry b x.shared.segment in
      record { backend = a.backend; segment = a.segment; others = x.shared.others }

  -- The time and the cache in which the fetch of the key starts: the clock of the callback, and the
  -- segment of the backend, which is attached with the configured capacity.
  pub record Opened (now : ℕ) (shared : Shared) : Type 0 where
    pub now_is : monotonic_ms x.clock ≡ some now
    pub backend : Backend
    pub configured :
        configure_capacity sizes registry x.shared.backend x.shared.segment
          x.variables.oauth_cache_max_entries
        ≡ (backend, true)
    pub attached : (shared_cache_attach sizes registry backend x.shared.segment).result ≡ true
    pub shared_is : shared ≡ attached_shared backend

  -- The token is authentic for the policy of the rule, its key is one of the issuer's, and its
  -- signature has been checked with that key and no other.
  pub record Authorized (role : Option Bytes) (token : Bytes) (r : ModuleResult) : Type 0 where
    pub rule : HbaPolicy
    pub rule_is : hba_policy_read x.hba x.policy_option ≡ some rule
    pub policy : ValidationPolicy
    pub policy_complete : Complete (config_snapshot x.variables) rule policy
    pub url : Bytes
    pub url_is : metadata_url policy.issuer ≡ some url
    pub host : Bytes
    pub host_is :
        http_url_host curl (some url) max_url_size policy.config.allow_insecure_http
        ≡ url_host_ok host
    pub now : ℕ
    pub shared : Shared
    pub opened : Opened now shared
    pub result : ValidatorResult J (
        key_source J ssl curl getdate L
          (shared_cache_io sizes registry)
          x.requests
          (issuer_key_policy policy host)
          (cache_policy_for policy)
          now
          x.wall_time
          shared)
    pub authenticated :
        Authenticated J
          (key_source J ssl curl getdate L
            (shared_cache_io sizes registry)
            x.requests
            (issuer_key_policy policy host)
            (cache_policy_for policy)
            now
            x.wall_time
            shared)
          token
          url
          (validator_policy policy role x.wall_time)
          result
    pub key : J.Json
    pub found : ℕ
    pub trusted :
        Trusted
          (shared_cache_io sizes registry)
          x.requests
          J
          curl
          getdate
          (issuer_key_policy policy host)
          url
          policy.issuer
          ssl
          (some (cache_policy_for policy))
          x.wall_time
          (new_context J ssl curl getdate (shared_cache_io sizes registry) x.requests shared now)
          authenticated.envelope.key_id
          authenticated.envelope.algorithm
          key
          found
    pub checked : CheckedBy J L token key found
    pub authn_id_is : r.authn_id ≡ some authenticated.claims.identity
    pub returned_true : r.returned ≡ true
    pub not_interrupted : x.interrupt_pending ≡ false

  module _ (v : ValidationPolicy) (role : Option Bytes) (url host : Bytes) (now : ℕ)
      (shared : Shared) where
    abbrev pub keys : KeySource
    keys =
        key_source J ssl curl getdate L (shared_cache_io sizes registry) x.requests
          (issuer_key_policy v host) (cache_policy_for v) now x.wall_time shared

    fetched_key_some :
        (y : Context J (shared_cache_io sizes registry) × (IssuerKeyError ⊎ Unit {0}))
        (d : FetchDetail J ssl curl getdate L (shared_cache_io sizes registry) x.requests)
        (k : Option (J.Json × ℕ))
        → fetched_key J ssl curl getdate L (shared_cache_io sizes registry) x.requests y
          ≡ (d, inr k)
        → (y.1 ≡ inr tt) × (y.0.selected ≡ k)
    unfolding fetched_key
    fetched_key_some (c, inl e) d k h = absurd (cc h)
    fetched_key_some (c, inr u) d k h = (refl, cc h)

    pub signed_key :
        (token : Bytes) (o : Option (J.Json × ℕ))
        → signature_verify J L (some token) o ≡ none
        → (key : J.Json) × (found : ℕ) × (o ≡ some (key, found)) × CheckedBy J L token key found
    unfolding signature_verify
    signed_key token none h = absurd (cc h)
    signed_key token (some (key, found)) h =
        (key, found, refl, signature_verify-CheckedBy J L token key found h)

    abbrev start : Context J (shared_cache_io sizes registry)
    start = new_context J ssl curl getdate (shared_cache_io sizes registry) x.requests shared now

    -- The key of a fetch with the policies of the connection, from that cache and at that time.
    abbrev pub KeyTrusted : Bytes → Bytes → ℕ → J.Json → ℕ → Type 0
    KeyTrusted issuer key_id algorithm key found =
        Trusted (shared_cache_io sizes registry) x.requests J curl getdate
          (issuer_key_policy v host) url issuer ssl (some (cache_policy_for v)) x.wall_time start
          key_id algorithm key found

    pub fetched_trusted :
        (issuer key_id : Bytes) (algorithm : ℕ)
        (d : FetchDetail J ssl curl getdate L (shared_cache_io sizes registry) x.requests)
        (o : Option (J.Json × ℕ)) (key : J.Json) (found : ℕ)
        → issuer ≡ v.issuer
        → keys.fetch url issuer key_id algorithm ≡ (d, inr o)
        → o ≡ some (key, found)
        → KeyTrusted v.issuer key_id algorithm key found
    fetched_trusted issuer key_id algorithm d o key found ei h ek =
        let y =
          fetch_cached J ssl curl getdate (shared_cache_io sizes registry) x.requests (some url)
            (some issuer) (some key_id) algorithm (some (issuer_key_policy v host))
            (some (cache_policy_for v)) x.wall_time start in
        let (ended, sel) = fetched_key_some y d o h in
        let f =
          fetch_cached-Trusted J ssl curl getdate (shared_cache_io sizes registry) x.requests
            (issuer_key_policy v host) x.wall_time url issuer key_id algorithm
            (some (cache_policy_for v)) start ended in
        let same : some (f.key, f.found) ≡ some (key, found) = sym f.result_is ∙ sel ∙ ek in
        let same_key : f.key ≡ key = cc same in
        let same_found : f.found ≡ found = cc same in
        subst (λ (i : Bytes). KeyTrusted i key_id algorithm key found) ei
          (subst (λ (k : J.Json). KeyTrusted issuer key_id algorithm k found) same_key
            (subst (λ (n : ℕ). KeyTrusted issuer key_id algorithm f.key n) same_found f.trusted))
