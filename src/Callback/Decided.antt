-- ===== src/Callback/Decided.antt =====
-- What the callback decides once the pipeline has run.
use pg_oauth_validator.HttpTransport.Request.{http_url_host, url_host_ok}
use pg_oauth_validator.Callback.Settings.{hba_policy_read, config_snapshot}
use pg_oauth_validator.Validator.Pipeline.{ValidatorResult, validator_ok, validate_access_token}
use pg_oauth_validator.SharedCache.Io.{Shared, shared_cache_io}
use pg_oauth_validator.PolicyBuild.Build.{ValidationPolicy, HbaPolicy, policy_build, policy_ok}
use pg_oauth_validator.SharedCache.State.{Sizes, Registry}
use pg_oauth_validator.Signature.Verify.{Libjwt}
use pg_oauth_validator.Url.Parts.{CurlUrl}
use pg_oauth_validator.Jwks.Keys.{OpenSsl}
use pg_oauth_validator.Json.{Jansson}
use pg_oauth_validator.Callback.Stages.{
  bounded_length, validator_policy, key_source, issuer_key_policy, cache_policy_for, metadata_url,
  max_url_size,
}
use pg_oauth_validator.Callback.Sound.{Opened, attached_shared, bounded_length_lem}
use pg_oauth_validator.Validator.Pipeline.{
  ValidatorError, validator_bad_argument, validator_envelope, validator_issuer_key,
  validator_signature, validator_claims, validator_identity,
}
use pg_oauth_validator.SharedCache.State.{Backend, configure_capacity, shared_cache_attach}
use pg_oauth_validator.Callback.Stages.{monotonic_ms}
use pg_oauth_validator.Callback.Validate.{
  ModuleResult, Environment, finish_callback, run_pipeline, validate_token, validate_at,
  validate_issuer, validate_clocked, validate_attached, validate_configured, validate_policy,
  validate_rule, validate_callback, rejected, authorized_as,
}
use pg_oauth_validator.Base.{
  some, true, false, ℕ, Bytes, ℤ, Option, ◌≡◌, ◌≢◌, refl, Bool, zero, suc, [], ◌∷◌, ◌≤◌, ◌<◌,
  length, magnitude, is_negative, arith, ltb, ◌==◌, ◌||◌, take, ap, subst, sym, ◌∙◌,
}

bounded_length-length :
    (n : ℕ) (token : Bytes) → length token ≤ n → bounded_length n token ≡ length token
unfolding bounded_length
bounded_length-length zero [] h = refl
bounded_length-length zero (b ∷ bs) h = absurd (omega (arith, h))
bounded_length-length (suc n) [] h = refl
bounded_length-length (suc n) (b ∷ bs) h = ap suc (bounded_length-length n bs (omega (arith, h)))

module _ (J : Jansson) (ssl : OpenSsl) (curl : CurlUrl) (getdate : Bytes → ℤ) (L : Libjwt J)
    (sizes : Sizes) (registry : Registry) (x : Environment) where
  finished :
      (e : ValidatorError) (identity : Option Bytes) (i : Bool)
      → i ≡ false
      → (e ≡ validator_ok
          → finish_callback J ssl curl getdate L sizes registry x i e identity
            ≡ authorized_as identity)
        × (e ≢ validator_ok
            → finish_callback J ssl curl getdate L sizes registry x i e identity ≡ rejected)
  unfolding finish_callback
  finished e identity true h = absurd (cc h)
  finished validator_ok identity false h = ((λ g. refl), λ g. absurd (g refl))
  finished validator_bad_argument identity false h = ((λ g. absurd (cc g)), λ g. refl)
  finished validator_envelope identity false h = ((λ g. absurd (cc g)), λ g. refl)
  finished validator_issuer_key identity false h = ((λ g. absurd (cc g)), λ g. refl)
  finished validator_signature identity false h = ((λ g. absurd (cc g)), λ g. refl)
  finished validator_claims identity false h = ((λ g. absurd (cc g)), λ g. refl)
  finished validator_identity identity false h = ((λ g. absurd (cc g)), λ g. refl)

  -- The callback does what the pipeline says on the whole token.
  module _ (role : Option Bytes) (token : Bytes) (v : ValidationPolicy) (url host : Bytes) (now : ℕ)
      (shared : Shared) where
    abbrev ran : ValidatorResult J (
        key_source J ssl curl getdate L
          (shared_cache_io sizes registry)
          x.requests
          (issuer_key_policy v host)
          (cache_policy_for v)
          now
          x.wall_time
          shared)
    ran =
        validate_access_token J
          (key_source J ssl curl getdate L (shared_cache_io sizes registry) x.requests
            (issuer_key_policy v host) (cache_policy_for v) now x.wall_time shared)
          (some token) (some url) (some (validator_policy v role x.wall_time))

    abbrev pub Decides : ModuleResult → Type 0
    Decides r =
        (ran.error ≡ validator_ok → r ≡ authorized_as ran.identity)
        × (ran.error ≢ validator_ok → r ≡ rejected)

    decided :
        x.interrupt_pending ≡ false
        → Decides
            (run_pipeline J ssl curl getdate L sizes registry x v role url host now shared token)
    unfolding run_pipeline finish_callback
    decided quiet = finished ran.error ran.identity x.interrupt_pending quiet

    whole_token :
        x.interrupt_pending ≡ false
        → 0 < length token
        → length token ≤ magnitude v.config.max_token_size
        → Decides (
            validate_token J ssl curl getdate L sizes registry x v role url host now shared
              (some token))
    unfolding validate_token
    whole_token quiet lo hi =
        let limit = magnitude v.config.max_token_size in
        let e = bounded_length-length (suc limit) token (omega (arith, hi)) in
        let t : take (bounded_length (suc limit) token) token ≡ token =
          bounded_length_lem limit token (omega (arith, e, hi)) in
        let fine : (bounded_length (suc limit) token == 0
              || ltb limit (bounded_length (suc limit) token))
            ≡ false =
          ground (arith, e, lo, hi) in
        rw (fine, t) (decided quiet)

  -- The way to the pipeline.
  reaches_token :
      (role o : Option Bytes) (rule : HbaPolicy) (v : ValidationPolicy) (url host : Bytes) (now : ℕ)
      (b : Backend)
      → hba_policy_read x.hba x.policy_option ≡ some rule
      → policy_build (some (config_snapshot x.variables)) (some rule) ≡ policy_ok v
      → configure_capacity sizes registry x.shared.backend x.shared.segment
          x.variables.oauth_cache_max_entries
        ≡ (b, true)
      → (shared_cache_attach sizes registry b x.shared.segment).result ≡ true
      → monotonic_ms x.clock ≡ some now
      → metadata_url v.issuer ≡ some url
      → http_url_host curl (some url) max_url_size v.config.allow_insecure_http ≡ url_host_ok host
      → is_negative x.wall_time ≡ false
      → validate_callback J ssl curl getdate L sizes registry x role o
        ≡ validate_token J ssl curl getdate L sizes registry x v role url host now
            (attached_shared J ssl curl getdate L sizes registry x b)
            o
  unfolding validate_callback validate_rule validate_policy validate_configured validate_attached
      validate_clocked validate_issuer validate_at
  reaches_token role o rule v url host now b er ep ec ea en eu eh ew =
      rw (er, ep, ec, ea, en, eu, eh, ew) refl

  -- A token that is not empty and within the largest size, on a connection that has a rule, from which
  -- a policy is built, with the shared cache attached, both clocks readable, an issuer whose discovery
  -- URL is valid, and no interrupt pending at the end: the callback authorizes it with the identity of
  -- the pipeline if the pipeline accepts it, and rejects it if the pipeline ends with any error.
  pub validate_callback-Decides :
      (role : Option Bytes) (token : Bytes) (rule : HbaPolicy) (v : ValidationPolicy)
      (url host : Bytes) (now : ℕ) (shared : Shared)
      → hba_policy_read x.hba x.policy_option ≡ some rule
      → policy_build (some (config_snapshot x.variables)) (some rule) ≡ policy_ok v
      → Opened J ssl curl getdate L sizes registry x now shared
      → metadata_url v.issuer ≡ some url
      → http_url_host curl (some url) max_url_size v.config.allow_insecure_http ≡ url_host_ok host
      → is_negative x.wall_time ≡ false
      → x.interrupt_pending ≡ false
      → 0 < length token
      → length token ≤ magnitude v.config.max_token_size
      → Decides role token v url host now shared
          (validate_callback J ssl curl getdate L sizes registry x role (some token))
  validate_callback-Decides role token rule v url host now shared er ep op eu eh ew quiet lo hi =
      let way =
        reaches_token role (some token) rule v url host now op.backend er ep op.configured
          op.attached op.now_is eu eh ew in
      let same =
        ap
          (λ (s : Shared).
            validate_token J ssl curl getdate L sizes registry x v role url host now s (some token))
          op.shared_is in
      subst (Decides role token v url host now shared) (same ∙ sym way)
        (whole_token role token v url host now shared quiet lo hi)
