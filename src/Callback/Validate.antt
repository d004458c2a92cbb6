-- ===== src/Callback/Validate.antt =====
-- `pg_oauth_validator_validate`.
use pg_oauth_validator.Callback.Settings.{Variables, HbaLine, config_snapshot, hba_policy_read}
use pg_oauth_validator.Callback.Stages.{
  metadata_url, monotonic_ms, bounded_length, issuer_key_policy, validator_policy, cache_policy_for,
  key_source, max_url_size,
}
use pg_oauth_validator.HttpTransport.Request.{UrlHost, url_host_ok, url_host_failed, http_url_host}
use pg_oauth_validator.IssuerKey.Io.{Requests}
use pg_oauth_validator.Jwks.Keys.{OpenSsl}
use pg_oauth_validator.Json.{Jansson}
use pg_oauth_validator.PolicyBuild.Build.{
  HbaPolicy, ValidationPolicy, PolicyResult, policy_ok, policy_refused, policy_build,
}
use pg_oauth_validator.SharedCache.Io.{Shared, shared_cache_io}
use pg_oauth_validator.SharedCache.State.{
  Sizes, Registry, Backend, Attach, configure_capacity, shared_cache_attach,
}
use pg_oauth_validator.Signature.Verify.{Libjwt}
use pg_oauth_validator.Url.Parts.{CurlUrl}
use pg_oauth_validator.Validator.Pipeline.{ValidatorError, validator_ok, validate_access_token}
use pg_oauth_validator.Base.{
  none, some, ℕ, suc, ℤ, Bool, Option, Bytes, if◌then◌else◌, true, false, ltb, ◌==◌, ◌||◌,
  magnitude, is_negative, take,
}

-- ValidatorModuleResult, with the value that the callback returns: false for an internal error. The
-- detail of an error is there from PostgreSQL 19 on, whose build is the one modelled.
pub record ModuleResult : Type 0 where
  pub returned : Bool
  pub authorized : Bool
  pub authn_id : Option Bytes
  pub error_detail : Bool

-- The outputs as they are set before any work, and an internal error.
abbrev pub internal_failure : ModuleResult
internal_failure = record {
  returned = false;
  authorized = false;
  authn_id = none;
  error_detail = false;
}

abbrev pub rejected : ModuleResult
rejected = record { returned = true; authorized = false; authn_id = none; error_detail = true }

abbrev pub authorized_as : Option Bytes → ModuleResult
authorized_as identity = record {
  returned = true;
  authorized = true;
  authn_id = identity;
  error_detail = false;
}

abbrev pub is_validator_ok : ValidatorError → Bool
is_validator_ok validator_ok = true
is_validator_ok _ = false

-- What the callback finds: the settings, the rule, the clocks, the answers of the provider, whether an
-- interrupt is pending at the end, and the shared cache with what other backends do to it.
pub record Environment : Type 0 where
  pub variables : Variables
  pub hba : Option HbaLine
  pub policy_option : Option Bytes
  pub clock : Option (ℤ × ℕ)
  pub wall_time : ℤ
  pub requests : Requests
  pub interrupt_pending : Bool
  pub shared : Shared

module _ (J : Jansson) (ssl : OpenSsl) (curl : CurlUrl) (getdate : Bytes → ℤ) (L : Libjwt J)
    (sizes : Sizes) (registry : Registry) (x : Environment) where
  -- The result of the pipeline.
  unfoldable pub finish_callback : Bool → ValidatorError → Option Bytes → ModuleResult
  finish_callback interrupted error identity =
      if interrupted
      then internal_failure
      else if is_validator_ok error
      then authorized_as identity
      else rejected

  -- The pipeline on a token of a good length.
  unfoldable pub run_pipeline :
      ValidationPolicy → Option Bytes → Bytes → Bytes → ℕ → Shared → Bytes → ModuleResult
  run_pipeline v role url host now shared token =
      let r =
        validate_access_token J
          (key_source J ssl curl getdate L (shared_cache_io sizes registry) x.requests
            (issuer_key_policy v host) (cache_policy_for v) now x.wall_time shared)
          (some token) (some url) (some (validator_policy v role x.wall_time)) in
      finish_callback x.interrupt_pending r.error r.identity

  unfoldable pub validate_token :
      ValidationPolicy → Option Bytes → Bytes → Bytes → ℕ → Shared → Option Bytes → ModuleResult
  validate_token v role url host now shared none = rejected
  validate_token v role url host now shared (some token) =
      let limit = magnitude v.config.max_token_size in
      let size = bounded_length (suc limit) token in
      if size == 0 || ltb limit size
      then rejected
      else run_pipeline v role url host now shared (take size token)

  unfoldable pub validate_at :
      ValidationPolicy
      → Option Bytes
      → Option Bytes
      → Bytes
      → ℕ
      → Shared
      → UrlHost curl
      → ModuleResult
  validate_at v role token url now shared (url_host_failed e) = internal_failure
  validate_at v role token url now shared (url_host_ok host) =
      if is_negative x.wall_time
      then internal_failure
      else validate_token v role url host now shared token

  unfoldable pub validate_issuer :
      ValidationPolicy → Option Bytes → Option Bytes → ℕ → Shared → Option Bytes → ModuleResult
  validate_issuer v role token now shared none = internal_failure
  validate_issuer v role token now shared (some url) =
      validate_at v role token url now shared
        (http_url_host curl (some url) max_url_size v.config.allow_insecure_http)

  unfoldable pub validate_clocked :
      ValidationPolicy → Option Bytes → Option Bytes → Shared → Option ℕ → ModuleResult
  validate_clocked v role token shared none = internal_failure
  validate_clocked v role token shared (some now) =
      validate_issuer v role token now shared (metadata_url v.issuer)

  -- `pg_oauth_shared_cache_io` attaches the backend.
  unfoldable pub validate_attached :
      ValidationPolicy → Option Bytes → Option Bytes → Attach → ModuleResult
  validate_attached v role token a =
      if a.result
      then validate_clocked v role token
          (record { backend = a.backend; segment = a.segment; others = x.shared.others })
          (monotonic_ms x.clock)
      else internal_failure

  unfoldable pub validate_configured :
      ValidationPolicy → Option Bytes → Option Bytes → Backend × Bool → ModuleResult
  validate_configured v role token (b, configured) =
      if configured
      then validate_attached v role token (shared_cache_attach sizes registry b x.shared.segment)
      else internal_failure

  unfoldable pub validate_policy : Option Bytes → Option Bytes → PolicyResult → ModuleResult
  validate_policy role token (policy_refused e) = internal_failure
  validate_policy role token (policy_ok v) = validate_configured v role token (
      configure_capacity sizes registry x.shared.backend x.shared.segment
        x.variables.oauth_cache_max_entries)

  unfoldable pub validate_rule : Option Bytes → Option Bytes → Option HbaPolicy → ModuleResult
  validate_rule role token none = internal_failure
  validate_rule role token (some h) =
      validate_policy role token (policy_build (some (config_snapshot x.variables)) (some h))

  -- The callback on a role and a token.
  unfoldable pub validate_callback : Option Bytes → Option Bytes → ModuleResult
  validate_callback role token = validate_rule role token (hba_policy_read x.hba x.policy_option)
