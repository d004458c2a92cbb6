-- ===== src/Callback/Authorized.antt =====
-- Who is authorized.
use pg_oauth_validator.Callback.Sound.{
  Authorized, Opened, attached_shared, keys, signed_key, fetched_trusted, bounded_length_lem,
}
use pg_oauth_validator.Callback.Settings.{config_snapshot, hba_policy_read}
use pg_oauth_validator.Callback.Stages.{
  metadata_url, validator_policy, max_url_size, claims_policy, bounded_length, monotonic_ms,
}
use pg_oauth_validator.Callback.Validate.{
  ModuleResult, Environment, finish_callback, run_pipeline, is_validator_ok, validate_token,
  validate_at, validate_issuer, validate_clocked, validate_attached, validate_configured,
  validate_policy, validate_rule, validate_callback, internal_failure,
}
use pg_oauth_validator.HttpTransport.Request.{url_host_ok, http_url_host, UrlHost, url_host_failed}
use pg_oauth_validator.Jwks.Keys.{OpenSsl}
use pg_oauth_validator.Json.{Jansson}
use pg_oauth_validator.PolicyBuild.Bounded.{Complete, policy_build-Complete}
use pg_oauth_validator.PolicyBuild.Build.{
  HbaPolicy, ValidationPolicy, PolicyResult, policy_build, policy_refused, policy_ok,
}
use pg_oauth_validator.SharedCache.Io.{Shared}
use pg_oauth_validator.SharedCache.State.{
  Sizes, Registry, Backend, shared_cache_attach, configure_capacity,
}
use pg_oauth_validator.Signature.Verify.{Libjwt}
use pg_oauth_validator.Url.Parts.{CurlUrl}
use pg_oauth_validator.Validator.Pipeline.{
  ValidatorError, validator_ok, validator_bad_argument, validator_envelope, validator_issuer_key,
  validator_signature, validator_claims, validator_identity, validate_access_token,
}
use pg_oauth_validator.Validator.Sound.{validate_access_token-Authenticated}
use pg_oauth_validator.Base.{
  some, true, false, inl, inr, ℕ, Bytes, ℤ, Option, ◌≡◌, refl, ◌∙◌, Bool, Bool-cases, if◌then◌else◌,
  suc, magnitude, ◌==◌, ◌||◌, is_negative, ltb, take, arith, none,
}

is_validator_ok_lem : (e : ValidatorError) → is_validator_ok e ≡ true → e ≡ validator_ok
is_validator_ok_lem validator_ok h = refl
is_validator_ok_lem validator_bad_argument h = absurd (cc h)
is_validator_ok_lem validator_envelope h = absurd (cc h)
is_validator_ok_lem validator_issuer_key h = absurd (cc h)
is_validator_ok_lem validator_signature h = absurd (cc h)
is_validator_ok_lem validator_claims h = absurd (cc h)
is_validator_ok_lem validator_identity h = absurd (cc h)

policy_issuer :
    (v : ValidationPolicy) (role : Option Bytes) (time : ℤ) (issuer : Bytes)
    → (validator_policy v role time).claims.issuer ≡ some issuer
    → issuer ≡ v.issuer
unfolding validator_policy claims_policy
policy_issuer v role time issuer h = cc h

module _ (J : Jansson) (ssl : OpenSsl) (curl : CurlUrl) (getdate : Bytes → ℤ) (L : Libjwt J)
    (sizes : Sizes) (registry : Registry) (x : Environment) where
  abbrev Grants : ModuleResult → Type 0
  Grants r = r.authorized ≡ true

  Finished : Bool → ValidatorError → Option Bytes → ModuleResult → Type 0
  Finished i e identity r =
      (i ≡ false) × (e ≡ validator_ok) × (r.authn_id ≡ identity) × (r.returned ≡ true)

  finish_callback_lem :
      (i : Bool) (e : ValidatorError) (identity : Option Bytes)
      → (finish_callback J ssl curl getdate L sizes registry x i e identity).authorized ≡ true
      → Finished i e identity (finish_callback J ssl curl getdate L sizes registry x i e identity)
  unfolding finish_callback Finished
  finish_callback_lem true e identity h = absurd (cc h)
  finish_callback_lem false e identity h = elim (Bool-cases (is_validator_ok e)) [
    | inl k ↦ rw k (refl, is_validator_ok_lem e k, refl, refl)
    | inr k ↦ absurd (cc (rw k at h))
  ]

  module _ (role : Option Bytes) (rule : HbaPolicy)
      (rule_is : hba_policy_read x.hba x.policy_option ≡ some rule) (v : ValidationPolicy)
      (complete : Complete (config_snapshot x.variables) rule v) where
    run_pipeline-Authorized :
        (url host : Bytes) (now : ℕ) (shared : Shared) (token : Bytes)
        → Opened J ssl curl getdate L sizes registry x now shared
        → metadata_url v.issuer ≡ some url
        → http_url_host curl (some url) max_url_size v.config.allow_insecure_http ≡ url_host_ok host
        → Grants
            (run_pipeline J ssl curl getdate L sizes registry x v role url host now shared token)
        → Authorized J ssl curl getdate L sizes registry x role token
            (run_pipeline J ssl curl getdate L sizes registry x v role url host now shared token)
    unfolding run_pipeline Finished
    run_pipeline-Authorized url host now shared token op eu eh h =
        let K = keys J ssl curl getdate L sizes registry x v role url host now shared in
        let p = validator_policy v role x.wall_time in
        let r = validate_access_token J K (some token) (some url) (some p) in
        let (quiet, fine, id, ret) = finish_callback_lem x.interrupt_pending r.error r.identity h in
        let a = validate_access_token-Authenticated J K token url p fine in
        let (key, found, ek, checked) =
          signed_key J ssl curl getdate L sizes registry x v role url host now shared token a.key
            a.signed in
        record {
          rule = rule;
          rule_is = rule_is;
          policy = v;
          policy_complete = complete;
          url = url;
          url_is = eu;
          host = host;
          host_is = eh;
          now = now;
          shared = shared;
          opened = op;
          result = r;
          authenticated = a;
          key = key;
          found = found;
          trusted =
              fetched_trusted J ssl curl getdate L sizes registry x v role url host now shared
                a.issuer a.envelope.key_id a.envelope.algorithm a.detail a.key key found
                (policy_issuer v role x.wall_time a.issuer a.issuer_is) a.key_fetched ek;
          checked = checked;
          authn_id_is = id ∙ a.identity_is;
          returned_true = ret;
          not_interrupted = quiet;
        }

    -- The result is for the token.
    GrantFor : Option Bytes → ModuleResult → Type 0
    GrantFor o r =
        (token : Bytes) × (o ≡ some token)
        × Authorized J ssl curl getdate L sizes registry x role token r

    if_granted :
        (b : Bool) (o : Option Bytes) (r : ModuleResult)
        → b ≡ true
        → (Grants r → GrantFor o r)
        → Grants (if b then r else internal_failure)
        → GrantFor o (if b then r else internal_failure)
    if_granted true o r e k h = k h
    if_granted false o r e k h = absurd (cc e)

    measured :
        (limit : ℕ) (token : Bytes)
        → (bounded_length (suc limit) token == 0 || ltb limit (bounded_length (suc limit) token))
          ≡ false
        → take (bounded_length (suc limit) token) token ≡ token
    measured limit token e = bounded_length_lem limit token (ground (arith, e))

    validate_token_authorized :
        (url host : Bytes) (now : ℕ) (shared : Shared) (o : Option Bytes)
        → Opened J ssl curl getdate L sizes registry x now shared
        → metadata_url v.issuer ≡ some url
        → http_url_host curl (some url) max_url_size v.config.allow_insecure_http ≡ url_host_ok host
        → Grants (validate_token J ssl curl getdate L sizes registry x v role url host now shared o)
        → GrantFor o
            (validate_token J ssl curl getdate L sizes registry x v role url host now shared o)
    unfolding validate_token GrantFor
    validate_token_authorized url host now shared none op eu eh h = absurd (cc h)
    validate_token_authorized url host now shared (some token) op eu eh h =
        let limit = magnitude v.config.max_token_size in
        let size = bounded_length (suc limit) token in
        elim (Bool-cases (size == 0 || ltb limit size)) [
          | inl e ↦ absurd (cc (rw e at h))
          | inr e ↦
              let whole = measured limit token e in
              (
                token,
                refl,
                rw (e, whole)
                    (run_pipeline-Authorized url host now shared token op eu eh
                      (rw (e, whole) at h)),
              )
        ]

    validate_at_authorized :
        (url : Bytes) (now : ℕ) (shared : Shared) (o : Option Bytes) (u : UrlHost curl)
        → Opened J ssl curl getdate L sizes registry x now shared
        → metadata_url v.issuer ≡ some url
        → http_url_host curl (some url) max_url_size v.config.allow_insecure_http ≡ u
        → Grants (validate_at J ssl curl getdate L sizes registry x v role o url now shared u)
        → GrantFor o (validate_at J ssl curl getdate L sizes registry x v role o url now shared u)
    unfolding validate_at
    validate_at_authorized url now shared o (url_host_failed e) op eu eh h = absurd (cc h)
    validate_at_authorized url now shared o (url_host_ok host) op eu eh h =
        elim (Bool-cases (is_negative x.wall_time)) [
          | inl e ↦ absurd (cc (rw e at h))
          | inr e ↦ rw e (validate_token_authorized url host now shared o op eu eh (rw e at h))
        ]

    validate_issuer_authorized :
        (now : ℕ) (shared : Shared) (o u : Option Bytes)
        → Opened J ssl curl getdate L sizes registry x now shared
        → metadata_url v.issuer ≡ u
        → Grants (validate_issuer J ssl curl getdate L sizes registry x v role o now shared u)
        → GrantFor o (validate_issuer J ssl curl getdate L sizes registry x v role o now shared u)
    unfolding validate_issuer
    validate_issuer_authorized now shared o none op eu h = absurd (cc h)
    validate_issuer_authorized now shared o (some url) op eu h =
        validate_at_authorized url now shared o
          (http_url_host curl (some url) max_url_size v.config.allow_insecure_http) op eu refl h

    validate_clocked_authorized :
        (shared : Shared) (o : Option Bytes) (c : Option ℕ)
        → ((now : ℕ) → c ≡ some now → Opened J ssl curl getdate L sizes registry x now shared)
        → Grants (validate_clocked J ssl curl getdate L sizes registry x v role o shared c)
        → GrantFor o (validate_clocked J ssl curl getdate L sizes registry x v role o shared c)
    unfolding validate_clocked
    validate_clocked_authorized shared o none op h = absurd (cc h)
    validate_clocked_authorized shared o (some now) op h =
        validate_issuer_authorized now shared o (metadata_url v.issuer) (op now refl) refl h

    validate_attached_authorized :
        (o : Option Bytes) (b : Backend)
        → configure_capacity sizes registry x.shared.backend x.shared.segment
            x.variables.oauth_cache_max_entries
          ≡ (b, true)
        → let a = shared_cache_attach sizes registry b x.shared.segment in
          Grants (validate_attached J ssl curl getdate L sizes registry x v role o a)
          → GrantFor o (validate_attached J ssl curl getdate L sizes registry x v role o a)
    unfolding validate_attached
    validate_attached_authorized o b configured h =
        let a = shared_cache_attach sizes registry b x.shared.segment in
        let shared = attached_shared J ssl curl getdate L sizes registry x b in
        elim (Bool-cases a.result) [
          | inr e ↦ absurd (cc (rw e at h))
          | inl e ↦
              if_granted a.result o
                (validate_clocked J ssl curl getdate L sizes registry x v role o shared
                  (monotonic_ms x.clock))
                e
                (λ g.
                  validate_clocked_authorized shared o (monotonic_ms x.clock)
                    (λ now clock. record {
                      now_is = clock;
                      backend = b;
                      configured = configured;
                      attached = e;
                      shared_is = refl;
                    })
                    g)
                h
        ]

    validate_configured_authorized :
        (o : Option Bytes) (b : Backend × Bool)
        → configure_capacity sizes registry x.shared.backend x.shared.segment
            x.variables.oauth_cache_max_entries
          ≡ b
        → Grants (validate_configured J ssl curl getdate L sizes registry x v role o b)
        → GrantFor o (validate_configured J ssl curl getdate L sizes registry x v role o b)
    unfolding validate_configured
    validate_configured_authorized o (b, false) e h = absurd (cc h)
    validate_configured_authorized o (b, true) e h = validate_attached_authorized o b e h

  validate_policy-Authorized :
      (role o : Option Bytes) (rule : HbaPolicy) (q : PolicyResult)
      → hba_policy_read x.hba x.policy_option ≡ some rule
      → policy_build (some (config_snapshot x.variables)) (some rule) ≡ q
      → Grants (validate_policy J ssl curl getdate L sizes registry x role o q)
      → (token : Bytes) × (o ≡ some token)
        × Authorized J ssl curl getdate L sizes registry x role token
            (validate_policy J ssl curl getdate L sizes registry x role o q)
  unfolding validate_policy GrantFor
  validate_policy-Authorized role o rule (policy_refused e) er ep h = absurd (cc h)
  validate_policy-Authorized role o rule (policy_ok v) er ep h =
      validate_configured_authorized role rule er v
        (policy_build-Complete (config_snapshot x.variables) rule ep) o
        (configure_capacity sizes registry x.shared.backend x.shared.segment
          x.variables.oauth_cache_max_entries)
        refl h

  validate_rule-Authorized :
      (role o : Option Bytes) (q : Option HbaPolicy)
      → hba_policy_read x.hba x.policy_option ≡ q
      → Grants (validate_rule J ssl curl getdate L sizes registry x role o q)
      → (token : Bytes) × (o ≡ some token)
        × Authorized J ssl curl getdate L sizes registry x role token
            (validate_rule J ssl curl getdate L sizes registry x role o q)
  unfolding validate_rule
  validate_rule-Authorized role o none er h = absurd (cc h)
  validate_rule-Authorized role o (some rule) er h =
      validate_policy-Authorized role o rule
        (policy_build (some (config_snapshot x.variables)) (some rule)) er refl h

  -- A connection is authorized only for a token that it presents, by a policy that is built from its
  -- rule and the settings. The token is authenticated for that policy: accepted in its envelope and its
  -- claims, in its whole length. Its key is the one that a fetch for the rule's own issuer ends with,
  -- for the token's key id and algorithm: the fetch starts at the time of the callback's clock and
  -- with the cache that the backend is attached to, and its documents are what the provider answers
  -- or the copies that its own lookups find there, fresh ones at the fetch's own time, or else behind
  -- a wait or with no new document to be had. The signature has been checked with that key and its
  -- algorithm alone. The identity handed on is the one of the claims, the callback returns true, and no
  -- interrupt was pending.
  pub validate_callback-Authorized :
      (role o : Option Bytes)
      → (validate_callback J ssl curl getdate L sizes registry x role o).authorized ≡ true
      → (token : Bytes) × (o ≡ some token)
        × Authorized J ssl curl getdate L sizes registry x role token
            (validate_callback J ssl curl getdate L sizes registry x role o)
  unfolding validate_callback
  validate_callback-Authorized role o h =
      validate_rule-Authorized role o (hba_policy_read x.hba x.policy_option) refl h
