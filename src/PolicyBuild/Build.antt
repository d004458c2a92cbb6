-- ===== src/PolicyBuild/Build.antt =====
-- `pg_oauth_policy_build`.
use pg_oauth_validator.Claims.Policy.{null_or_empty, bytes_or_empty}
use pg_oauth_validator.PolicyBuild.Lists.{
  validate_claim_name, validate_audiences, validate_jwks_hosts, parse_algorithms, parse_token_types,
}
use pg_oauth_validator.Base.{
  none, some, Option, Bytes, ℤ, Bool, if◌then◌else◌, ℕ, not, true, false, ◌||◌, ltb_ℤ, ltb,
  is_empty, pos, length, ◌&&◌, any, bytes_eq, is_cntrl, text,
}

pub data PolicyError : Type 0 where
  policy_bad_argument missing_issuer missing_scopes unknown_policy missing_audience : PolicyError
  invalid_audiences invalid_algorithms invalid_token_types invalid_authn_claim : PolicyError
  invalid_role_claim delegation_mismatch invalid_jwks_hosts invalid_ca_file : PolicyError
  invalid_clock_skew invalid_token_size invalid_cache_policy : PolicyError

pub record PolicyConfig : Type 0 where
  pub audiences : Option Bytes
  pub allowed_algorithms : Option Bytes
  pub allowed_token_types : Option Bytes
  pub identity_claim : Option Bytes
  pub role_claim : Option Bytes
  pub allowed_jwks_hosts : Option Bytes
  pub ca_file : Option Bytes
  pub clock_skew_ms : ℤ
  pub max_token_size : ℤ
  pub metadata_default_ttl_ms : ℤ
  pub jwks_default_ttl_ms : ℤ
  pub cache_max_ttl_ms : ℤ
  pub jwks_stale_grace_ms : ℤ
  pub unknown_kid_refresh_cooldown_ms : ℤ
  pub refresh_wait_timeout_ms : ℤ
  pub allow_insecure_http : Bool
  pub allow_missing_token_type : Bool

pub record HbaPolicy : Type 0 where
  pub issuer : Option Bytes
  pub required_scopes : Option Bytes
  pub policy_name : Option Bytes
  pub delegate_ident_mapping : Bool

-- The fields that are copied from the settings stay in `config`, the others stand beside it.
pub record ValidationPolicy : Type 0 where
  pub name : Bytes
  pub issuer : Bytes
  pub required_scopes : Bytes
  pub token_types : ℕ
  pub algorithms : ℕ
  pub config : PolicyConfig

pub data PolicyResult : Type 0 where
  policy_ok : ValidationPolicy → PolicyResult
  policy_refused : PolicyError → PolicyResult

-- `value < low || value > high`
abbrev pub outside : ℤ → ℕ → ℕ → Bool
outside value low high = ltb_ℤ value (pos low) || ltb_ℤ (pos high) value

abbrev pub differs : Bool → Bool → Bool
differs true b = not b
differs false b = b

unfoldable pub bad_ca_file : Option Bytes → Bool
bad_ca_file none = true
bad_ca_file (some f) = ltb 2048 (length f) || any is_cntrl f

unfoldable pub bad_role_claim : Option Bytes → Bool
bad_role_claim none = true
bad_role_claim (some c) = not (is_empty c) && not (validate_claim_name c)

unfoldable pub bad_name : Option Bytes → Bool
bad_name none = false
bad_name (some n) = not (is_empty n) && not (bytes_eq n (text "default"))

unfoldable pub bad_cache_policy : PolicyConfig → Bool
bad_cache_policy c =
    outside c.metadata_default_ttl_ms 1000 3600000
    || outside c.jwks_default_ttl_ms 1000 3600000
    || ltb_ℤ c.cache_max_ttl_ms c.metadata_default_ttl_ms
    || ltb_ℤ c.cache_max_ttl_ms c.jwks_default_ttl_ms
    || ltb_ℤ (pos 86400000) c.cache_max_ttl_ms
    || outside c.jwks_stale_grace_ms 0 3600000
    || outside c.unknown_kid_refresh_cooldown_ms 1000 300000
    || outside c.refresh_wait_timeout_ms 0 5000

-- from the claim names on
unfoldable pub build_rest : PolicyConfig → HbaPolicy → ValidationPolicy → PolicyResult
build_rest c h policy =
    if not (validate_claim_name (bytes_or_empty c.identity_claim))
    then policy_refused invalid_authn_claim
    else if bad_role_claim c.role_claim
    then policy_refused invalid_role_claim
    else if differs h.delegate_ident_mapping (not (is_empty (bytes_or_empty c.role_claim)))
    then policy_refused delegation_mismatch
    else if not (validate_jwks_hosts c.allowed_jwks_hosts)
    then policy_refused invalid_jwks_hosts
    else if bad_ca_file c.ca_file
    then policy_refused invalid_ca_file
    else if outside c.clock_skew_ms 0 300000
    then policy_refused invalid_clock_skew
    else if outside c.max_token_size 1024 65536
    then policy_refused invalid_token_size
    else if bad_cache_policy c
    then policy_refused invalid_cache_policy
    else policy_ok policy

unfoldable pub policy_build : Option PolicyConfig → Option HbaPolicy → PolicyResult
policy_build none h = policy_refused policy_bad_argument
policy_build (some c) none = policy_refused policy_bad_argument
policy_build (some c) (some h) =
    if null_or_empty h.issuer
    then policy_refused missing_issuer
    else if null_or_empty h.required_scopes
    then policy_refused missing_scopes
    else if bad_name h.policy_name
    then policy_refused unknown_policy
    else if null_or_empty c.audiences
    then policy_refused missing_audience
    else if not (validate_audiences (bytes_or_empty c.audiences))
    then policy_refused invalid_audiences
    else elim (parse_algorithms c.allowed_algorithms) [
      | none ↦ policy_refused invalid_algorithms
      | some algorithms ↦ elim (parse_token_types c.allowed_token_types) [
        | none ↦ policy_refused invalid_token_types
        | some types ↦ build_rest c h (record {
          name = text "default";
          issuer = bytes_or_empty h.issuer;
          required_scopes = bytes_or_empty h.required_scopes;
          token_types = types;
          algorithms = algorithms;
          config = c;
        })
      ]
    ]
