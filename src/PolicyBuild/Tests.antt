-- ===== src/PolicyBuild/Tests.antt =====
-- A rule and settings as they are installed.
use pg_oauth_validator.JwtEnvelope.Parse.{algorithm_named}
use pg_oauth_validator.PolicyBuild.Bounded.{Complete, policy_build-Complete}
use pg_oauth_validator.PolicyBuild.Lists.{
  validate_audiences, audiences_from, parse_algorithms, bits_from, parse_token_types,
  token_type_named, validate_claim_name, validate_jwks_hosts, hosts_from,
}
use pg_oauth_validator.Base.{
  [], none, some, text, pos, false, ends_in_comma, entries_of, trim, skip, skip_back, is_space,
  is_cntrl, bytes_eq, is_alnum, ◌≡◌, refl,
}
use pg_oauth_validator.PolicyBuild.Build.{
  PolicyConfig, HbaPolicy, ValidationPolicy, policy_build, bad_name, build_rest, bad_role_claim,
  bad_ca_file, bad_cache_policy, policy_ok,
}

abbrev settings : PolicyConfig
settings = record {
  audiences = some (text "db, app");
  allowed_algorithms = some (text "RS256,ES256");
  allowed_token_types = some (text "at+jwt");
  identity_claim = some (text "sub");
  role_claim = some [];
  allowed_jwks_hosts = some (text "i.org");
  ca_file = some [];
  clock_skew_ms = pos 30000;
  max_token_size = pos 16384;
  metadata_default_ttl_ms = pos 300000;
  jwks_default_ttl_ms = pos 300000;
  cache_max_ttl_ms = pos 3600000;
  jwks_stale_grace_ms = pos 0;
  unknown_kid_refresh_cooldown_ms = pos 30000;
  refresh_wait_timeout_ms = pos 1000;
  allow_insecure_http = false;
  allow_missing_token_type = false;
}

abbrev rule : HbaPolicy
rule = record {
  issuer = some (text "https://i.org");
  required_scopes = some (text "openid");
  policy_name = none;
  delegate_ident_mapping = false;
}

abbrev built_policy : ValidationPolicy
built_policy = record {
  name = text "default";
  issuer = text "https://i.org";
  required_scopes = text "openid";
  token_types = 1;
  algorithms = 3;
  config = settings;
}

policy_build_lem : policy_build (some settings) (some rule) ≡ policy_ok built_policy
unfolding policy_build bad_name validate_audiences audiences_from ends_in_comma entries_of trim skip
    skip_back is_space is_cntrl parse_algorithms bits_from algorithm_named parse_token_types
    token_type_named bytes_eq build_rest validate_claim_name bad_role_claim validate_jwks_hosts
    hosts_from is_alnum bad_ca_file bad_cache_policy
policy_build_lem = refl

policy_build-Complete_example : Complete settings rule built_policy
policy_build-Complete_example = policy_build-Complete settings rule policy_build_lem
