-- ===== src/CacheKey/Tests.antt =====
-- The key of a metadata document, with and without a key set URL.
use pg_oauth_validator.CacheKey.Layout.{encode_all, build_lem}
use pg_oauth_validator.CacheState.Types.{valid_key}
use pg_oauth_validator.CacheKey.Policies.{Widths, with_jwks_url, build-injective, build-valid_key}
use pg_oauth_validator.Base.{some, Bytes, text, [], arith, ◌≡◌, none, true, false, refl}
use pg_oauth_validator.CacheKey.Build.{
  KeyPolicy, metadata_resource, build, bad_policy, append_all, items_of, append, u32_bytes,
  append_u8, u64_bytes, append_u32, append_u64, append_string, append_bytes, key_ok,
}

abbrev policy : KeyPolicy
policy = record {
  resource = metadata_resource;
  issuer = some (text "https://i");
  metadata_url = some (text "https://i/m");
  jwks_url = none;
  policy_name = some (text "p");
  required_scopes = some (text "s");
  audiences = some (text "a");
  allowed_token_types = 3;
  allow_missing_token_type = false;
  identity_claim = some (text "sub");
  role_claim = some [];
  allowed_jwks_hosts = some [];
  ca_file = some [];
  allowed_algorithms = 1;
  clock_skew_ms = 30000;
  max_token_size = 16384;
  max_metadata_size = 65536;
  max_jwks_size = 65536;
  max_jwks_keys = 32;
  minimum_rsa_bits = 2048;
  maximum_rsa_bits = 8192;
  jwks_stale_grace_ms = 0;
  metadata_default_ttl_ms = 300000;
  jwks_default_ttl_ms = 300000;
  cache_max_ttl_ms = 3600000;
  unknown_kid_refresh_cooldown_ms = 10000;
  allow_insecure_http = false;
}

abbrev same_policy : KeyPolicy
same_policy = record policy { jwks_url = some [] }

policy-Widths : Widths policy
policy-Widths = ground arith

abbrev policy_key : Bytes
policy_key = encode_all (items_of policy)

policy_key_lem :
    (build (some policy) ≡ key_ok policy_key) × (build (some same_policy) ≡ key_ok policy_key)
unfolding build bad_policy append_all append append_u8 append_u32 append_u64 append_string
    append_bytes u32_bytes u64_bytes items_of
policy_key_lem = (refl, refl)

build-injective_example : with_jwks_url policy ≡ with_jwks_url same_policy
build-injective_example =
    build-injective policy same_policy policy-Widths (ground arith) policy_key_lem.0
      policy_key_lem.1

build-valid_key_example : valid_key policy_key ≡ true
build-valid_key_example = build-valid_key policy policy_key_lem.0

build_lem_example : build (some policy) ≡ key_ok policy_key
unfolding bad_policy items_of u32_bytes u64_bytes
build_lem_example = build_lem policy
