-- ===== src/Callback/Settings.antt =====
-- config.c and hba_policy.c: what the administrator has set. The registration of the variables and
-- the reading of the rule are PostgreSQL's; it keeps an integer variable within its declared range.
use pg_oauth_validator.Claims.Policy.{null_or_empty}
use pg_oauth_validator.PolicyBuild.Build.{PolicyConfig, HbaPolicy}
use pg_oauth_validator.Base.{
  [], ◌∷◌, none, some, ℕ, ℤ, Bool, Option, List, Bytes, if◌then◌else◌, ◌||◌, text, any, is_none,
  not,
}

-- The static variables.
pub record Variables : Type 0 where
  pub oauth_audiences : Option Bytes
  pub oauth_allowed_algorithms : Option Bytes
  pub oauth_allowed_token_types : Option Bytes
  pub oauth_identity_claim : Option Bytes
  pub oauth_role_claim : Option Bytes
  pub oauth_allowed_jwks_hosts : Option Bytes
  pub oauth_ca_file : Option Bytes
  pub oauth_clock_skew_ms : ℤ
  pub oauth_max_token_size : ℤ
  pub oauth_metadata_default_ttl_ms : ℤ
  pub oauth_jwks_default_ttl_ms : ℤ
  pub oauth_cache_max_ttl_ms : ℤ
  pub oauth_jwks_stale_grace_ms : ℤ
  pub oauth_unknown_kid_refresh_cooldown_ms : ℤ
  pub oauth_refresh_wait_timeout_ms : ℤ
  pub oauth_cache_max_entries : ℤ
  pub oauth_allow_insecure_http : Bool
  pub oauth_allow_missing_token_type : Bool

abbrev pub removed_settings : List Bytes
removed_settings =
    text "pg_oauth_validator.identity_format"
    ∷ text "pg_oauth_validator.authorization_mode"
    ∷ text "pg_oauth_validator.roles_claim"
    ∷ text "pg_oauth_validator.required_token_type"
    ∷ []

-- The check of `_PG_init`: whether the module may load, by what GetConfigOption finds.
unfoldable pub may_load : (Bytes → Option Bytes) → Bool
may_load get_config_option = not (any (λ s. not (is_none (get_config_option s))) removed_settings)

-- The range of an integer variable, as DefineCustomIntVariable declares it.
pub record Range : Type 0 where
  pub boot_value : ℕ
  pub minimum : ℕ
  pub maximum : ℕ

abbrev pub clock_skew_range : Range
clock_skew_range = record { boot_value = 60000; minimum = 0; maximum = 300000 }

abbrev pub max_token_size_range : Range
max_token_size_range = record { boot_value = 16384; minimum = 1024; maximum = 65536 }

abbrev pub metadata_default_ttl_range : Range
metadata_default_ttl_range = record { boot_value = 300000; minimum = 1000; maximum = 3600000 }

abbrev pub jwks_default_ttl_range : Range
jwks_default_ttl_range = record { boot_value = 300000; minimum = 1000; maximum = 3600000 }

abbrev pub cache_max_ttl_range : Range
cache_max_ttl_range = record { boot_value = 3600000; minimum = 1000; maximum = 86400000 }

abbrev pub jwks_stale_grace_range : Range
jwks_stale_grace_range = record { boot_value = 0; minimum = 0; maximum = 3600000 }

abbrev pub unknown_kid_refresh_cooldown_range : Range
unknown_kid_refresh_cooldown_range = record { boot_value = 30000; minimum = 1000; maximum = 300000 }

abbrev pub refresh_wait_timeout_range : Range
refresh_wait_timeout_range = record { boot_value = 5000; minimum = 0; maximum = 5000 }

abbrev pub cache_max_entries_range : Range
cache_max_entries_range = record { boot_value = 32; minimum = 8; maximum = 256 }

-- `pg_oauth_config_snapshot`
unfoldable pub config_snapshot : Variables → PolicyConfig
config_snapshot v = record {
  audiences = v.oauth_audiences;
  allowed_algorithms = v.oauth_allowed_algorithms;
  allowed_token_types = v.oauth_allowed_token_types;
  identity_claim = v.oauth_identity_claim;
  role_claim = v.oauth_role_claim;
  allowed_jwks_hosts = v.oauth_allowed_jwks_hosts;
  ca_file = v.oauth_ca_file;
  clock_skew_ms = v.oauth_clock_skew_ms;
  max_token_size = v.oauth_max_token_size;
  metadata_default_ttl_ms = v.oauth_metadata_default_ttl_ms;
  jwks_default_ttl_ms = v.oauth_jwks_default_ttl_ms;
  cache_max_ttl_ms = v.oauth_cache_max_ttl_ms;
  jwks_stale_grace_ms = v.oauth_jwks_stale_grace_ms;
  unknown_kid_refresh_cooldown_ms = v.oauth_unknown_kid_refresh_cooldown_ms;
  refresh_wait_timeout_ms = v.oauth_refresh_wait_timeout_ms;
  allow_insecure_http = v.oauth_allow_insecure_http;
  allow_missing_token_type = v.oauth_allow_missing_token_type;
}

-- The matched rule of the connection.
pub record HbaLine : Type 0 where
  pub oauth_issuer : Option Bytes
  pub oauth_scope : Option Bytes
  pub oauth_skip_usermap : Bool

-- `pg_oauth_hba_policy_read`: `option` is the policy option of PostgreSQL 19, and `none` before. A
-- connection with no rule is `none`.
unfoldable pub hba_policy_read : Option HbaLine → Option Bytes → Option HbaPolicy
hba_policy_read none option = none
hba_policy_read (some hba) option =
    if null_or_empty hba.oauth_issuer || is_none hba.oauth_scope
    then none
    else some (record {
      issuer = hba.oauth_issuer;
      required_scopes = hba.oauth_scope;
      policy_name = option;
      delegate_ident_mapping = hba.oauth_skip_usermap;
    })
