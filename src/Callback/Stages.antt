-- ===== src/Callback/Stages.antt =====
-- The policies of the stages, from the policy of the connection, and the key source of the pipeline.
use pg_oauth_validator.CacheKey.Build.{KeyPolicy}
use pg_oauth_validator.Claims.Policy.{ClaimsPolicy, null_or_empty}
use pg_oauth_validator.HttpTransport.Request.{HttpPolicy, HttpError}
use pg_oauth_validator.IssuerKey.Context.{IssuerKeyPolicy, IssuerKeyError, CachePolicy, Context}
use pg_oauth_validator.IssuerKey.Fetch.{fetch_cached, new_context}
use pg_oauth_validator.IssuerKey.Io.{Requests}
use pg_oauth_validator.Jwks.Keys.{OpenSsl}
use pg_oauth_validator.Jwks.Select.{JwksError}
use pg_oauth_validator.Json.{Jansson}
use pg_oauth_validator.Metadata.Parse.{MetadataError}
use pg_oauth_validator.PolicyBuild.Build.{ValidationPolicy}
use pg_oauth_validator.SharedCache.Io.{CacheIo}
use pg_oauth_validator.Signature.Verify.{Libjwt, SignatureError, signature_verify}
use pg_oauth_validator.Url.Parts.{CurlUrl}
use pg_oauth_validator.Validator.Pipeline.{KeySource, ValidatorPolicy}
use pg_oauth_validator.Base.{
  [], ◌∷◌, none, some, ℕ, ℤ, pos, Option, Bytes, ◌⊎◌, inl, inr, if◌then◌else◌, true, text, length,
  ltb, ◌==◌, ◌-◌, ◌/◌, ◌+◌, ◌*◌, ◌++◌, ltb_ℤ, int64_max, magnitude, ◌||◌, suc, zero,
}

abbrev pub max_url_size : ℕ
max_url_size = 2048

abbrev pub max_document_size : ℕ
max_document_size = 65536

-- NAMEDATALEN - 1 with PostgreSQL's default
abbrev pub max_name_size : ℕ
max_name_size = 63

abbrev pub last_byte : Bytes → ℕ
last_byte [] = 0
last_byte (b ∷ []) = b
last_byte (b ∷ c ∷ bs) = last_byte (c ∷ bs)

abbrev pub well_known : Bytes → Bytes
well_known issuer =
    if last_byte issuer == b'/'
    then text ".well-known/openid-configuration"
    else text "/.well-known/openid-configuration"

-- `pg_oauth_metadata_url`
unfoldable pub metadata_url : Bytes → Option Bytes
metadata_url issuer =
    if length issuer == 0 || ltb max_url_size (length issuer)
    then none
    else if ltb (max_url_size - length issuer) (length (well_known issuer))
    then none
    else some (issuer ++ well_known issuer)

-- `pg_oauth_monotonic_ms`: the clock is `none` if it cannot be read, or else its seconds and
-- nanoseconds.
unfoldable pub monotonic_ms : Option (ℤ × ℕ) → Option ℕ
monotonic_ms none = none
monotonic_ms (some (seconds, nanoseconds)) =
    if ltb_ℤ seconds (pos 0) || ltb_ℤ (pos (int64_max / 1000)) seconds
    then none
    else some (magnitude seconds * 1000 + nanoseconds / 1000000)

-- The loop that measures a token: it stops behind the largest size. The first argument is how many
-- bytes it may still count.
unfoldable pub bounded_length : ℕ → Bytes → ℕ
bounded_length zero token = 0
bounded_length (suc n) [] = 0
bounded_length (suc n) (b ∷ bs) = suc (bounded_length n bs)

-- `policy.ca_file[0] != '\0' ? policy.ca_file : NULL`
abbrev pub ca_file_or_null : Option Bytes → Option Bytes
ca_file_or_null file = if null_or_empty file then none else file

unfoldable pub metadata_http_for : ValidationPolicy → Bytes → HttpPolicy
metadata_http_for v host = record {
  max_url_size = max_url_size;
  max_response_size = max_document_size;
  connect_timeout_ms = pos 2000;
  total_timeout_ms = pos 5000;
  allowed_host = some host;
  additional_allowed_hosts = none;
  ca_file = ca_file_or_null v.config.ca_file;
  allow_insecure_http = v.config.allow_insecure_http;
  cancellable = true;
}

unfoldable pub jwks_http_for : ValidationPolicy → Bytes → HttpPolicy
jwks_http_for v host = record {
  max_url_size = max_url_size;
  max_response_size = max_document_size;
  connect_timeout_ms = pos 2000;
  total_timeout_ms = pos 5000;
  allowed_host = some host;
  additional_allowed_hosts = v.config.allowed_jwks_hosts;
  ca_file = ca_file_or_null v.config.ca_file;
  allow_insecure_http = v.config.allow_insecure_http;
  cancellable = true;
}

unfoldable pub issuer_key_policy : ValidationPolicy → Bytes → IssuerKeyPolicy
issuer_key_policy v host = record {
  metadata_http = metadata_http_for v host;
  metadata = record {
    max_document_size = max_document_size;
    max_url_size = max_url_size;
    allow_insecure_http = v.config.allow_insecure_http;
  };
  jwks_http = jwks_http_for v host;
  jwks = record {
    max_jwks_size = max_document_size;
    max_keys = 16;
    max_key_id_size = 1024;
    allowed_algorithms = v.algorithms;
    minimum_rsa_bits = 2048;
    maximum_rsa_bits = 8192;
  };
}

unfoldable pub claims_policy : ValidationPolicy → Option Bytes → ℤ → ClaimsPolicy
claims_policy v role wall_time = record {
  issuer = some v.issuer;
  audiences = v.config.audiences;
  required_scopes = some v.required_scopes;
  identity_claim = v.config.identity_claim;
  role_claim = v.config.role_claim;
  requested_role = role;
  current_time = wall_time;
  clock_skew_seconds = magnitude v.config.clock_skew_ms / 1000;
  max_identity_size = max_name_size;
  max_subject_size = 1024;
  max_audiences = 16;
  max_scopes = 64;
  max_roles = 64;
  max_role_size = max_name_size;
}

unfoldable pub validator_policy : ValidationPolicy → Option Bytes → ℤ → ValidatorPolicy
validator_policy v role wall_time = record {
  envelope = record {
    max_token_size = magnitude v.config.max_token_size;
    max_header_size = 4096;
    max_payload_size = magnitude v.config.max_token_size;
    allowed_algorithms = v.algorithms;
    allowed_token_types = v.token_types;
    allow_missing_token_type = v.config.allow_missing_token_type;
  };
  claims = claims_policy v role wall_time;
  identity = record { max_subject_size = max_name_size; max_authn_id_size = max_name_size };
}

unfoldable pub cache_key_policy : ValidationPolicy → KeyPolicy
cache_key_policy v = record {
  resource = 0;
  issuer = none;
  metadata_url = none;
  jwks_url = none;
  policy_name = some v.name;
  required_scopes = some v.required_scopes;
  audiences = v.config.audiences;
  allowed_token_types = v.token_types;
  allow_missing_token_type = v.config.allow_missing_token_type;
  identity_claim = v.config.identity_claim;
  role_claim = v.config.role_claim;
  allowed_jwks_hosts = v.config.allowed_jwks_hosts;
  ca_file = v.config.ca_file;
  allowed_algorithms = v.algorithms;
  clock_skew_ms = magnitude v.config.clock_skew_ms;
  max_token_size = magnitude v.config.max_token_size;
  max_metadata_size = max_document_size;
  max_jwks_size = max_document_size;
  max_jwks_keys = 16;
  minimum_rsa_bits = 2048;
  maximum_rsa_bits = 8192;
  jwks_stale_grace_ms = magnitude v.config.jwks_stale_grace_ms;
  metadata_default_ttl_ms = magnitude v.config.metadata_default_ttl_ms;
  jwks_default_ttl_ms = magnitude v.config.jwks_default_ttl_ms;
  cache_max_ttl_ms = magnitude v.config.cache_max_ttl_ms;
  unknown_kid_refresh_cooldown_ms = magnitude v.config.unknown_kid_refresh_cooldown_ms;
  allow_insecure_http = v.config.allow_insecure_http;
}

unfoldable pub cache_policy_for : ValidationPolicy → CachePolicy
cache_policy_for v = record {
  key_policy = cache_key_policy v;
  metadata_freshness = record {
    default_ttl_ms = v.config.metadata_default_ttl_ms;
    maximum_ttl_ms = v.config.cache_max_ttl_ms;
  };
  jwks_freshness = record {
    default_ttl_ms = v.config.jwks_default_ttl_ms;
    maximum_ttl_ms = v.config.cache_max_ttl_ms;
  };
  jwks_stale_grace_ms = v.config.jwks_stale_grace_ms;
  unknown_kid_refresh_cooldown_ms = v.config.unknown_kid_refresh_cooldown_ms;
  refresh_wait_timeout_ms = v.config.refresh_wait_timeout_ms;
}

module _ (J : Jansson) (ssl : OpenSsl) (curl : CurlUrl) (getdate : Bytes → ℤ) (L : Libjwt J)
    (io : CacheIo) (web : Requests) where
  -- The errors that a fetch leaves in the result.
  pub record FetchDetail : Type 0 where
    pub http_error : Option HttpError
    pub metadata_error : Option MetadataError
    pub jwks_error : Option JwksError

  unfoldable pub fetched_key :
      Context J io × (IssuerKeyError ⊎ Unit {0})
      → FetchDetail × (IssuerKeyError ⊎ Option (J.Json × ℕ))
  fetched_key (c, inl e) = (
    record {
      http_error = c.http_error;
      metadata_error = c.metadata_error;
      jwks_error = c.jwks_error;
    },
    inl e,
  )
  fetched_key (c, inr u) = (
    record {
      http_error = c.http_error;
      metadata_error = c.metadata_error;
      jwks_error = c.jwks_error;
    },
    inr c.selected,
  )

  -- The two stages that the pipeline takes, for one call.
  abbrev pub key_source : IssuerKeyPolicy → CachePolicy → ℕ → ℤ → io.State → KeySource
  key_source p q now wall_time s = record {
    Key = Option (J.Json × ℕ);
    KeyError = IssuerKeyError;
    SignatureError = SignatureError;
    Detail = FetchDetail;
    no_detail = record { http_error = none; metadata_error = none; jwks_error = none };
    fetch = λ url issuer key_id algorithm. fetched_key (
        fetch_cached J ssl curl getdate io web (some url) (some issuer) (some key_id) algorithm
          (some p) (some q) wall_time (new_context J ssl curl getdate io web s now));
    verify = λ token key. signature_verify J L (some token) key;
  }
