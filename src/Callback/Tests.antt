-- ===== src/Callback/Tests.antt =====
-- A connection of user `u` to a database with settings as they are installed.
use pg_oauth_validator.Base.{
  ◌≡◌, refl, [], ◌∷◌, none, some, true, false, Bytes, Option, List, Bool, ℕ, ℤ, pos, if◌then◌else◌,
  text, bytes_eq, replicate, ends_in_comma, entries_of, is_cntrl, is_space, skip, skip_back, split,
  trim,
}
use pg_oauth_validator.Json.{Jansson}
use pg_oauth_validator.Example.{ssl, curl}
use pg_oauth_validator.Signature.Verify.{
  Libjwt, libjwt_algorithm, signature_verify, verify_by, verify_dumped, verify_imported,
  verify_with, with_key, without_leeway,
}
use pg_oauth_validator.HttpTransport.Transfer.{Got, got}
use pg_oauth_validator.Callback.Settings.{Variables, config_snapshot, hba_policy_read}
use pg_oauth_validator.Callback.Validate.{
  Environment, ModuleResult, validate_callback, finish_callback, run_pipeline, validate_at,
  validate_attached, validate_clocked, validate_configured, validate_issuer, validate_policy,
  validate_rule, validate_token,
}
use pg_oauth_validator.SharedCache.State.{
  Sizes, Registry, Segment, new_backend, attach_segment, attach_view, attach_when,
  configure_capacity, shared_cache_size,
}
use pg_oauth_validator.Base64Url.Codec.{
  base64url_value, decode, decode_groups, decoded_size, is_symbol, last_value, valid, value_bits,
}
use pg_oauth_validator.CacheKey.Build.{
  append, append_all, append_bytes, append_string, append_u32, append_u64, append_u8, bad_policy,
  build, items_of, u32_bytes, u64_bytes,
}
use pg_oauth_validator.CacheState.Begin.{
  begin_at, choose_slot, find_refresh_slot, find_slot, note_slot, start_refresh, started_entry,
}
use pg_oauth_validator.CacheState.Complete.{
  bad_outcome, bad_payload, complete_at, complete_entry, owns, release_entry, store,
}
use pg_oauth_validator.CacheState.Lookup.{answer, copy_entry, freshness, lookup, lookup_at, scan}
use pg_oauth_validator.CacheState.Types.{
  attach, bounded_add, count_lookup, count_refresh, increment, init, next_serial, same_key,
  valid_key,
}
use pg_oauth_validator.Callback.Stages.{
  bounded_length, cache_key_policy, cache_policy_for, claims_policy, fetched_key, issuer_key_policy,
  jwks_http_for, metadata_http_for, metadata_url, monotonic_ms, validator_policy,
}
use pg_oauth_validator.Claims.Audience.{
  audience_among, audience_matches, configured_audience_matches,
}
use pg_oauth_validator.Claims.Policy.{has_control, valid_identity_string, valid_policy}
use pg_oauth_validator.Claims.Roles.{validate_requested_role}
use pg_oauth_validator.Claims.Scopes.{
  check_scopes, contains, scope_claim, scope_string_contains, scopes_contain, valid_scope_token,
  validate_scopes,
}
use pg_oauth_validator.Claims.Validate.{
  check_claims, check_payload, check_time, expiry_of, json_string_equals, validate,
}
use pg_oauth_validator.HttpFreshness.Calculate.{
  apparent_age, calculate, calculate_headers, calculate_parsed, date_of, date_or, freshness_of,
  limits, remaining_ms, stated_freshness,
}
use pg_oauth_validator.HttpFreshness.Headers.{
  decimal, decimal_from, directive_name, parse_age, parse_cache_control, without_last,
}
use pg_oauth_validator.HttpTransport.Request.{
  http_url_host, parse_handle, parse_host, parse_rest, parse_url,
}
use pg_oauth_validator.Identity.Build.{identity_build, valid_utf8, valid_utf8_loop}
use pg_oauth_validator.IssuerKey.Context.{
  advance, cache_policy_valid, clear_selected, complete_response, complete_with, give_up, look_up,
  outcome_of, set_http_error, set_metadata_error, set_selected, wait_refresh,
}
use pg_oauth_validator.IssuerKey.Documents.{
  cached_metadata, fresh_copy, metadata_begun, metadata_found, metadata_host, metadata_parsed,
  metadata_requested, store_metadata, stored_or_fail, use_metadata,
}
use pg_oauth_validator.IssuerKey.Fetch.{
  cached_capacity, cached_fetch, cached_rest, fetch_cached, fetch_with, keys_under, metadata_under,
}
use pg_oauth_validator.IssuerKey.Keys.{
  cached_keys, copied_from, copied_keys, found_keys, keys_begun, refresh_keys, refreshed_keys,
  refreshed_selected,
}
use pg_oauth_validator.Jwks.Keys.{
  bad_kid, bad_operations, bad_use, contains_private_key_material, decode_parameter, key_algorithm,
  key_allows_verification, member_is, only_verify, valid_ed25519_key,
}
use pg_oauth_validator.Jwks.Select.{
  bad_jwks_policy, bad_key, check_candidate, jwks_select, search_keys, select_among,
  select_document,
}
use pg_oauth_validator.JwtEnvelope.Parse.{
  algorithm_named, allowed_type, bad_envelope_policy, bad_key_id, check_header, decode_base64url,
  decode_json_object, decode_segments, has_unsupported_header, parse, parse_algorithm, parse_token,
  split_compact_jws, three_segments, valid_type,
}
use pg_oauth_validator.Metadata.Parse.{
  check_members, check_uri, metadata_parse, parse_document, parse_for, valid_url_octets,
  validate_handle, validate_rest, validate_url,
}
use pg_oauth_validator.PolicyBuild.Build.{
  bad_ca_file, bad_cache_policy, bad_name, bad_role_claim, build_rest, policy_build,
}
use pg_oauth_validator.PolicyBuild.Lists.{
  audiences_from, bits_from, hosts_from, parse_algorithms, parse_token_types, token_type_named,
  validate_audiences, validate_claim_name, validate_jwks_hosts,
}
use pg_oauth_validator.SharedCache.Io.{shared_io_begin, shared_io_complete, shared_io_lookup}
use pg_oauth_validator.SharedCache.Operations.{
  copied, locked_on, shared_cache_begin_refresh, shared_cache_complete_refresh, shared_cache_lookup,
}
use pg_oauth_validator.Url.Parts.{authority, bad_handle, bad_octet, strip, strip_proper, url_scheme}
use pg_oauth_validator.Validator.Pipeline.{
  claims_stage, envelope_stage, fetched_stage, identity_stage, issuer_stage, signature_stage,
  validate_access_token,
}
use pg_oauth_validator.CacheState.History.{run}
use pg_oauth_validator.Callback.Sound.{Authorized}
use pg_oauth_validator.Callback.Authorized.{validate_callback-Authorized}
use pg_oauth_validator.Callback.Decided.{Decides, validate_callback-Decides}
use pg_oauth_validator.Callback.Sound.{Opened, attached_shared}
use pg_oauth_validator.PolicyBuild.Build.{HbaPolicy, ValidationPolicy, policy_ok}
use pg_oauth_validator.SharedCache.State.{Backend}
use pg_oauth_validator.SharedCache.Io.{Shared}
use pg_oauth_validator.HttpTransport.Request.{url_host_ok}
use pg_oauth_validator.Base.{arith}
use pg_oauth_validator.CacheState.Begin
use pg_oauth_validator.CacheState.Complete
use pg_oauth_validator.IssuerKey.Context

data Value : Type 0 where
  discovery key_set keys key parts : Value
  string : Bytes → Value
  number : ℕ → Value

abbrev discovery_member : Bytes → Option Value
discovery_member name =
    if bytes_eq name (text "issuer")
    then some (string (text "https://i"))
    else if bytes_eq name (text "jwks_uri")
    then some (string (text "https://i/k"))
    else none

abbrev key_member : Bytes → Option Value
key_member name =
    if bytes_eq name (text "kid")
    then some (string (text "1"))
    else if bytes_eq name (text "use")
    then some (string (text "sig"))
    else if bytes_eq name (text "kty")
    then some (string (text "OKP"))
    else if bytes_eq name (text "alg")
    then some (string (text "EdDSA"))
    else if bytes_eq name (text "crv")
    then some (string (text "Ed25519"))
    else if bytes_eq name (text "x")
    then some (string (replicate 43 b'A'))
    else none

-- One object serves as the header and as the payload of a token.
abbrev part_member : Bytes → Option Value
part_member name =
    if bytes_eq name (text "alg")
    then some (string (text "EdDSA"))
    else if bytes_eq name (text "typ")
    then some (string (text "at+jwt"))
    else if bytes_eq name (text "kid")
    then some (string (text "1"))
    else if bytes_eq name (text "iss")
    then some (string (text "https://i"))
    else if bytes_eq name (text "aud")
    then some (string (text "db"))
    else if bytes_eq name (text "exp")
    then some (number 1000)
    else if bytes_eq name (text "sub")
    then some (string (text "u"))
    else if bytes_eq name (text "scope")
    then some (string (text "openid"))
    else none

abbrev member : Value → Bytes → Option Value
member discovery name = discovery_member name
member key_set name = if bytes_eq name (text "keys") then some keys else none
member key name = key_member name
member parts name = part_member name
member _ name = none

abbrev value_string : Value → Option Bytes
value_string (string s) = some s
value_string _ = none

abbrev value_array : Value → Option (List Value)
value_array keys = some (key ∷ [])
value_array _ = none

abbrev value_integer : Value → Option ℤ
value_integer (number n) = some (pos n)
value_integer _ = none

abbrev is_object_value : Value → Bool
is_object_value (string s) = false
is_object_value (number n) = false
is_object_value keys = false
is_object_value _ = true

abbrev loaded : Bytes → Option Value
loaded b =
    if bytes_eq b (text "d")
    then some discovery
    else if bytes_eq b (text "k")
    then some key_set
    else some parts

abbrev the_token : Bytes
the_token = text "e30.e30.AA"

abbrev json : Jansson
json = record {
  Json = Value;
  is_object = is_object_value;
  object_get = member;
  string_of = value_string;
  array_of = value_array;
  integer_of = value_integer;
  loadb = loaded;
}

abbrev checker : Libjwt json
checker = record {
  KeySet = Bytes;
  KeyItem = Bytes;
  Checker = Bytes;
  json_dumps = λ v. some (text "{}");
  jwks_create = λ b. some b;
  jwks_error = λ b. false;
  jwks_item_count = λ b. 1;
  jwks_item_get = λ b. some b;
  checker_new = some (text "");
  checker_setkey = λ c a k. some k;
  disable_leeway = λ c t. some c;
  checker_verify = λ c t. bytes_eq t the_token;
}

abbrev answered : Bytes → Got
answered document = got (record {
  body = document;
  status = pos 200;
  headers = record { cache_control = none; date = none; expires = none; age = none };
})

abbrev settings : Variables
settings = record {
  oauth_audiences = some (text "db");
  oauth_allowed_algorithms = some (text "EdDSA");
  oauth_allowed_token_types = some (text "at+jwt");
  oauth_identity_claim = some (text "sub");
  oauth_role_claim = some [];
  oauth_allowed_jwks_hosts = some [];
  oauth_ca_file = some [];
  oauth_clock_skew_ms = pos 60000;
  oauth_max_token_size = pos 16384;
  oauth_metadata_default_ttl_ms = pos 300000;
  oauth_jwks_default_ttl_ms = pos 300000;
  oauth_cache_max_ttl_ms = pos 3600000;
  oauth_jwks_stale_grace_ms = pos 0;
  oauth_unknown_kid_refresh_cooldown_ms = pos 30000;
  oauth_refresh_wait_timeout_ms = pos 5000;
  oauth_cache_max_entries = pos 8;
  oauth_allow_insecure_http = false;
  oauth_allow_missing_token_type = false;
}

abbrev sizes : Sizes
sizes = record { header = 256; entry = 69760 }

abbrev same_or_new : Option Segment → Segment → Option Segment
same_or_new none t = some t
same_or_new (some s) t = some s

abbrev registry : Registry
registry = record { get_named_segment = same_or_new }

abbrev connection : Environment
connection = record {
  variables = settings;
  hba = some (record {
    oauth_issuer = some (text "https://i");
    oauth_scope = some (text "openid");
    oauth_skip_usermap = false;
  });
  policy_option = none;
  clock = some (pos 10, 0);
  wall_time = pos 900;
  requests = record {
    metadata_request = λ url p. answered (text "d");
    jwks_request = λ url p. answered (text "k");
  };
  interrupt_pending = false;
  shared = record { backend = new_backend; segment = none; others = [] };
}

abbrev getdate : Bytes → ℤ
getdate d = pos 0

abbrev outcome : ModuleResult
outcome =
    validate_callback json ssl curl getdate checker sizes registry connection (some (text "u"))
      (some the_token)

outcome_lem : outcome.authorized ≡ true
unfolding bytes_eq is_space is_cntrl skip skip_back trim entries_of ends_in_comma split
    base64url_value value_bits last_value is_symbol valid decoded_size decode_groups decode
    append_bytes u32_bytes u64_bytes append_u8 append_u32 append_u64 append_string append append_all
    items_of bad_policy build note_slot choose_slot find_slot find_refresh_slot started_entry
    start_refresh begin_at Begin.begin_refresh owns bad_payload bad_outcome store complete_entry
    complete_at Complete.complete_refresh freshness scan answer lookup_at lookup copy_entry
    valid_key same_key bounded_add increment next_serial count_refresh count_lookup init attach
    config_snapshot hba_policy_read metadata_url monotonic_ms bounded_length metadata_http_for
    jwks_http_for issuer_key_policy claims_policy validator_policy cache_key_policy cache_policy_for
    fetched_key finish_callback run_pipeline validate_token validate_at validate_issuer
    validate_clocked validate_attached validate_configured validate_policy validate_rule
    validate_callback audience_among configured_audience_matches audience_matches valid_policy
    has_control valid_identity_string validate_requested_role valid_scope_token scopes_contain
    scope_string_contains scope_claim contains check_scopes validate_scopes json_string_equals
    expiry_of check_time check_payload check_claims validate date_of date_or stated_freshness
    apparent_age limits freshness_of remaining_ms calculate_parsed calculate_headers calculate
    decimal_from decimal directive_name without_last parse_cache_control parse_age parse_host
    parse_handle parse_rest parse_url http_url_host valid_utf8_loop valid_utf8 identity_build
    cache_policy_valid set_http_error set_metadata_error set_selected look_up Context.begin_refresh
    Context.complete_refresh outcome_of complete_with complete_response fresh_copy
    metadata_requested metadata_begun metadata_found cached_metadata stored_or_fail store_metadata
    metadata_host metadata_parsed use_metadata cached_capacity keys_under cached_rest metadata_under
    cached_fetch fetch_with fetch_cached copied_from copied_keys refreshed_selected refreshed_keys
    keys_begun refresh_keys found_keys cached_keys bad_kid member_is bad_use only_verify
    bad_operations key_allows_verification contains_private_key_material key_algorithm
    decode_parameter valid_ed25519_key bad_jwks_policy search_keys bad_key check_candidate
    select_among select_document jwks_select three_segments split_compact_jws decode_base64url
    bad_envelope_policy algorithm_named allowed_type bad_key_id decode_json_object
    has_unsupported_header parse_algorithm valid_type check_header decode_segments parse_token parse
    valid_url_octets validate_handle validate_rest validate_url check_uri check_members
    parse_document parse_for metadata_parse bad_ca_file bad_role_claim bad_name bad_cache_policy
    build_rest policy_build bits_from token_type_named parse_token_types parse_algorithms
    audiences_from validate_audiences validate_claim_name hosts_from validate_jwks_hosts
    shared_io_lookup shared_io_begin shared_io_complete copied locked_on shared_cache_lookup
    shared_cache_begin_refresh shared_cache_complete_refresh shared_cache_size attach_view
    attach_segment configure_capacity attach_when libjwt_algorithm without_leeway with_key verify_by
    verify_imported verify_dumped verify_with signature_verify bad_octet strip strip_proper
    authority url_scheme bad_handle identity_stage claims_stage signature_stage fetched_stage
    envelope_stage issuer_stage validate_access_token run
outcome_lem = refl

validate_callback-Authorized_example :
    (t : Bytes) × (some the_token ≡ some t)
    × Authorized json ssl curl getdate checker sizes registry connection (some (text "u")) t outcome
validate_callback-Authorized_example =
    validate_callback-Authorized json ssl curl getdate checker sizes registry connection
      (some (text "u")) (some the_token) outcome_lem

abbrev rule : HbaPolicy
rule = record {
  issuer = some (text "https://i");
  required_scopes = some (text "openid");
  policy_name = none;
  delegate_ident_mapping = false;
}

abbrev built : ValidationPolicy
built = record {
  name = text "default";
  issuer = text "https://i";
  required_scopes = text "openid";
  token_types = 1;
  algorithms = 4;
  config = record {
    audiences = some (text "db");
    allowed_algorithms = some (text "EdDSA");
    allowed_token_types = some (text "at+jwt");
    identity_claim = some (text "sub");
    role_claim = some [];
    allowed_jwks_hosts = some [];
    ca_file = some [];
    clock_skew_ms = pos 60000;
    max_token_size = pos 16384;
    metadata_default_ttl_ms = pos 300000;
    jwks_default_ttl_ms = pos 300000;
    cache_max_ttl_ms = pos 3600000;
    jwks_stale_grace_ms = pos 0;
    unknown_kid_refresh_cooldown_ms = pos 30000;
    refresh_wait_timeout_ms = pos 5000;
    allow_insecure_http = false;
    allow_missing_token_type = false;
  };
}

built_lem : policy_build (some (config_snapshot settings)) (some rule) ≡ policy_ok built
unfolding config_snapshot policy_build build_rest bad_name validate_audiences audiences_from
    ends_in_comma entries_of trim skip skip_back is_space is_cntrl parse_algorithms bits_from
    algorithm_named parse_token_types token_type_named bytes_eq validate_claim_name bad_role_claim
    validate_jwks_hosts hosts_from bad_ca_file bad_cache_policy
built_lem = refl

abbrev eight : Backend
eight = record { attached = false; configured_capacity = 8 }

abbrev the_cache : Shared
the_cache = attached_shared json ssl curl getdate checker sizes registry connection eight

opened : Opened json ssl curl getdate checker sizes registry connection 10000 the_cache
unfolding monotonic_ms configure_capacity shared_cache_size attach_when attach_segment attach_view
    attach
opened = record {
  now_is = refl;
  backend = eight;
  configured = refl;
  attached = refl;
  shared_is = refl;
}

host_lem :
    http_url_host curl (some (text "https://i/.well-known/openid-configuration")) 2048 false
    ≡ url_host_ok (text "i")
unfolding http_url_host parse_url parse_rest parse_handle parse_host url_scheme strip_proper strip
    authority bad_octet bad_handle
host_lem = refl

validate_callback-Decides_example :
    Decides json ssl curl getdate checker sizes registry connection
      (some (text "u"))
      the_token
      built
      (text "https://i/.well-known/openid-configuration")
      (text "i")
      10000
      the_cache
      outcome
unfolding hba_policy_read metadata_url
validate_callback-Decides_example =
    validate_callback-Decides json ssl curl getdate checker sizes registry connection
      (some (text "u")) the_token rule built (text "https://i/.well-known/openid-configuration")
      (text "i") 10000 the_cache refl built_lem opened refl host_lem refl refl (omega arith)
      (omega arith)
