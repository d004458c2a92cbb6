-- ===== src/IssuerKey/Tests.antt =====
-- A fetch through the shared cache, which is new.
use pg_oauth_validator.Example.{
  json, ssl, curl, http_policy, metadata_policy, jwks_policy, discovery_url, discovery_document,
  key_document, issuer,
}
use pg_oauth_validator.Base64Url.Codec.{
  valid, decoded_size, decode, decode_groups, value_bits, base64url_value, last_value, is_symbol,
}
use pg_oauth_validator.CacheKey.Build.{
  KeyPolicy, append, append_all, append_bytes, append_string, append_u32, append_u64, append_u8,
  bad_policy, build, items_of, u32_bytes, u64_bytes,
}
use pg_oauth_validator.HttpTransport.Request.{
  http_url_host, parse_url, parse_rest, parse_handle, parse_host,
}
use pg_oauth_validator.HttpTransport.Transfer.{Got, got}
use pg_oauth_validator.HttpFreshness.Calculate.{
  Policy, apparent_age, calculate, calculate_headers, calculate_parsed, date_of, date_or,
  freshness_of, limits, remaining_ms, stated_freshness,
}
use pg_oauth_validator.IssuerKey.Context.{
  CachePolicy, IssuerKeyPolicy, Context, set_http_error, set_metadata_error, set_selected,
  cache_policy_valid, complete_response, complete_with, look_up, outcome_of,
}
use pg_oauth_validator.IssuerKey.Fetch.{
  fetch_cached, fetch_with, new_context, cached_capacity, cached_fetch, cached_rest, keys_under,
  metadata_under,
}
use pg_oauth_validator.IssuerKey.Documents.{
  use_metadata, metadata_parsed, metadata_host, store_metadata, cached_metadata, fresh_copy,
  metadata_begun, metadata_found, metadata_requested, stored_or_fail,
}
use pg_oauth_validator.IssuerKey.Io.{Requests}
use pg_oauth_validator.IssuerKey.Keys.{
  cached_keys, copied_from, copied_keys, found_keys, keys_begun, refresh_keys, refreshed_keys,
  refreshed_selected,
}
use pg_oauth_validator.IssuerKey.Sound.{Fetched, fetch_cached-Trusted}
use pg_oauth_validator.IssuerKey.Traced.{Settled, traced, fetch_cached-Settled}
use pg_oauth_validator.Jwks.Keys.{
  bad_kid, key_algorithm, key_allows_verification, bad_use, member_is, bad_operations,
  contains_private_key_material, valid_ed25519_key, decode_parameter, only_verify,
}
use pg_oauth_validator.Jwks.Select.{
  jwks_select, bad_jwks_policy, select_document, select_among, search_keys, check_candidate,
  bad_key,
}
use pg_oauth_validator.JwtEnvelope.Parse.{algorithm_named}
use pg_oauth_validator.Metadata.Parse.{
  metadata_parse, parse_for, parse_document, check_members, check_uri, validate_url, validate_rest,
  validate_handle, valid_url_octets,
}
use pg_oauth_validator.SharedCache.Io.{
  Shared, shared_cache_io, CacheIo, shared_io_begin, shared_io_complete, shared_io_lookup,
}
use pg_oauth_validator.SharedCache.State.{
  Sizes, Registry, Segment, new_backend, attach_segment, attach_view, attach_when,
  configure_capacity, shared_cache_size,
}
use pg_oauth_validator.Url.Parts.{url_scheme, strip_proper, strip, authority, bad_octet, bad_handle}
use pg_oauth_validator.Base.{
  [], none, some, false, ◌≡◌, refl, inr, Option, Bytes, text, pos, bytes_eq, ℤ, is_cntrl,
  ends_in_comma, entries_of, is_space, skip, skip_back, split, trim,
}
use pg_oauth_validator.CacheState.Begin.{
  begin_at, choose_slot, find_refresh_slot, find_slot, note_slot, start_refresh, started_entry,
}
use pg_oauth_validator.CacheState.Complete.{
  bad_outcome, bad_payload, complete_at, complete_entry, owns, store,
}
use pg_oauth_validator.CacheState.Lookup.{answer, copy_entry, freshness, lookup, lookup_at, scan}
use pg_oauth_validator.CacheState.Types.{
  attach, bounded_add, count_lookup, count_refresh, increment, init, next_serial, same_key,
  valid_key,
}
use pg_oauth_validator.HttpFreshness.Headers.{
  decimal, decimal_from, directive_name, parse_age, parse_cache_control, without_last,
}
use pg_oauth_validator.SharedCache.Operations.{
  copied, locked_on, shared_cache_begin_refresh, shared_cache_complete_refresh, shared_cache_lookup,
}
use pg_oauth_validator.CacheState.History.{run}
use pg_oauth_validator.CacheState.Begin
use pg_oauth_validator.CacheState.Complete
use pg_oauth_validator.IssuerKey.Context

abbrev sizes : Sizes
sizes = record { header = 256; entry = 69760 }

abbrev same_or_new : Option Segment → Segment → Option Segment
same_or_new none t = some t
same_or_new (some s) t = some s

abbrev registry : Registry
registry = record { get_named_segment = same_or_new }

abbrev io : CacheIo
io = shared_cache_io sizes registry

abbrev answered : Bytes → Got
answered document = got (record {
  body = document;
  status = pos 200;
  headers = record { cache_control = none; date = none; expires = none; age = none };
})

abbrev web : Requests
web = record {
  metadata_request = λ url p. answered discovery_document;
  jwks_request = λ url p. answered key_document;
}

abbrev key_policy : KeyPolicy
key_policy = record {
  resource = 1;
  issuer = none;
  metadata_url = none;
  jwks_url = none;
  policy_name = some (text "default");
  required_scopes = some (text "openid");
  audiences = some (text "db");
  allowed_token_types = 3;
  allow_missing_token_type = false;
  identity_claim = some (text "sub");
  role_claim = some [];
  allowed_jwks_hosts = some [];
  ca_file = some [];
  allowed_algorithms = 4;
  clock_skew_ms = 60000;
  max_token_size = 16384;
  max_metadata_size = 65536;
  max_jwks_size = 65536;
  max_jwks_keys = 16;
  minimum_rsa_bits = 2048;
  maximum_rsa_bits = 8192;
  jwks_stale_grace_ms = 0;
  metadata_default_ttl_ms = 300000;
  jwks_default_ttl_ms = 300000;
  cache_max_ttl_ms = 3600000;
  unknown_kid_refresh_cooldown_ms = 30000;
  allow_insecure_http = false;
}

abbrev lifetimes : Policy
lifetimes = record { default_ttl_ms = pos 300000; maximum_ttl_ms = pos 3600000 }

abbrev cache_policy : CachePolicy
cache_policy = record {
  key_policy = key_policy;
  metadata_freshness = lifetimes;
  jwks_freshness = lifetimes;
  jwks_stale_grace_ms = pos 0;
  unknown_kid_refresh_cooldown_ms = pos 30000;
  refresh_wait_timeout_ms = pos 5000;
}

abbrev policy : IssuerKeyPolicy
policy = record {
  metadata_http = http_policy;
  metadata = metadata_policy;
  jwks_http = http_policy;
  jwks = jwks_policy;
}

abbrev start : Shared
start = record { backend = new_backend; segment = none; others = [] }

abbrev getdate : Bytes → ℤ
getdate d = pos 0

fetch_cached-Settled_example :
    Settled
      (fetch_cached json ssl curl getdate
        (traced io)
        web
        (some discovery_url)
        (some issuer)
        (some (text "1"))
        4
        (some policy)
        (some cache_policy)
        (pos 100)
        (new_context json ssl curl getdate (traced io) web (start, []) 10)).0.cache.1
fetch_cached-Settled_example =
    fetch_cached-Settled io json ssl curl getdate web (some discovery_url) (some issuer)
      (some (text "1")) 4 (some policy) (some cache_policy) (pos 100) start 10

abbrev context : Context json io
context = new_context json ssl curl getdate io web start 10

fetch_cached_lem :
    (fetch_cached json ssl curl getdate io web
      (some discovery_url)
      (some issuer)
      (some (text "1"))
      4
      (some policy)
      (some cache_policy)
      (pos 100)
      context).1
    ≡ inr tt
unfolding bytes_eq is_space is_cntrl skip skip_back trim entries_of ends_in_comma split
    base64url_value value_bits last_value is_symbol valid decoded_size decode_groups decode
    append_bytes u32_bytes u64_bytes append_u8 append_u32 append_u64 append_string append append_all
    items_of bad_policy build note_slot choose_slot find_slot find_refresh_slot started_entry
    start_refresh begin_at Begin.begin_refresh owns bad_payload bad_outcome store complete_entry
    complete_at Complete.complete_refresh freshness scan answer lookup_at lookup copy_entry
    valid_key same_key bounded_add increment next_serial count_refresh count_lookup init attach
    date_of date_or stated_freshness apparent_age limits freshness_of remaining_ms calculate_parsed
    calculate_headers calculate decimal_from decimal directive_name without_last parse_cache_control
    parse_age parse_host parse_handle parse_rest parse_url http_url_host cache_policy_valid
    set_http_error set_metadata_error set_selected look_up Context.begin_refresh
    Context.complete_refresh outcome_of complete_with complete_response fresh_copy
    metadata_requested metadata_begun metadata_found cached_metadata stored_or_fail store_metadata
    metadata_host metadata_parsed use_metadata cached_capacity keys_under cached_rest metadata_under
    cached_fetch fetch_with fetch_cached copied_from copied_keys refreshed_selected refreshed_keys
    keys_begun refresh_keys found_keys cached_keys bad_kid member_is bad_use only_verify
    bad_operations key_allows_verification contains_private_key_material key_algorithm
    decode_parameter valid_ed25519_key bad_jwks_policy search_keys bad_key check_candidate
    select_among select_document jwks_select algorithm_named valid_url_octets validate_handle
    validate_rest validate_url check_uri check_members parse_document parse_for metadata_parse
    shared_io_lookup shared_io_begin shared_io_complete copied locked_on shared_cache_lookup
    shared_cache_begin_refresh shared_cache_complete_refresh shared_cache_size attach_view
    attach_segment configure_capacity attach_when bad_octet strip strip_proper authority url_scheme
    bad_handle run
fetch_cached_lem = refl

fetch_cached-Trusted_example :
    Fetched json ssl curl getdate io web policy
      (some cache_policy)
      (pos 100)
      discovery_url
      issuer
      (text "1")
      4
      context
      (fetch_cached json ssl curl getdate io web
        (some discovery_url)
        (some issuer)
        (some (text "1"))
        4
        (some policy)
        (some cache_policy)
        (pos 100)
        context).0
fetch_cached-Trusted_example =
    fetch_cached-Trusted json ssl curl getdate io web policy (pos 100) discovery_url issuer
      (text "1") 4 (some cache_policy) context fetch_cached_lem
