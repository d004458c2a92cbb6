-- ===== src/Validator/Tests.antt =====
-- A token of user `u`, with a provider that has one key.
use pg_oauth_validator.Base64Url.Codec.{
  valid, base64url_value, last_value, value_bits, is_symbol, decoded_size, decode, decode_groups,
}
use pg_oauth_validator.Claims.Roles.{validate_requested_role}
use pg_oauth_validator.Claims.Audience.{
  audience_matches, configured_audience_matches, audience_among,
}
use pg_oauth_validator.Claims.Scopes.{
  validate_scopes, check_scopes, contains, scope_claim, scope_string_contains, scopes_contain,
  valid_scope_token,
}
use pg_oauth_validator.Claims.Policy.{valid_policy, valid_identity_string, has_control}
use pg_oauth_validator.Claims.Validate.{
  validate, check_claims, check_payload, check_time, expiry_of, json_string_equals,
}
use pg_oauth_validator.Identity.Build.{identity_build, valid_utf8, valid_utf8_loop}
use pg_oauth_validator.Validator.Denied.{Closed, validate_access_token-Closed}
use pg_oauth_validator.Validator.Sound.{Authenticated, validate_access_token-Authenticated}
use pg_oauth_validator.Validator.Pipeline.{
  KeySource, ValidatorPolicy, validate_access_token, issuer_stage, envelope_stage, fetched_stage,
  signature_stage, claims_stage, identity_stage, validator_ok,
}
use pg_oauth_validator.Json.{Jansson}
use pg_oauth_validator.Base.{
  [], none, some, Bytes, Option, Bool, ℕ, if◌then◌else◌, ℤ, true, text, bytes_eq, pos, false, inr,
  inl, split, entries_of, trim, skip, skip_back, is_space, is_cntrl, ◌≡◌, refl,
}
use pg_oauth_validator.JwtEnvelope.Parse.{
  parse, bad_envelope_policy, parse_token, split_compact_jws, three_segments, decode_segments,
  decode_json_object, decode_base64url, check_header, has_unsupported_header, parse_algorithm,
  algorithm_named, valid_type, allowed_type, bad_key_id,
}

data Value : Type 0 where
  object : Value
  string : Bytes → Value
  number : ℕ → Value

abbrev header_member : Bytes → Option Value
header_member name =
    if bytes_eq name (text "alg")
    then some (string (text "ES256"))
    else if bytes_eq name (text "typ")
    then some (string (text "at+jwt"))
    else if bytes_eq name (text "kid")
    then some (string (text "1"))
    else none

-- One object serves as header and as payload.
abbrev member : Bytes → Option Value
member name =
    if bytes_eq name (text "iss")
    then some (string (text "https://i"))
    else if bytes_eq name (text "aud")
    then some (string (text "db"))
    else if bytes_eq name (text "exp")
    then some (number 1000)
    else if bytes_eq name (text "sub")
    then some (string (text "u"))
    else if bytes_eq name (text "scope")
    then some (string (text "openid"))
    else header_member name

abbrev value_string : Value → Option Bytes
value_string object = none
value_string (string s) = some s
value_string (number n) = none

abbrev value_integer : Value → Option ℤ
value_integer object = none
value_integer (string s) = none
value_integer (number n) = some (pos n)

abbrev is_object_value : Value → Bool
is_object_value object = true
is_object_value (string s) = false
is_object_value (number n) = false

abbrev json : Jansson
json = record {
  Json = Value;
  is_object = is_object_value;
  object_get = λ v name. member name;
  string_of = value_string;
  array_of = λ v. none;
  integer_of = value_integer;
  loadb = λ b. some object;
}

abbrev provider_key : Bytes
provider_key = text "key"

abbrev provider : KeySource
provider = record {
  Key = Bytes;
  KeyError = Bool;
  SignatureError = Bool;
  Detail = Bool;
  no_detail = false;
  fetch = λ url issuer kid algorithm.
      if bytes_eq kid (text "1") then (true, inr provider_key) else (true, inl true);
  verify = λ token key. if bytes_eq key provider_key then none else some true;
}

abbrev policy : ValidatorPolicy
policy = record {
  envelope = record {
    max_token_size = 16384;
    max_header_size = 8192;
    max_payload_size = 8192;
    allowed_algorithms = 3;
    allowed_token_types = 1;
    allow_missing_token_type = false;
  };
  claims = record {
    issuer = some (text "https://i");
    audiences = some (text "db");
    required_scopes = some (text "openid");
    identity_claim = some (text "sub");
    role_claim = some [];
    requested_role = none;
    current_time = pos 900;
    clock_skew_seconds = 30;
    max_identity_size = 64;
    max_subject_size = 64;
    max_audiences = 16;
    max_scopes = 16;
    max_roles = 16;
    max_role_size = 64;
  };
  identity = record { max_subject_size = 64; max_authn_id_size = 64 };
}

abbrev token : Bytes
token = text "e30.e30.AA"

abbrev url : Bytes
url = text "https://i/m"

validate_access_token_lem :
    (validate_access_token json provider (some token) (some url) (some policy)).error ≡ validator_ok
unfolding validate_access_token issuer_stage envelope_stage fetched_stage signature_stage
    claims_stage identity_stage identity_build valid_utf8 valid_utf8_loop validate check_claims
    check_payload check_time expiry_of json_string_equals valid_policy valid_identity_string
    has_control validate_scopes check_scopes contains scope_claim scope_string_contains
    scopes_contain valid_scope_token split audience_matches configured_audience_matches
    audience_among entries_of trim skip skip_back is_space is_cntrl bytes_eq validate_requested_role
    parse bad_envelope_policy parse_token split_compact_jws three_segments valid base64url_value
    last_value value_bits is_symbol decode_segments decode_json_object decode_base64url decoded_size
    decode decode_groups check_header has_unsupported_header parse_algorithm algorithm_named
    valid_type allowed_type bad_key_id
validate_access_token_lem = refl

validate_access_token-Authenticated_example :
    Authenticated json provider token url policy
      (validate_access_token json provider (some token) (some url) (some policy))
validate_access_token-Authenticated_example =
    validate_access_token-Authenticated json provider token url policy validate_access_token_lem

validate_access_token-Closed_example :
    Closed json provider (validate_access_token json provider (some token) none (some policy))
validate_access_token-Closed_example =
    validate_access_token-Closed json provider (some token) none (some policy)
