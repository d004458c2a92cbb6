-- ===== src/Claims/Tests.antt =====
-- A token of user `u` with the scope `openid`, for the audience `db`.
use pg_oauth_validator.Claims.Roles.{validate_requested_role}
use pg_oauth_validator.Claims.Audience.{
  audience_matches, configured_audience_matches, audience_among,
}
use pg_oauth_validator.Claims.Sound.{validate-Accepted}
use pg_oauth_validator.Claims.Scopes.{
  validate_scopes, check_scopes, contains, scope_claim, scope_string_contains, scopes_contain,
  valid_scope_token,
}
use pg_oauth_validator.Claims.Accepted.{Accepted}
use pg_oauth_validator.Claims.Validate.{
  ValidatedClaims, validate, check_claims, check_payload, check_time, expiry_of, json_string_equals,
  claims_ok,
}
use pg_oauth_validator.Json.{Jansson}
use pg_oauth_validator.Base.{
  [], none, some, Bytes, Option, Bool, text, ℕ, if◌then◌else◌, ℤ, true, pos, bytes_eq, false, split,
  entries_of, trim, skip, skip_back, is_space, is_cntrl, ◌≡◌, refl,
}
use pg_oauth_validator.Claims.Policy.{
  ClaimsPolicy, valid_policy, valid_identity_string, has_control,
}

data Value : Type 0 where
  object : Value
  string : Bytes → Value
  number : ℕ → Value

abbrev member : Bytes → Option Value
member name =
    if bytes_eq name (text "iss")
    then some (string (text "https://i"))
    else if bytes_eq name (text "aud")
    then some (string (text "db"))
    else if bytes_eq name (text "exp")
    then some (number 1000)
    else if bytes_eq name (text "sub")
    then some (string (text "u"))
    else if bytes_eq name (text "scope")
    then some (string (text "openid email"))
    else none

abbrev value_string : Value → Option Bytes
value_string object = none
value_string (string s) = some s
value_string (number n) = none

abbrev value_integer : Value → Option ℤ
value_integer object = none
value_integer (string s) = none
value_integer (number n) = some (pos n)

abbrev is_object_value : Value → Bool
is_object_value object = true
is_object_value (string s) = false
is_object_value (number n) = false

abbrev json : Jansson
json = record {
  Json = Value;
  is_object = is_object_value;
  object_get = λ v name. member name;
  string_of = value_string;
  array_of = λ v. none;
  integer_of = value_integer;
  loadb = λ b. some object;
}

abbrev policy : ClaimsPolicy
policy = record {
  issuer = some (text "https://i");
  audiences = some (text "app, db");
  required_scopes = some (text "openid");
  identity_claim = some (text "sub");
  role_claim = some [];
  requested_role = none;
  current_time = pos 900;
  clock_skew_seconds = 30;
  max_identity_size = 64;
  max_subject_size = 64;
  max_audiences = 16;
  max_scopes = 16;
  max_roles = 16;
  max_role_size = 64;
}

abbrev claims : ValidatedClaims
claims = record { identity = text "u"; expires_at = 1000 }

validate_lem : validate json (some object) (some policy) ≡ claims_ok claims
unfolding validate check_claims check_payload check_time expiry_of json_string_equals valid_policy
    valid_identity_string has_control validate_scopes check_scopes contains scope_claim
    scope_string_contains scopes_contain valid_scope_token split audience_matches
    configured_audience_matches audience_among entries_of trim skip skip_back is_space is_cntrl
    bytes_eq validate_requested_role
validate_lem = refl

validate-Accepted_example : Accepted json object policy claims
validate-Accepted_example = validate-Accepted json object policy validate_lem
