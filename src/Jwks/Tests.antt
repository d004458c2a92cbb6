-- ===== src/Jwks/Tests.antt =====
-- A key set with one Ed25519 key.
use pg_oauth_validator.Base64Url.Codec.{
  valid, decoded_size, decode, decode_groups, value_bits, base64url_value, last_value, is_symbol,
}
use pg_oauth_validator.JwtEnvelope.Parse.{algorithm_named}
use pg_oauth_validator.Jwks.Sound.{Chosen, jwks_select-Chosen}
use pg_oauth_validator.Jwks.Select.{
  jwks_select, bad_jwks_policy, select_document, select_among, search_keys, check_candidate,
  bad_key, selected,
}
use pg_oauth_validator.Json.{Jansson}
use pg_oauth_validator.Base.{
  [], ◌∷◌, none, some, Bytes, Option, Bool, if◌then◌else◌, List, true, false, bytes_eq, text,
  replicate, is_cntrl, ◌≡◌, refl,
}
use pg_oauth_validator.Jwks.Keys.{
  JwksPolicy, OpenSsl, bad_kid, key_algorithm, key_allows_verification, bad_use, member_is,
  bad_operations, contains_private_key_material, valid_rsa_key, valid_ec_key, valid_ed25519_key,
  decode_parameter,
}

data Value : Type 0 where
  root keys key : Value
  string : Bytes → Value

abbrev key_member : Bytes → Option Value
key_member name =
    if bytes_eq name (text "kid")
    then some (string (text "1"))
    else if bytes_eq name (text "alg")
    then some (string (text "EdDSA"))
    else if bytes_eq name (text "use")
    then some (string (text "sig"))
    else if bytes_eq name (text "kty")
    then some (string (text "OKP"))
    else if bytes_eq name (text "crv")
    then some (string (text "Ed25519"))
    else if bytes_eq name (text "x")
    then some (string (replicate 43 b'A'))
    else none

abbrev member : Value → Bytes → Option Value
member root name = if bytes_eq name (text "keys") then some keys else none
member keys name = none
member key name = key_member name
member (string s) name = none

abbrev value_string : Value → Option Bytes
value_string (string s) = some s
value_string _ = none

abbrev value_array : Value → Option (List Value)
value_array keys = some (key ∷ [])
value_array _ = none

abbrev is_object_value : Value → Bool
is_object_value root = true
is_object_value key = true
is_object_value _ = false

abbrev json : Jansson
json = record {
  Json = Value;
  is_object = is_object_value;
  object_get = member;
  string_of = value_string;
  array_of = value_array;
  integer_of = λ v. none;
  loadb = λ b. some root;
}

abbrev ssl : OpenSsl
ssl = record { on_curve = λ x y. false; raw_public_key = λ x. true }

abbrev policy : JwksPolicy
policy = record {
  max_jwks_size = 65536;
  max_keys = 32;
  max_key_id_size = 1024;
  allowed_algorithms = 7;
  minimum_rsa_bits = 2048;
  maximum_rsa_bits = 8192;
}

jwks_select_lem :
    jwks_select json ssl (some (text "{}")) (some (text "1")) 4 (some policy) ≡ selected key 4
unfolding jwks_select bad_jwks_policy bad_kid select_document select_among search_keys
    check_candidate key_algorithm algorithm_named key_allows_verification bad_use member_is
    bad_operations contains_private_key_material bad_key valid_rsa_key valid_ec_key
    valid_ed25519_key decode_parameter valid decoded_size decode decode_groups value_bits
    base64url_value last_value is_symbol is_cntrl bytes_eq
jwks_select_lem = refl

jwks_select-Chosen_example : Chosen json ssl (text "{}") (text "1") policy 4 key 4
jwks_select-Chosen_example =
    jwks_select-Chosen json ssl (text "{}") (text "1") 4 policy jwks_select_lem
