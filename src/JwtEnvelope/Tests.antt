-- ===== src/JwtEnvelope/Tests.antt =====
-- A token whose header and payload are both the text "{}"; the library reads from it an object with
-- an algorithm, a type and a key id.
use pg_oauth_validator.JwtEnvelope.Sound.{parse-AcceptedToken}
use pg_oauth_validator.JwtEnvelope.Accepted.{AcceptedToken}
use pg_oauth_validator.Base64Url.Codec.{
  valid, base64url_value, last_value, value_bits, is_symbol, decoded_size, decode, decode_groups,
}
use pg_oauth_validator.Json.{Jansson}
use pg_oauth_validator.Base.{
  none, some, Bytes, Option, false, if◌then◌else◌, text, bytes_eq, split, is_none, is_cntrl, ◌≡◌,
  refl,
}
use pg_oauth_validator.JwtEnvelope.Parse.{
  EnvelopePolicy, Envelope, parse, es256, bad_envelope_policy, parse_token, split_compact_jws,
  three_segments, decode_segments, decode_json_object, decode_base64url, check_header,
  has_unsupported_header, parse_algorithm, algorithm_named, valid_type, allowed_type, bad_key_id,
  envelope_ok,
}

data Value : Type 0 where
  object : Value
  string : Bytes → Value

abbrev member : Bytes → Option Value
member name =
    if bytes_eq name (text "alg")
    then some (string (text "ES256"))
    else if bytes_eq name (text "typ")
    then some (string (text "at+jwt"))
    else if bytes_eq name (text "kid")
    then some (string (text "1"))
    else none

abbrev value_string : Value → Option Bytes
value_string object = none
value_string (string s) = some s

abbrev json : Jansson
json = record {
  Json = Value;
  is_object = λ v. is_none (value_string v);
  object_get = λ v name. member name;
  string_of = value_string;
  array_of = λ v. none;
  integer_of = λ v. none;
  loadb = λ b. some object;
}

abbrev policy : EnvelopePolicy
policy = record {
  max_token_size = 16384;
  max_header_size = 8192;
  max_payload_size = 8192;
  allowed_algorithms = 3;
  allowed_token_types = 1;
  allow_missing_token_type = false;
}

abbrev token : Bytes
token = text "e30.e30.AA"

abbrev envelope : Envelope json
envelope = record {
  untrusted_header = object;
  untrusted_payload = object;
  algorithm = es256;
  key_id = text "1";
}

parse_token_lem : parse json (some token) (some policy) ≡ envelope_ok envelope
unfolding parse bad_envelope_policy parse_token split_compact_jws three_segments split valid
    base64url_value last_value value_bits is_symbol decode_segments decode_json_object
    decode_base64url decoded_size decode decode_groups check_header has_unsupported_header
    parse_algorithm algorithm_named valid_type allowed_type bad_key_id is_cntrl bytes_eq
parse_token_lem = refl

parse-AcceptedToken_example : AcceptedToken json token policy envelope
parse-AcceptedToken_example = parse-AcceptedToken json token policy parse_token_lem
