-- ===== src/Example.antt =====
-- A provider for the tests: the issuer https://i, with a discovery document and a key set of one key.
use pg_oauth_validator.HttpTransport.Request.{HttpPolicy}
use pg_oauth_validator.Json.{Jansson}
use pg_oauth_validator.Jwks.Keys.{OpenSsl, JwksPolicy}
use pg_oauth_validator.Metadata.Parse.{MetadataPolicy}
use pg_oauth_validator.Url.Parts.{CurlUrl}
use pg_oauth_validator.Base.{
  [], ◌∷◌, none, some, pos, Bool, Option, List, Bytes, if◌then◌else◌, true, false, bytes_eq, text,
  replicate,
}

pub data Value : Type 0 where
  discovery key_set keys key : Value
  string : Bytes → Value

abbrev pub discovery_member : Bytes → Option Value
discovery_member name =
    if bytes_eq name (text "issuer")
    then some (string (text "https://i"))
    else if bytes_eq name (text "jwks_uri")
    then some (string (text "https://i/k"))
    else none

abbrev pub key_member : Bytes → Option Value
key_member name =
    if bytes_eq name (text "kid")
    then some (string (text "1"))
    else if bytes_eq name (text "use")
    then some (string (text "sig"))
    else if bytes_eq name (text "kty")
    then some (string (text "OKP"))
    else if bytes_eq name (text "alg")
    then some (string (text "EdDSA"))
    else if bytes_eq name (text "crv")
    then some (string (text "Ed25519"))
    else if bytes_eq name (text "x")
    then some (string (replicate 43 b'A'))
    else none

abbrev pub member : Value → Bytes → Option Value
member discovery name = discovery_member name
member key_set name = if bytes_eq name (text "keys") then some keys else none
member keys name = none
member key name = key_member name
member (string s) name = none

abbrev pub value_string : Value → Option Bytes
value_string (string s) = some s
value_string _ = none

abbrev pub value_array : Value → Option (List Value)
value_array keys = some (key ∷ [])
value_array _ = none

abbrev pub is_object_value : Value → Bool
is_object_value (string s) = false
is_object_value keys = false
is_object_value _ = true

abbrev pub discovery_document : Bytes
discovery_document = text "d"

abbrev pub key_document : Bytes
key_document = text "k"

abbrev pub issuer : Bytes
issuer = text "https://i"

abbrev pub discovery_url : Bytes
discovery_url = text "https://i/d"

abbrev pub key_url : Bytes
key_url = text "https://i/k"

abbrev pub json : Jansson
json = record {
  Json = Value;
  is_object = is_object_value;
  object_get = member;
  string_of = value_string;
  array_of = value_array;
  integer_of = λ v. none;
  loadb = λ b. if bytes_eq b discovery_document then some discovery else some key_set;
}

abbrev pub ssl : OpenSsl
ssl = record { on_curve = λ x y. false; raw_public_key = λ x. true }

abbrev pub curl : CurlUrl
curl = record {
  Handle = Bytes;
  url_set = λ url. some url;
  host = λ h. some (text "i");
  user = λ h. none;
  password = λ h. none;
  fragment = λ h. none;
}

abbrev pub metadata_policy : MetadataPolicy
metadata_policy = record {
  max_document_size = 65536;
  max_url_size = 2048;
  allow_insecure_http = false;
}

abbrev pub http_policy : HttpPolicy
http_policy = record {
  max_url_size = 2048;
  max_response_size = 65536;
  connect_timeout_ms = pos 2000;
  total_timeout_ms = pos 5000;
  allowed_host = some (text "I");
  additional_allowed_hosts = none;
  ca_file = none;
  allow_insecure_http = false;
  cancellable = true;
}

abbrev pub jwks_policy : JwksPolicy
jwks_policy = record {
  max_jwks_size = 65536;
  max_keys = 16;
  max_key_id_size = 1024;
  allowed_algorithms = 4;
  minimum_rsa_bits = 2048;
  maximum_rsa_bits = 8192;
}
