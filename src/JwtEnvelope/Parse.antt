-- ===== src/JwtEnvelope/Parse.antt =====
-- `pg_oauth_jwt_envelope_parse` and its helpers. `malloc` gives memory.
use pg_oauth_validator.Json.{Jansson}
use Prim.Native.Nat.{bit_and}
use pg_oauth_validator.Base64Url.Codec.{decoded_size, decode, valid}
use pg_oauth_validator.Base.{
  ◌-◌, [], ◌∷◌, none, some, ℕ, Bytes, List, Bool, Option, ◌==◌, text, if◌then◌else◌, bytes_eq,
  length, is_empty, split, ◌||◌, ◌&&◌, not, ltb, any, is_cntrl, is_none, false,
}

pub data EnvelopeError : Type 0 where
  envelope_bad_argument empty_token token_too_large invalid_compact_jws : EnvelopeError
  invalid_base64url header_too_large payload_too_large invalid_header_json : EnvelopeError
  invalid_payload_json unsupported_header invalid_algorithm invalid_token_type : EnvelopeError
  invalid_key_id : EnvelopeError

pub record EnvelopePolicy : Type 0 where
  pub max_token_size : ℕ
  pub max_header_size : ℕ
  pub max_payload_size : ℕ
  pub allowed_algorithms : ℕ
  pub allowed_token_types : ℕ
  pub allow_missing_token_type : Bool

abbrev pub max_key_id_size : ℕ
max_key_id_size = 1024

abbrev pub at_jwt_type : ℕ
at_jwt_type = 1

abbrev pub application_at_jwt_type : ℕ
application_at_jwt_type = 2

-- PG_OAUTH_TOKEN_TYPES_ALL
abbrev pub token_types_all : ℕ
token_types_all = 3

abbrev pub rs256 : ℕ
rs256 = 1

abbrev pub es256 : ℕ
es256 = 2

abbrev pub eddsa : ℕ
eddsa = 4

pub record Segments : Type 0 where
  pub header_segment : Bytes
  pub payload_segment : Bytes
  pub signature_segment : Bytes

-- Exactly three pieces, none empty.
unfoldable pub three_segments : List Bytes → Option Segments
three_segments (h ∷ p ∷ s ∷ []) =
    if is_empty h || is_empty p || is_empty s
    then none
    else some (record { header_segment = h; payload_segment = p; signature_segment = s })
three_segments _ = none

unfoldable pub split_compact_jws : Bytes → Option Segments
split_compact_jws token = three_segments (split b'.' token)

unfoldable pub decode_base64url : Bytes → ℕ → Option Bytes
decode_base64url segment maximum = elim (decoded_size (length segment) maximum) [
  | none ↦ none
  | some size ↦ decode (some segment) size
]

unfoldable pub bad_envelope_policy : EnvelopePolicy → Bool
bad_envelope_policy p =
    p.allowed_token_types == 0
    || not (bit_and p.allowed_token_types (255 - token_types_all) == 0)
    || p.max_token_size == 0
    || p.max_header_size == 0
    || p.max_payload_size == 0
    || p.allowed_algorithms == 0

abbrev pub forbidden_headers : List Bytes
forbidden_headers =
    text "jku"
    ∷ text "jwk"
    ∷ text "x5u"
    ∷ text "x5c"
    ∷ text "x5t"
    ∷ text "x5t#S256"
    ∷ text "crit"
    ∷ text "zip"
    ∷ text "b64"
    ∷ text "cty"
    ∷ []

unfoldable pub algorithm_named : Bytes → ℕ
algorithm_named name =
    if bytes_eq name (text "RS256")
    then rs256
    else if bytes_eq name (text "ES256")
    then es256
    else if bytes_eq name (text "EdDSA")
    then eddsa
    else 0

unfoldable pub allowed_type : Bytes → ℕ → Bool
allowed_type name types =
    (bytes_eq name (text "at+jwt") && not (bit_and types at_jwt_type == 0))
    || (bytes_eq name (text "application/at+jwt")
        && not (bit_and types application_at_jwt_type == 0))

unfoldable pub bad_key_id : Bytes → Bool
bad_key_id k = length k == 0 || ltb max_key_id_size (length k) || any is_cntrl k

module _ (J : Jansson) where
  pub record Envelope : Type 0 where
    pub untrusted_header : J.Json
    pub untrusted_payload : J.Json
    pub algorithm : ℕ
    pub key_id : Bytes

  pub data EnvelopeResult : Type 0 where
    envelope_ok : Envelope → EnvelopeResult
    envelope_refused : EnvelopeError → EnvelopeResult

  pub data Decoded : Type 0 where
    decoded : J.Json → Decoded
    undecoded : EnvelopeError → Decoded

  unfoldable pub decode_json_object : Bytes → ℕ → EnvelopeError → EnvelopeError → Decoded
  decode_json_object segment maximum size_error json_error =
      elim (decode_base64url segment maximum) [
        | none ↦ undecoded size_error
        | some bytes ↦ elim (J.loadb bytes) [
          | none ↦ undecoded json_error
          | some object ↦ if J.is_object object then decoded object else undecoded json_error
        ]
      ]

  unfoldable pub has_unsupported_header : J.Json → Bool
  has_unsupported_header header =
      any (λ name. not (is_none (J.object_get header name))) forbidden_headers

  abbrev pub header_string : J.Json → Bytes → Option Bytes
  header_string header name = elim (J.object_get header name) [
    | none ↦ none
    | some j ↦ J.string_of j
  ]

  unfoldable pub parse_algorithm : J.Json → ℕ
  parse_algorithm header = elim (header_string header (text "alg")) [
    | none ↦ 0
    | some name ↦ algorithm_named name
  ]

  unfoldable pub valid_type : J.Json → EnvelopePolicy → Bool
  valid_type header p = elim (J.object_get header (text "typ")) [
    | none ↦ p.allow_missing_token_type
    | some j ↦ elim (J.string_of j) [
      | none ↦ false
      | some name ↦ allowed_type name p.allowed_token_types
    ]
  ]

  -- the checks of the header once both parts are decoded
  unfoldable pub check_header : EnvelopePolicy → J.Json → J.Json → EnvelopeResult
  check_header p header payload =
      let algorithm = parse_algorithm header in
      if has_unsupported_header header
      then envelope_refused unsupported_header
      else if algorithm == 0 || bit_and algorithm p.allowed_algorithms == 0
      then envelope_refused invalid_algorithm
      else if not (valid_type header p)
      then envelope_refused invalid_token_type
      else elim (header_string header (text "kid")) [
        | none ↦ envelope_refused invalid_key_id
        | some kid ↦
            if bad_key_id kid
            then envelope_refused invalid_key_id
            else envelope_ok (record {
              untrusted_header = header;
              untrusted_payload = payload;
              algorithm = algorithm;
              key_id = kid;
            })
      ]

  unfoldable pub decode_segments : EnvelopePolicy → Segments → EnvelopeResult
  decode_segments p s =
      elim (decode_json_object s.header_segment p.max_header_size header_too_large
        invalid_header_json) [
          | undecoded e ↦ envelope_refused e
          | decoded header ↦
              elim (decode_json_object s.payload_segment p.max_payload_size payload_too_large
                invalid_payload_json) [
                  | undecoded e ↦ envelope_refused e
                  | decoded payload ↦ check_header p header payload
                ]
        ]

  unfoldable pub parse_token : EnvelopePolicy → Bytes → EnvelopeResult
  parse_token p token =
      if length token == 0
      then envelope_refused empty_token
      else if ltb p.max_token_size (length token)
      then envelope_refused token_too_large
      else if any (λ b. b == 0) token
      then envelope_refused invalid_compact_jws
      else elim (split_compact_jws token) [
        | none ↦ envelope_refused invalid_compact_jws
        | some s ↦
            if not (
              valid (some s.header_segment)
              && valid (some s.payload_segment)
              && valid (some s.signature_segment))
            then envelope_refused invalid_base64url
            else decode_segments p s
      ]

  unfoldable pub parse : Option Bytes → Option EnvelopePolicy → EnvelopeResult
  parse none p = envelope_refused envelope_bad_argument
  parse (some token) none = envelope_refused envelope_bad_argument
  parse (some token) (some p) =
      if bad_envelope_policy p then envelope_refused envelope_bad_argument else parse_token p token
