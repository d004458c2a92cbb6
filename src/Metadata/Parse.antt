-- ===== src/Metadata/Parse.antt =====
-- `validate_url` and `pg_oauth_metadata_parse`.
use pg_oauth_validator.Json.{Jansson}
use pg_oauth_validator.Url.Parts.{
  UrlScheme, behind_scheme, unknown_scheme, insecure_scheme, url_scheme, CurlUrl, bad_octet,
  authority, bad_handle,
}
use pg_oauth_validator.Base.{
  none, some, ℕ, Bool, Option, Bytes, ◌==◌, if◌then◌else◌, ◌||◌, true, false, text, any, not,
  length, ltb, bytes_eq, ◌&&◌, is_empty,
}

pub data MetadataError : Type 0 where
  metadata_bad_argument metadata_empty metadata_too_large metadata_invalid_json : MetadataError
  invalid_issuer issuer_mismatch invalid_jwks_uri insecure_uri : MetadataError

pub record MetadataPolicy : Type 0 where
  pub max_document_size : ℕ
  pub max_url_size : ℕ
  pub allow_insecure_http : Bool

-- PG_OAUTH_METADATA_OK comes with `jwks_uri`.
pub data Metadata : Type 0 where
  parsed : Bytes → Metadata
  refused : MetadataError → Metadata

unfoldable pub valid_url_octets : Bytes → Bool
valid_url_octets value = not (any bad_octet value)

module _ (curl : CurlUrl) where
  unfoldable pub validate_handle : Bytes → Option MetadataError
  validate_handle value = elim (curl.url_set value) [
    | none ↦ some invalid_jwks_uri
    | some url ↦ if bad_handle curl url then some invalid_jwks_uri else none
  ]

  -- The part of `validate_url` behind the scheme; `none` is PG_OAUTH_METADATA_OK.
  unfoldable pub validate_rest : Bytes → Bool → UrlScheme → Option MetadataError
  validate_rest value issuer unknown_scheme = some invalid_jwks_uri
  validate_rest value issuer insecure_scheme = some insecure_uri
  validate_rest value issuer (behind_scheme rest) =
      if is_empty (authority rest) || any (λ b. b == b'@') (authority rest)
      then some invalid_jwks_uri
      else if issuer && any (λ b. b == b'?') value
      then some invalid_jwks_uri
      else validate_handle value

  unfoldable pub validate_url : Bytes → ℕ → Bool → Bool → Option MetadataError
  validate_url value maximum allow_http issuer =
      if length value == 0
        || ltb maximum (length value)
        || not (valid_url_octets value)
        || any (λ b. b == b'#') value
      then some invalid_jwks_uri
      else validate_rest value issuer (url_scheme value allow_http)

module _ (J : Jansson) (curl : CurlUrl) where
  abbrev pub string_member : J.Json → Bytes → Option Bytes
  string_member root name = elim (J.object_get root name) [
    | none ↦ none
    | some value ↦ J.string_of value
  ]

  unfoldable pub check_uri : MetadataPolicy → Option Bytes → Metadata
  check_uri p none = refused invalid_jwks_uri
  check_uri p (some uri) = elim (validate_url curl uri p.max_url_size p.allow_insecure_http false) [
    | some e ↦ refused e
    | none ↦ parsed uri
  ]

  unfoldable pub check_members : Bytes → MetadataPolicy → Option Bytes → Option Bytes → Metadata
  check_members expected p none uri = refused invalid_issuer
  check_members expected p (some issuer) uri =
      if not (bytes_eq issuer expected) then refused issuer_mismatch else check_uri p uri

  unfoldable pub parse_document : Bytes → Bytes → MetadataPolicy → Metadata
  parse_document document expected p = elim (J.loadb document) [
    | none ↦ refused metadata_invalid_json
    | some root ↦
        if not (J.is_object root)
        then refused metadata_invalid_json
        else check_members expected p (string_member root (text "issuer"))
            (string_member root (text "jwks_uri"))
  ]

  -- An issuer that is itself no clean URL is reported as an invalid issuer, whatever is wrong with it.
  unfoldable pub parse_for : Bytes → Bytes → MetadataPolicy → Metadata
  parse_for document expected p =
      elim (validate_url curl expected p.max_url_size p.allow_insecure_http true) [
        | some e ↦ refused invalid_issuer
        | none ↦ parse_document document expected p
      ]

  unfoldable pub metadata_parse : Option Bytes → Option Bytes → Option MetadataPolicy → Metadata
  metadata_parse none expected p = refused metadata_bad_argument
  metadata_parse (some document) none p = refused metadata_bad_argument
  metadata_parse (some document) (some expected) none = refused metadata_bad_argument
  metadata_parse (some document) (some expected) (some p) =
      if p.max_document_size == 0 || p.max_url_size == 0
      then refused metadata_bad_argument
      else if length document == 0
      then refused metadata_empty
      else if ltb p.max_document_size (length document)
      then refused metadata_too_large
      else parse_for document expected p
