-- ===== src/HttpTransport/Request.antt =====
-- Which URLs are requested, and which content types are accepted.
use pg_oauth_validator.Url.Parts.{
  UrlScheme, behind_scheme, unknown_scheme, insecure_scheme, url_scheme, CurlUrl, bad_octet,
  authority,
}
use pg_oauth_validator.Base.{
  [], ◌∷◌, none, some, ℕ, ℤ, Bool, Option, List, Bytes, ◌==◌, if◌then◌else◌, ◌||◌, ◌&&◌, true,
  false, not, length, ltb, any, text, is_empty, is_none, eq_ignore_case, entries_of, trim, is_blank,
  skip, skip_back, before,
}

pub data HttpError : Type 0 where
  http_bad_argument invalid_url insecure_url host_not_allowed http_timeout interrupted : HttpError
  tls_failure response_too_large http_status content_type network_failure : HttpError
  http_out_of_memory : HttpError

-- `cancellable` says that `cancel_requested` is not NULL.
pub record HttpPolicy : Type 0 where
  pub max_url_size : ℕ
  pub max_response_size : ℕ
  pub connect_timeout_ms : ℤ
  pub total_timeout_ms : ℤ
  pub allowed_host : Option Bytes
  pub additional_allowed_hosts : Option Bytes
  pub ca_file : Option Bytes
  pub allow_insecure_http : Bool
  pub cancellable : Bool

unfoldable pub host_from : Bytes → List Bytes → Bool
host_from host [] = false
host_from host (e ∷ es) =
    let rest = host_from host es in if eq_ignore_case (trim is_blank e) host then true else rest

unfoldable pub host_in_list : Bytes → Option Bytes → Bool
host_in_list host none = false
host_in_list host (some list) = if is_empty list then false else host_from host (entries_of list)

unfoldable pub is_json_type : Bytes → Bool
is_json_type value =
    eq_ignore_case value (text "application/json")
    || eq_ignore_case value (text "application/jwk-set+json")

unfoldable pub json_content_type : Option Bytes → Bool
json_content_type none = false
json_content_type (some value) =
    is_json_type (skip_back is_blank (before b';' (skip is_blank value)))

module _ (curl : CurlUrl) where
  -- The validated URL with its host.
  pub data ParsedUrl : Type 0 where
    parsed_url : curl.Handle → Bytes → ParsedUrl
    unparsed : HttpError → ParsedUrl

  unfoldable pub parse_host : curl.Handle → Option Bytes → ParsedUrl
  parse_host url none = unparsed invalid_url
  parse_host url (some host) =
      if is_empty host
        || not (is_none (curl.user url))
        || not (is_none (curl.password url))
        || not (is_none (curl.fragment url))
      then unparsed invalid_url
      else parsed_url url host

  unfoldable pub parse_handle : Bytes → ParsedUrl
  parse_handle value = elim (curl.url_set value) [
    | none ↦ unparsed invalid_url
    | some url ↦ parse_host url (curl.host url)
  ]

  unfoldable pub parse_rest : Bytes → UrlScheme → ParsedUrl
  parse_rest value unknown_scheme = unparsed invalid_url
  parse_rest value insecure_scheme = unparsed insecure_url
  parse_rest value (behind_scheme rest) =
      if is_empty (authority rest)
        || any (λ b. b == b'#') value
        || any (λ b. b == b'@') (authority rest)
      then unparsed invalid_url
      else parse_handle value

  unfoldable pub parse_url : Option Bytes → ℕ → Bool → ParsedUrl
  parse_url none max_url_size allow_insecure_http = unparsed http_bad_argument
  parse_url (some value) max_url_size allow_insecure_http =
      if length value == 0 || ltb max_url_size (length value)
      then unparsed invalid_url
      else if any bad_octet value
      then unparsed invalid_url
      else parse_rest value (url_scheme value allow_insecure_http)

  pub data UrlHost : Type 0 where
    url_host_ok : Bytes → UrlHost
    url_host_failed : HttpError → UrlHost

  -- `pg_oauth_http_url_host`; its malloc succeeds.
  unfoldable pub http_url_host : Option Bytes → ℕ → Bool → UrlHost
  http_url_host url max_url_size allow_insecure_http =
      elim (parse_url url max_url_size allow_insecure_http) [
        | parsed_url handle host ↦ url_host_ok host
        | unparsed e ↦ url_host_failed e
      ]

  unfoldable pub validate_host : HttpPolicy → Bytes → ParsedUrl → ParsedUrl
  validate_host p allowed (unparsed e) = unparsed e
  validate_host p allowed (parsed_url url host) =
      if not (eq_ignore_case host allowed) && not (host_in_list host p.additional_allowed_hosts)
      then unparsed host_not_allowed
      else parsed_url url host

  -- `allowed` is `policy->allowed_host`, which the caller has found not NULL.
  unfoldable pub validate_request_url : Option Bytes → HttpPolicy → Bytes → ParsedUrl
  validate_request_url value p allowed =
      validate_host p allowed (parse_url value p.max_url_size p.allow_insecure_http)
