-- ===== src/Url/Parts.antt =====
-- The parts of a URL, and the URL interface of libcurl.
use pg_oauth_validator.Base.{
  [], ◌∷◌, none, some, ℕ, Bool, Option, Bytes, ◌==◌, if◌then◌else◌, ◌||◌, false, is_empty, is_none,
  leb, not, text,
}

-- `curl_url_set(url, CURLUPART_URL, value, 0)` on a new handle, and what `curl_url_get` gives: `none`
-- for any result but CURLUE_OK, and for a NULL host.
pub record CurlUrl : Type 1 where
  pub Handle : Type 0
  pub url_set : Bytes → Option Handle
  pub host : Handle → Option Bytes
  pub user : Handle → Option Bytes
  pub password : Handle → Option Bytes
  pub fragment : Handle → Option Bytes

-- `byte <= 0x20 || byte >= 0x7f || byte == '\\'`
unfoldable pub bad_octet : ℕ → Bool
bad_octet b = leb b 32 || leb 127 b || b == 92

-- What is left behind a prefix: `memcmp(value, prefix, strlen(prefix)) == 0`, and `value +
-- strlen(prefix)`.
unfoldable pub strip : Bytes → Bytes → Option Bytes
strip [] bs = some bs
strip (p ∷ ps) [] = none
strip (p ∷ ps) (b ∷ bs) = if p == b then strip ps bs else none

-- `length > strlen(prefix)` too.
unfoldable pub strip_proper : Bytes → Bytes → Option Bytes
strip_proper prefix value = elim (strip prefix value) [
  | none ↦ none
  | some [] ↦ none
  | some (b ∷ bs) ↦ some (b ∷ bs)
]

abbrev pub ends_authority : ℕ → Bool
ends_authority b = b == b'/' || b == b'?' || b == b'#'

-- The first `strcspn(rest, "/?#")` bytes.
unfoldable pub authority : Bytes → Bytes
authority [] = []
authority (b ∷ bs) = if ends_authority b then [] else b ∷ authority bs

-- What stands behind the scheme.
pub data UrlScheme : Type 0 where
  behind_scheme : Bytes → UrlScheme
  unknown_scheme insecure_scheme : UrlScheme

-- `https`, `http` and `scheme_length`
unfoldable pub url_scheme : Bytes → Bool → UrlScheme
url_scheme value allow_http = elim (strip_proper (text "https://") value) [
  | some rest ↦ behind_scheme rest
  | none ↦ elim (strip_proper (text "http://") value) [
    | none ↦ unknown_scheme
    | some rest ↦ if not allow_http then insecure_scheme else behind_scheme rest
  ]
]

module _ (curl : CurlUrl) where
  abbrev pub named : Option Bytes → Bool
  named none = false
  named (some host) = not (is_empty host)

  -- The handle of a URL with a host and with no user, password or fragment.
  unfoldable pub bad_handle : curl.Handle → Bool
  bad_handle url =
      not (named (curl.host url))
      || not (is_none (curl.user url))
      || not (is_none (curl.password url))
      || not (is_none (curl.fragment url))
