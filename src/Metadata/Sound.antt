-- ===== src/Metadata/Sound.antt =====
-- What an accepted discovery document says.
use pg_oauth_validator.Json.{Jansson}
use pg_oauth_validator.Url.Clean.{
  CleanUrl, any_bad-Printable, nonempty, UrlScheme-cases, is_none-none, url_scheme-Behind,
}
use pg_oauth_validator.Metadata.Parse.{
  Metadata, parsed, refused, MetadataError, MetadataPolicy, metadata_parse, parse_for,
  parse_document, check_members, check_uri, string_member, validate_url, validate_rest,
  validate_handle, valid_url_octets, metadata_bad_argument, metadata_empty, metadata_too_large,
  metadata_invalid_json, issuer_mismatch, invalid_jwks_uri,
}
use pg_oauth_validator.Url.Parts.{CurlUrl, authority, bad_handle, url_scheme}
use pg_oauth_validator.Base.{
  [], none, some, Bytes, Bool, Option, is_empty, if◌then◌else◌, ◌≡◌, ℕ, false, Option-cases, ◌≢◌,
  true, ◌&&◌, ◌<◌, not, ◌==◌, text, inl, any, length, inr, bytes_eq, ◌||◌, refl, arith, ltb, ◌≤◌,
  ap, subst, eq_of_bytes_eq,
}

module _ (curl : CurlUrl) where
  refusing :
      (bad : Bool) (e : MetadataError) (y : Option MetadataError)
      → (if bad then some e else y) ≡ none
      → (bad ≡ false) × (y ≡ none)
  refusing true e y h = absurd (cc h)
  refusing false e y h = (refl, h)

  Parsed : Bytes → Type 0
  Parsed value =
      (url : curl.Handle) × (host : Bytes) × (curl.url_set value ≡ some url)
      × (curl.host url ≡ some host)
      × (host ≢ [])
      × (curl.user url ≡ none)
      × (curl.password url ≡ none)
      × (curl.fragment url ≡ none)

  validate_handle-Parsed : (value : Bytes) → validate_handle curl value ≡ none → Parsed value
  unfolding validate_handle Parsed bad_handle
  validate_handle-Parsed value h = elim (Option-cases (curl.url_set value)) [
    | inl e ↦ absurd (cc (rw (e, validate_handle) at h))
    | inr (url, e) ↦
        let g =
          refusing (bad_handle curl url) invalid_jwks_uri none (rw (e, validate_handle) at h) in
        elim (Option-cases (curl.host url)) [
          | inl eh ↦ absurd (cc (rw (eh, bad_handle) at g.0))
          | inr (host, eh) ↦
              let bad = rw (eh, bad_handle) at g.0 in
              (
                url,
                host,
                e,
                eh,
                nonempty host (ground (arith, bad)),
                is_none-none _ (ground (arith, bad)),
                is_none-none _ (ground (arith, bad)),
                is_none-none _ (ground (arith, bad)),
              )
        ]
  ]

  -- What `validate_url` lets pass.
  pub validate_url-CleanUrl :
      (value : Bytes) (maximum : ℕ) (allow_http issuer : Bool)
      → validate_url curl value maximum allow_http issuer ≡ none
      → CleanUrl curl allow_http maximum value × ((issuer && any (λ b. b == b'?') value) ≡ false)
  unfolding validate_url validate_rest valid_url_octets Parsed
  validate_url-CleanUrl value maximum allow_http issuer h =
      let h1 =
        refusing
          (length value == 0
            || ltb maximum (length value)
            || not (valid_url_octets value)
            || any (λ b. b == b'#') value)
          invalid_jwks_uri _ h in
      elim (UrlScheme-cases (url_scheme value allow_http)) [
        | inr (inl s) ↦ absurd (cc (rw (s, validate_rest) at h1.1))
        | inr (inr s) ↦ absurd (cc (rw (s, validate_rest) at h1.1))
        | inl (rest, s) ↦
            let h2 =
              refusing (is_empty (authority rest) || any (λ b. b == b'@') (authority rest))
                invalid_jwks_uri _ (rw (s, validate_rest) at h1.1) in
            let h3 = refusing (issuer && any (λ b. b == b'?') value) invalid_jwks_uri _ h2.1 in
            let (scheme, is_scheme, whole) = url_scheme-Behind value allow_http rest s in
            let (url, host, set, at, some_host, u, p, f) = validate_handle-Parsed value h3.1 in
            (
              record {
                bounded = (ground (arith, h1.0), ground (arith, h1.0));
                printable = any_bad-Printable value (ground (arith, h1.0));
                no_fragment = ground (arith, h1.0);
                scheme = scheme;
                rest = rest;
                scheme_is = is_scheme;
                value_is = whole;
                has_authority = nonempty _ (ground (arith, h2.0));
                no_user_info = ground (arith, h2.0);
                handle = url;
                host = host;
                parsed = set;
                host_is = (at, some_host);
                parts = (u, p, f);
              },
              h3.0,
            )
      ]

module _ (J : Jansson) (curl : CurlUrl) where
  pub record Discovered (document expected : Bytes) (p : MetadataPolicy) (uri : Bytes)
      : Type 0 where
    pub root : J.Json
    pub document_is : J.loadb document ≡ some root
    pub size : (0 < length document) × (length document ≤ p.max_document_size)
    pub is_object : J.is_object root ≡ true
    pub issuer_is : string_member J curl root (text "issuer") ≡ some expected
    pub uri_is : string_member J curl root (text "jwks_uri") ≡ some uri
    pub issuer_clean : CleanUrl curl p.allow_insecure_http p.max_url_size expected
    pub issuer_no_query : any (λ b. b == b'?') expected ≡ false
    pub uri_clean : CleanUrl curl p.allow_insecure_http p.max_url_size uri

  refusing_document :
      (bad : Bool) (e : MetadataError) (y : Metadata) {uri : Bytes}
      → (if bad then refused e else y) ≡ parsed uri
      → (bad ≡ false) × (y ≡ parsed uri)
  refusing_document true e y h = absurd (cc h)
  refusing_document false e y h = (refl, h)

  check_uri_lem :
      (p : MetadataPolicy) (o : Option Bytes) (uri : Bytes)
      → check_uri J curl p o ≡ parsed uri
      → (o ≡ some uri) × CleanUrl curl p.allow_insecure_http p.max_url_size uri
  unfolding check_uri
  check_uri_lem p none uri h = absurd (cc h)
  check_uri_lem p (some u) uri h =
      elim (Option-cases (validate_url curl u p.max_url_size p.allow_insecure_http false)) [
        | inr (e, v) ↦ absurd (cc (rw (v, check_uri) at h))
        | inl v ↦
            let same : u ≡ uri = cc (rw (v, check_uri) at h) in
            (
              ap some same,
              subst (CleanUrl curl p.allow_insecure_http p.max_url_size) same
                  (validate_url-CleanUrl curl u p.max_url_size p.allow_insecure_http false v).0,
            )
      ]

  check_members_lem :
      (expected : Bytes) (p : MetadataPolicy) (i o : Option Bytes) (uri : Bytes)
      → check_members J curl expected p i o ≡ parsed uri
      → (i ≡ some expected)
        × (o ≡ some uri)
        × CleanUrl curl p.allow_insecure_http p.max_url_size uri
  unfolding check_members
  check_members_lem expected p none o uri h = absurd (cc h)
  check_members_lem expected p (some i) o uri h =
      let h1 = refusing_document (not (bytes_eq i expected)) issuer_mismatch _ h in
      let (e, clean) = check_uri_lem p o uri h1.1 in
      (ap some (eq_of_bytes_eq i expected (ground (arith, h1.0))), e, clean)

  -- A discovery document is accepted only if it is an object within the size limit that names the
  -- expected issuer byte by byte, the issuer is a clean URL with no query, and its jwks_uri, which is
  -- the result, is a clean URL too: https, or http where the administrator allows it, printable,
  -- within the limit, with an authority and a host, and with no user, password or fragment.
  pub metadata_parse-Discovered :
      (document expected : Bytes) (p : MetadataPolicy) {uri : Bytes}
      → metadata_parse J curl (some document) (some expected) (some p) ≡ parsed uri
      → Discovered document expected p uri
  unfolding metadata_parse parse_for parse_document
  metadata_parse-Discovered document expected p {uri} h =
      let h1 =
        refusing_document (p.max_document_size == 0 || p.max_url_size == 0) metadata_bad_argument _
          h in
      let h2 = refusing_document (length document == 0) metadata_empty _ h1.1 in
      let h3 =
        refusing_document (ltb p.max_document_size (length document)) metadata_too_large _ h2.1 in
      elim (Option-cases (validate_url curl expected p.max_url_size p.allow_insecure_http true)) [
        | inr (e, v) ↦ absurd (cc (rw (v, parse_for) at h3.1))
        | inl v ↦ elim (Option-cases (J.loadb document)) [
          | inl l ↦ absurd (cc (rw (v, l, parse_for, parse_document) at h3.1))
          | inr (root, l) ↦
              let h4 =
                refusing_document (not (J.is_object root)) metadata_invalid_json _
                  (rw (v, l, parse_for, parse_document) at h3.1) in
              let (i, u, clean) = check_members_lem expected p _ _ uri h4.1 in
              let (issuer_clean, no_query) =
                validate_url-CleanUrl curl expected p.max_url_size p.allow_insecure_http true v in
              record {
                root = root;
                document_is = l;
                size = (ground (arith, h2.0), ground (arith, h3.0));
                is_object = ground (arith, h4.0);
                issuer_is = i;
                uri_is = u;
                issuer_clean = issuer_clean;
                issuer_no_query = no_query;
                uri_clean = clean;
              }
        ]
      ]
