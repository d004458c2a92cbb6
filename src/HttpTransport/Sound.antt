-- ===== src/HttpTransport/Sound.antt =====
-- What a response that is handed on has been through.
use pg_oauth_validator.Url.Parts.{CurlUrl, url_scheme, bad_octet, authority}
use pg_oauth_validator.Url.Clean.{
  CleanUrl, any_bad-Printable, nonempty, is_none-none, url_scheme-Behind, UrlScheme-cases,
}
use pg_oauth_validator.HttpTransport.Request.{
  HttpPolicy, HttpError, ParsedUrl, parsed_url, unparsed, parse_url, parse_rest, parse_handle,
  parse_host, validate_request_url, validate_host, host_in_list, invalid_url, host_not_allowed,
}
use pg_oauth_validator.Base.{
  [], none, some, true, false, Bool, Option, Bytes, if◌then◌else◌, ◌≡◌, ◌≢◌, is_empty, refl, ◌||◌,
  not, is_none, ap, arith, subst, Option-cases, ℕ, eq_ignore_case, ◌⊎◌, inr, inl, length, ◌==◌,
  ◌&&◌, ltb, ◌∙◌, any,
}

module _ (curl : CurlUrl) where
  refusing :
      (bad : Bool) (e : HttpError) (y : ParsedUrl curl) {u : curl.Handle} {host : Bytes}
      → (if bad then unparsed e else y) ≡ parsed_url u host
      → (bad ≡ false) × (y ≡ parsed_url u host)
  refusing true e y h = absurd (cc h)
  refusing false e y h = (refl, h)

  Parsed : curl.Handle → Option Bytes → curl.Handle → Bytes → Type 0
  Parsed u o url host =
      (u ≡ url)
      × (o ≡ some host)
      × (host ≢ [])
      × (curl.user u ≡ none)
      × (curl.password u ≡ none)
      × (curl.fragment u ≡ none)

  parse_host-Parsed :
      (u : curl.Handle) (o : Option Bytes) (url : curl.Handle) (host : Bytes)
      → parse_host curl u o ≡ parsed_url url host
      → Parsed u o url host
  unfolding parse_host Parsed
  parse_host-Parsed u none url host h = absurd (cc h)
  parse_host-Parsed u (some hst) url host h =
      let g =
        refusing
          (is_empty hst
            || not (is_none (curl.user u))
            || not (is_none (curl.password u))
            || not (is_none (curl.fragment u)))
          invalid_url _ h in
      let bad = g.0 in
      let some_host : hst ≢ [] = nonempty hst (ground (arith, bad)) in
      let same : hst ≡ host = cc g.1 in
      let handle : u ≡ url = cc g.1 in
      (
        handle,
        ap some same,
        subst (λ z. z ≢ []) same some_host,
        is_none-none _ (ground (arith, bad)),
        is_none-none _ (ground (arith, bad)),
        is_none-none _ (ground (arith, bad)),
      )

  parse_handle-Parsed :
      (value : Bytes) (url : curl.Handle) (host : Bytes)
      → parse_handle curl value ≡ parsed_url url host
      → (u : curl.Handle) × (curl.url_set value ≡ some u) × Parsed u (curl.host u) url host
  unfolding parse_handle
  parse_handle-Parsed value url host h = elim (Option-cases (curl.url_set value)) [
    | inl e ↦ absurd (cc (rw (e, parse_handle) at h))
    | inr (u, e) ↦ (u, e, parse_host-Parsed u (curl.host u) url host (rw (e, parse_handle) at h))
  ]

  -- A URL that is parsed is clean, and the host that comes with it is the one that libcurl reads.
  pub parse_url-CleanUrl :
      (value : Bytes) (maximum : ℕ) (allow_http : Bool) {url : curl.Handle} {host : Bytes}
      → parse_url curl (some value) maximum allow_http ≡ parsed_url url host
      → CleanUrl curl allow_http maximum value
        × (curl.url_set value ≡ some url)
        × (curl.host url ≡ some host)
  unfolding parse_url parse_rest Parsed
  parse_url-CleanUrl value maximum allow_http {url} {host} h =
      let h1 = refusing (length value == 0 || ltb maximum (length value)) invalid_url _ h in
      let h2 = refusing (any bad_octet value) invalid_url _ h1.1 in
      elim (UrlScheme-cases (url_scheme value allow_http)) [
        | inr (inl s) ↦ absurd (cc (rw (s, parse_rest) at h2.1))
        | inr (inr s) ↦ absurd (cc (rw (s, parse_rest) at h2.1))
        | inl (rest, s) ↦
            let h3 =
              refusing
                (is_empty (authority rest)
                  || any (λ b. b == b'#') value
                  || any (λ b. b == b'@') (authority rest))
                invalid_url _ (rw (s, parse_rest) at h2.1) in
            let (scheme, is_scheme, whole) = url_scheme-Behind value allow_http rest s in
            let (u, set, (same, at, some_host, no_user, no_password, no_part)) =
              parse_handle-Parsed value url host h3.1 in
            (
              record {
                bounded = (ground (arith, h1.0), ground (arith, h1.0));
                printable = any_bad-Printable value h2.0;
                no_fragment = ground (arith, h3.0);
                scheme = scheme;
                rest = rest;
                scheme_is = is_scheme;
                value_is = whole;
                has_authority = nonempty _ (ground (arith, h3.0));
                no_user_info = ground (arith, h3.0);
                handle = u;
                host = host;
                parsed = set;
                host_is = (at, some_host);
                parts = (no_user, no_password, no_part);
              },
              set ∙ ap some same,
              subst (λ v. curl.host v ≡ some host) same at,
            )
      ]

  -- The host is the configured one or an additional one, without regard to case.
  abbrev pub HostAllowed : HttpPolicy → Bytes → Bytes → Type 0
  HostAllowed p allowed host =
      (eq_ignore_case host allowed ≡ true) ⊎ (host_in_list host p.additional_allowed_hosts ≡ true)

  pub record Requested (p : HttpPolicy) (url : Bytes) (handle : curl.Handle) : Type 0 where
    pub allowed : Bytes
    pub allowed_is : p.allowed_host ≡ some allowed
    pub clean : CleanUrl curl p.allow_insecure_http p.max_url_size url
    pub handle_is : curl.url_set url ≡ some handle
    pub host : Bytes
    pub host_is : curl.host handle ≡ some host
    pub host_allowed : HostAllowed p allowed host

  pub ParsedUrl-cases :
      (u : ParsedUrl curl)
      → ((url : curl.Handle) × (host : Bytes) × (u ≡ parsed_url url host))
        ⊎ ((e : HttpError) × (u ≡ unparsed e))
  ParsedUrl-cases (parsed_url url host) = inl (url, host, refl)
  ParsedUrl-cases (unparsed e) = inr (e, refl)

  pub validate_request_url-Requested :
      (p : HttpPolicy) (url allowed : Bytes) {handle : curl.Handle} {host : Bytes}
      → p.allowed_host ≡ some allowed
      → validate_request_url curl (some url) p allowed ≡ parsed_url handle host
      → Requested p url handle
  unfolding validate_request_url validate_host
  validate_request_url-Requested p url allowed {handle} {host} a h =
      elim (ParsedUrl-cases (parse_url curl (some url) p.max_url_size p.allow_insecure_http)) [
        | inr (e, u) ↦ absurd (cc (rw (u, validate_host) at h))
        | inl (handle', host', u) ↦
            let g =
              refusing
                (not (eq_ignore_case host' allowed)
                  && not (host_in_list host' p.additional_allowed_hosts))
                host_not_allowed _ (rw (u, validate_host) at h) in
            let (clean, set, at) = parse_url-CleanUrl url p.max_url_size p.allow_insecure_http u in
            let same : handle' ≡ handle = cc g.1 in
            let fine : HostAllowed p allowed host' = ground (arith, g.0) in
            record {
              allowed = allowed;
              allowed_is = a;
              clean = clean;
              handle_is = set ∙ ap some same;
              host = host';
              host_is = subst (λ v. curl.host v ≡ some host') same at;
              host_allowed = fine;
            }
      ]
