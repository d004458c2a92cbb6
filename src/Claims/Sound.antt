-- ===== src/Claims/Sound.antt =====
-- The checks in their order establish what an accepted payload says.
use pg_oauth_validator.Claims.RolesSound.{validate_requested_role-has}
use pg_oauth_validator.Claims.Audience.{audience_matches}
use pg_oauth_validator.Claims.Roles.{validate_requested_role}
use pg_oauth_validator.Claims.ScopesSound.{check_scopes-has}
use pg_oauth_validator.Claims.AudienceSound.{audience_matches-has}
use pg_oauth_validator.Claims.Scopes.{scope_claim, validate_scopes}
use pg_oauth_validator.Json.{Jansson}
use pg_oauth_validator.Base.{
  none, some, Option, ℕ, Bytes, ◌≡◌, text, true, ◌+◌, ap, arith, Option-cases, inl, inr, magnitude,
  all, split, refl, not, subst, ◌||◌,
}
use pg_oauth_validator.Claims.Policy.{
  has, ClaimsPolicy, valid_identity_string, ClaimsError, bytes_or_empty, invalid_not_before,
  not_yet_valid, invalid_issued_at, issued_in_future, valid_policy, bad_argument, invalid_issuer,
  invalid_audience,
}
use pg_oauth_validator.Claims.Validate.{
  expires, expiry_refused, json_string_equals, check_time, expiry_of, ValidatedClaims, string_at,
  check_payload, Expiry, validate, claims_refused, check_claims, claims_ok,
}
use pg_oauth_validator.Claims.Accepted.{
  Accepted, GoodText, NotAhead, first_none, scopes_at, guarded, guard_none, expiry_of-expires,
  check_time-NotAhead, equals-is, good,
}

module _ (J : Jansson) where
  -- What the checks after the expiry establish.
  checked :
      (payload : J.Json) (p : ClaimsPolicy) (now : ℕ)
      → check_payload J payload p now ≡ none
      → NotAhead J (J.object_get payload (text "nbf")) (now + p.clock_skew_seconds)
        × NotAhead J (J.object_get payload (text "iat")) (now + p.clock_skew_seconds)
        × GoodText (string_at J payload (text "sub")) p.max_subject_size
        × GoodText (string_at J payload (bytes_or_empty p.identity_claim)) p.max_identity_size
        × (validate_scopes J payload (bytes_or_empty p.required_scopes) p.max_scopes ≡ none)
        × (validate_requested_role J payload p ≡ none)
  unfolding check_payload
  checked payload p now h =
      let nbf = J.object_get payload (text "nbf") in
      let iat = J.object_get payload (text "iat") in
      let skew = p.clock_skew_seconds in
      let sub = string_at J payload (text "sub") in
      let identity = string_at J payload (bytes_or_empty p.identity_claim) in
      let h1 = first_none (check_time J nbf now skew invalid_not_before not_yet_valid) _ h in
      let h2 = first_none (check_time J iat now skew invalid_issued_at issued_in_future) _ h1.1 in
      let h3 = guard_none (valid_identity_string sub p.max_subject_size) _ _ h2.1 in
      let h4 = guard_none (valid_identity_string identity p.max_identity_size) _ _ h3.1 in
      let h5 =
        first_none (validate_scopes J payload (bytes_or_empty p.required_scopes) p.max_scopes) _
          h4.1 in
      (
        check_time-NotAhead J nbf now skew _ _ h1.0,
        check_time-NotAhead J iat now skew _ _ h2.0,
        good sub p.max_subject_size h3.0,
        good identity p.max_identity_size h4.0,
        h5.0,
        h5.1,
      )

  settled :
      (x : Expiry) (y : Option ClaimsError) (s : Bytes) {c : ValidatedClaims}
      → elim x [
        | expiry_refused e ↦ claims_refused e
        | expires at ↦ elim y [
          | some e ↦ claims_refused e
          | none ↦ claims_ok (record { identity = s; expires_at = at })
        ]
      ]
        ≡ claims_ok c
      → (x ≡ expires c.expires_at) × (y ≡ none) × (s ≡ c.identity)
  settled (expiry_refused e) y s h = cc
  settled (expires at) none s {c = c} h =
      let v : ValidatedClaims = record { identity = s; expires_at = at } in
      let e : v ≡ c = cc h in (ap (λ x. expires x.expires_at) e, refl, ap (λ x. x.identity) e)
  settled (expires at) (some e) s h = cc

  scopes_granted_lem :
      (payload : J.Json) (required : Bytes) (m : ℕ)
      → validate_scopes J payload required m ≡ none
      → all (has (scopes_at J payload)) (split b' ' required) ≡ true
  unfolding validate_scopes
  scopes_granted_lem payload required m h =
      elim (Option-cases (scope_claim J (J.object_get payload (text "scope")))) [
        | inl e ↦ absurd (cc (rw (e, validate_scopes) at h))
        | inr (claim, e) ↦
            rw (e, scopes_at) (check_scopes-has J claim 0 _ m (rw (e, validate_scopes) at h))
      ]

  identity_lem :
      (v : Option Bytes) (s : Bytes) (m : ℕ)
      → GoodText v m
      → bytes_or_empty v ≡ s
      → (v ≡ some s) × GoodText (some s) m
  identity_lem none s m g e = absurd g
  identity_lem (some t) s m g e = (ap some e, subst (λ x. GoodText (some x) m) e g)

  -- A payload is accepted only if it says what the policy asks for: the configured issuer, a
  -- configured audience, a time of expiry that has not passed by more than the skew, no other time
  -- ahead by more than the skew, a clean subject and identity claim, every required scope, and the
  -- requested role where roles are checked. What is handed on is that identity and that expiry.
  pub validate-Accepted :
      (payload : J.Json) (p : ClaimsPolicy) {c : ValidatedClaims}
      → validate J (some payload) (some p) ≡ claims_ok c
      → Accepted J payload p c
  unfolding validate check_claims
  validate-Accepted payload p {c} h =
      let now = magnitude p.current_time in
      let iss = string_at J payload (text "iss") in
      let aud = J.object_get payload (text "aud") in
      let exp = J.object_get payload (text "exp") in
      let identity = string_at J payload (bytes_or_empty p.identity_claim) in
      let h0 = guarded (not (J.is_object payload) || not (valid_policy p)) bad_argument _ h in
      let h1 =
        guarded (not (json_string_equals iss (bytes_or_empty p.issuer))) invalid_issuer _ h0.1 in
      let h2 =
        guarded (not (audience_matches J aud (bytes_or_empty p.audiences) p.max_audiences))
          invalid_audience _ h1.1 in
      let (x, y, z) =
        settled (expiry_of J exp now p.clock_skew_seconds) (check_payload J payload p now)
          (bytes_or_empty identity) h2.1 in
      let (j, at, int, lt) = expiry_of-expires J exp now p.clock_skew_seconds c.expires_at x in
      let (nbf, iat, sub, ident, scopes, role) = checked payload p now y in
      let (idv, idg) = identity_lem identity c.identity p.max_identity_size ident z in
      record {
        issuer_is = equals-is iss (bytes_or_empty p.issuer) (ground (arith, h1.0));
        audience_is =
            audience_matches-has J aud (bytes_or_empty p.audiences) p.max_audiences
              (ground (arith, h2.0));
        expiry_is = (j, at, int);
        unexpired = lt;
        started = nbf;
        issued = iat;
        subject_good = sub;
        identity_is = idv;
        identity_good = idg;
        scopes_granted =
            scopes_granted_lem payload (bytes_or_empty p.required_scopes) p.max_scopes scopes;
        role_granted = validate_requested_role-has J payload p role;
      }
