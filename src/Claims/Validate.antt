-- ===== src/Claims/Validate.antt =====
-- `pg_oauth_claims_validate`.
use pg_oauth_validator.Claims.Roles.{validate_requested_role}
use pg_oauth_validator.Claims.Audience.{audience_matches}
use pg_oauth_validator.Claims.Scopes.{validate_scopes}
use pg_oauth_validator.Json.{Jansson}
use pg_oauth_validator.Base.{
  Bytes, ℕ, Bool, ltb, leb, ◌&&◌, ◌-◌, Option, false, some, text, magnitude, bytes_eq,
  if◌then◌else◌, not, ◌||◌, none, negsuc, pos, ◌==◌,
}
use pg_oauth_validator.Claims.Policy.{
  ClaimsError, ClaimsPolicy, missing_expiry, bad_argument, invalid_not_before, not_yet_valid,
  invalid_issued_at, bytes_or_empty, issued_in_future, invalid_issuer, valid_policy,
  valid_identity_string, invalid_subject, invalid_identity, invalid_expiry, invalid_audience,
  expired,
}

pub record ValidatedClaims : Type 0 where
  pub identity : Bytes
  pub expires_at : ℕ

pub data ClaimsResult : Type 0 where
  claims_ok : ValidatedClaims → ClaimsResult
  claims_refused : ClaimsError → ClaimsResult

-- The difference of a time in the future and the current one is above the skew.
abbrev pub beyond_skew : ℕ → ℕ → ℕ → Bool
beyond_skew time now skew = ltb now time && ltb skew (time - now)

abbrev pub past_skew : ℕ → ℕ → ℕ → Bool
past_skew time now skew = leb time now && leb skew (now - time)

unfoldable pub json_string_equals : Option Bytes → Bytes → Bool
json_string_equals none expected = false
json_string_equals (some s) expected = bytes_eq s expected

pub data Expiry : Type 0 where
  expires : ℕ → Expiry
  expiry_refused : ClaimsError → Expiry

module _ (J : Jansson) where
  abbrev pub string_at : J.Json → Bytes → Option Bytes
  string_at payload name = elim (J.object_get payload name) [ none ↦ none | some j ↦ J.string_of j ]

  unfoldable pub expiry_of : Option J.Json → ℕ → ℕ → Expiry
  expiry_of none now skew = expiry_refused missing_expiry
  expiry_of (some j) now skew = elim (J.integer_of j) [
    | none ↦ expiry_refused invalid_expiry
    | some (negsuc n) ↦ expiry_refused invalid_expiry
    | some (pos n) ↦
        if n == 0
        then expiry_refused invalid_expiry
        else if past_skew n now skew
        then expiry_refused expired
        else expires n
  ]

  -- `nbf` and `iat`, with the two errors of each; `none` goes on.
  unfoldable pub check_time : Option J.Json → ℕ → ℕ → ClaimsError → ClaimsError → Option ClaimsError
  check_time none now skew invalid early = none
  check_time (some j) now skew invalid early = elim (J.integer_of j) [
    | none ↦ some invalid
    | some (negsuc n) ↦ some invalid
    | some (pos n) ↦ if beyond_skew n now skew then some early else none
  ]

  -- the checks after the expiry, in their order
  unfoldable pub check_payload : J.Json → ClaimsPolicy → ℕ → Option ClaimsError
  check_payload payload p now =
      elim (check_time (J.object_get payload (text "nbf")) now p.clock_skew_seconds
        invalid_not_before not_yet_valid) [
          | some e ↦ some e
          | none ↦
              elim (check_time (J.object_get payload (text "iat")) now p.clock_skew_seconds
                invalid_issued_at issued_in_future) [
                  | some e ↦ some e
                  | none ↦
                      if not
                        (valid_identity_string (string_at payload (text "sub")) p.max_subject_size)
                      then some invalid_subject
                      else if not (
                          valid_identity_string
                            (string_at payload (bytes_or_empty p.identity_claim))
                            p.max_identity_size)
                      then some invalid_identity
                      else elim (validate_scopes J payload (bytes_or_empty p.required_scopes)
                          p.max_scopes) [
                            | some e ↦ some e
                            | none ↦ validate_requested_role J payload p
                          ]
                ]
        ]

  unfoldable pub check_claims : J.Json → ClaimsPolicy → ClaimsResult
  check_claims payload p =
      let now = magnitude p.current_time in
      if not (json_string_equals (string_at payload (text "iss")) (bytes_or_empty p.issuer))
      then claims_refused invalid_issuer
      else if not (
          audience_matches J (J.object_get payload (text "aud")) (bytes_or_empty p.audiences)
            p.max_audiences)
      then claims_refused invalid_audience
      else elim (expiry_of (J.object_get payload (text "exp")) now p.clock_skew_seconds) [
        | expiry_refused e ↦ claims_refused e
        | expires at ↦ elim (check_payload payload p now) [
          | some e ↦ claims_refused e
          | none ↦ claims_ok (record {
            identity = bytes_or_empty (string_at payload (bytes_or_empty p.identity_claim));
            expires_at = at;
          })
        ]
      ]

  unfoldable pub validate : Option J.Json → Option ClaimsPolicy → ClaimsResult
  validate none p = claims_refused bad_argument
  validate (some payload) none = claims_refused bad_argument
  validate (some payload) (some p) =
      if not (J.is_object payload) || not (valid_policy p)
      then claims_refused bad_argument
      else check_claims payload p
