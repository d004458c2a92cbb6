-- ===== src/Validator/Cases.antt =====
-- The results of the stages, by cases.
use pg_oauth_validator.Claims.Policy.{ClaimsError}
use pg_oauth_validator.JwtEnvelope.Parse.{
  EnvelopeResult, Envelope, envelope_ok, EnvelopeError, envelope_refused,
}
use pg_oauth_validator.Identity.Build.{IdentityResult, identity_ok, IdentityError, identity_refused}
use pg_oauth_validator.Claims.Validate.{ClaimsResult, ValidatedClaims, claims_ok, claims_refused}
use pg_oauth_validator.Json.{Jansson}
use pg_oauth_validator.Base.{Bytes, ◌≡◌, ◌⊎◌, inl, inr, refl}

pub EnvelopeResult-cases :
    {J : Jansson} (x : EnvelopeResult J)
    → ((e : Envelope J) × (x ≡ envelope_ok e)) ⊎ ((y : EnvelopeError) × (x ≡ envelope_refused y))
EnvelopeResult-cases (envelope_ok e) = inl (e, refl)
EnvelopeResult-cases (envelope_refused y) = inr (y, refl)

pub ClaimsResult-cases :
    (x : ClaimsResult)
    → ((c : ValidatedClaims) × (x ≡ claims_ok c)) ⊎ ((y : ClaimsError) × (x ≡ claims_refused y))
ClaimsResult-cases (claims_ok c) = inl (c, refl)
ClaimsResult-cases (claims_refused y) = inr (y, refl)

pub IdentityResult-cases :
    (x : IdentityResult)
    → ((i : Bytes) × (x ≡ identity_ok i)) ⊎ ((y : IdentityError) × (x ≡ identity_refused y))
IdentityResult-cases (identity_ok i) = inl (i, refl)
IdentityResult-cases (identity_refused y) = inr (y, refl)
