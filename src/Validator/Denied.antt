-- ===== src/Validator/Denied.antt =====
-- What a refusal leaves.
use pg_oauth_validator.Identity.Build.{identity_build}
use pg_oauth_validator.Validator.Cases.{
  EnvelopeResult-cases, IdentityResult-cases, ClaimsResult-cases,
}
use pg_oauth_validator.JwtEnvelope.Parse.{Envelope, parse}
use pg_oauth_validator.Claims.Validate.{ValidatedClaims, validate}
use pg_oauth_validator.Json.{Jansson}
use pg_oauth_validator.Base.{none, some, ◌≡◌, Option, Bytes, ◌⊎◌, inr, refl, inl, Option-cases}
use pg_oauth_validator.Validator.Pipeline.{
  KeySource, ValidatorResult, identity_stage, claims_stage, fetched_stage, issuer_stage,
  validate_access_token, ValidatorPolicy, signature_stage, envelope_stage, validator_ok,
}

module _ (J : Jansson) (K : KeySource) where
  -- OK, or nothing that could be taken for an identity.
  abbrev pub Closed : ValidatorResult J K → Type 0
  Closed r = (r.error ≡ validator_ok) ⊎ ((r.identity ≡ none) × (r.expires_at ≡ 0))

  identity_stage-Closed :
      (p : ValidatorPolicy) (d : K.Detail) (c : ValidatedClaims) → Closed (identity_stage J K p d c)
  unfolding identity_stage
  identity_stage-Closed p d c =
      elim (IdentityResult-cases (identity_build (some c.identity) (some p.identity))) [
        | inl (i, e) ↦ rw (e, identity_stage) (inl refl)
        | inr (y, e) ↦ rw (e, identity_stage) (inr (refl, refl))
      ]

  claims_stage-Closed :
      (p : ValidatorPolicy) (d : K.Detail) (e : Envelope J) → Closed (claims_stage J K p d e)
  unfolding claims_stage
  claims_stage-Closed p d e =
      elim (ClaimsResult-cases (validate J (some e.untrusted_payload) (some p.claims))) [
        | inl (c, x) ↦ rw (x, claims_stage) (identity_stage-Closed p d c)
        | inr (y, x) ↦ rw (x, claims_stage) (inr (refl, refl))
      ]

  fetched_stage-Closed :
      (token : Bytes) (p : ValidatorPolicy) (e : Envelope J) (f : K.Detail × (K.KeyError ⊎ K.Key))
      → Closed (fetched_stage J K token p e f)
  unfolding fetched_stage signature_stage
  fetched_stage-Closed token p e (d, inl x) = inr (refl, refl)
  fetched_stage-Closed token p e (d, inr key) = elim (Option-cases (K.verify token key)) [
    | inr (x, v) ↦ rw (v, signature_stage) (inr (refl, refl))
    | inl v ↦ rw (v, signature_stage) (claims_stage-Closed p d e)
  ]

  issuer_stage-Closed :
      (token metadata_url : Bytes) (p : ValidatorPolicy) (o : Option Bytes)
      → Closed (issuer_stage J K token metadata_url p o)
  unfolding issuer_stage envelope_stage
  issuer_stage-Closed token metadata_url p none = inr (refl, refl)
  issuer_stage-Closed token metadata_url p (some issuer) =
      elim (EnvelopeResult-cases (parse J (some token) (some p.envelope))) [
        | inl (e, x) ↦
            rw (x, envelope_stage)
              (fetched_stage-Closed token p e (K.fetch metadata_url issuer e.key_id e.algorithm))
        | inr (y, x) ↦ rw (x, envelope_stage) (inr (refl, refl))
      ]

  -- Whatever goes wrong, and whatever arguments are missing, a result that is not OK carries no
  -- identity and no expiry.
  pub validate_access_token-Closed :
      (token metadata_url : Option Bytes) (p : Option ValidatorPolicy)
      → Closed (validate_access_token J K token metadata_url p)
  unfolding validate_access_token
  validate_access_token-Closed none metadata_url p = inr (refl, refl)
  validate_access_token-Closed (some token) none p = inr (refl, refl)
  validate_access_token-Closed (some token) (some metadata_url) none = inr (refl, refl)
  validate_access_token-Closed (some token) (some metadata_url) (some p) =
      issuer_stage-Closed token metadata_url p p.claims.issuer
