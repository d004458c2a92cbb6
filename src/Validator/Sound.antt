-- ===== src/Validator/Sound.antt =====
-- Who is authenticated.
use pg_oauth_validator.Validator.Cases.{
  IdentityResult-cases, ClaimsResult-cases, EnvelopeResult-cases,
}
use pg_oauth_validator.Claims.Sound.{validate-Accepted}
use pg_oauth_validator.JwtEnvelope.Sound.{parse-AcceptedToken}
use pg_oauth_validator.Claims.Accepted.{Accepted}
use pg_oauth_validator.JwtEnvelope.Accepted.{AcceptedToken}
use pg_oauth_validator.JwtEnvelope.Parse.{Envelope, parse}
use pg_oauth_validator.Identity.Build.{identity_build, IdentityPolicy, identity_ok, valid_utf8}
use pg_oauth_validator.Claims.Validate.{ValidatedClaims, validate}
use pg_oauth_validator.Json.{Jansson}
use pg_oauth_validator.Base.{
  none, some, Bytes, ◌≡◌, ◌⊎◌, Option-cases, true, inl, arith, ap, inr, refl, Option,
}
use pg_oauth_validator.Validator.Pipeline.{
  KeySource, identity_stage, claims_stage, fetched_stage, envelope_stage, validate_access_token,
  ValidatorPolicy, signature_stage, ValidatorResult, validator_ok, issuer_stage,
}

identity_build-same :
    (s i : Bytes) (p : IdentityPolicy)
    → identity_build (some s) (some p) ≡ identity_ok i
    → (i ≡ s) × (valid_utf8 s ≡ true)
unfolding identity_build
identity_build-same s i p h = ground arith

module _ (J : Jansson) (K : KeySource) where
  -- The token's envelope, its key, its signature, its payload, and what is handed on.
  pub record Authenticated (token metadata_url : Bytes) (p : ValidatorPolicy)
      (r : ValidatorResult J K) : Type 0 where
    pub issuer : Bytes
    pub issuer_is : p.claims.issuer ≡ some issuer
    pub envelope : Envelope J
    pub token_accepted : AcceptedToken J token p.envelope envelope
    pub detail : K.Detail
    pub key : K.Key
    pub key_fetched :
        K.fetch metadata_url issuer envelope.key_id envelope.algorithm ≡ (detail, inr key)
    pub signed : K.verify token key ≡ none
    pub claims : ValidatedClaims
    pub payload_accepted : Accepted J envelope.untrusted_payload p.claims claims
    pub identity_is : r.identity ≡ some claims.identity
    pub identity_utf8 : valid_utf8 claims.identity ≡ true
    pub expiry_is : r.expires_at ≡ claims.expires_at

  identity_stage-Ok :
      (p : ValidatorPolicy) (d : K.Detail) (c : ValidatedClaims)
      → (identity_stage J K p d c).error ≡ validator_ok
      → ((identity_stage J K p d c).identity ≡ some c.identity)
        × ((identity_stage J K p d c).expires_at ≡ c.expires_at)
        × (valid_utf8 c.identity ≡ true)
  unfolding identity_stage
  identity_stage-Ok p d c h =
      elim (IdentityResult-cases (identity_build (some c.identity) (some p.identity))) [
        | inl (i, e) ↦
            let (same, utf8) = identity_build-same c.identity i p.identity e in
            rw (e, identity_stage) (ap some same, refl, utf8)
        | inr (y, e) ↦ absurd (cc (rw (e, identity_stage) at h))
      ]

  claims_stage-Ok :
      (p : ValidatorPolicy) (d : K.Detail) (e : Envelope J)
      → (claims_stage J K p d e).error ≡ validator_ok
      → (c : ValidatedClaims) × Accepted J e.untrusted_payload p.claims c
        × ((claims_stage J K p d e).identity ≡ some c.identity)
        × ((claims_stage J K p d e).expires_at ≡ c.expires_at)
        × (valid_utf8 c.identity ≡ true)
  unfolding claims_stage
  claims_stage-Ok p d e h =
      elim (ClaimsResult-cases (validate J (some e.untrusted_payload) (some p.claims))) [
        | inl (c, x) ↦
            let t = identity_stage-Ok p d c (rw (x, claims_stage) at h) in
            (
              c,
              validate-Accepted J e.untrusted_payload p.claims x,
              rw (x, claims_stage) t.0,
              rw (x, claims_stage) t.1,
              t.2,
            )
        | inr (y, x) ↦ absurd (cc (rw (x, claims_stage) at h))
      ]

  fetched_stage-Ok :
      (token metadata_url issuer : Bytes) (p : ValidatorPolicy) (e : Envelope J)
      (f : K.Detail × (K.KeyError ⊎ K.Key))
      → p.claims.issuer ≡ some issuer
      → AcceptedToken J token p.envelope e
      → K.fetch metadata_url issuer e.key_id e.algorithm ≡ f
      → (fetched_stage J K token p e f).error ≡ validator_ok
      → Authenticated token metadata_url p (fetched_stage J K token p e f)
  unfolding fetched_stage signature_stage
  fetched_stage-Ok token metadata_url issuer p e (d, inl x) i a f h = absurd (cc h)
  fetched_stage-Ok token metadata_url issuer p e (d, inr key) i a f h =
      elim (Option-cases (K.verify token key)) [
        | inr (x, v) ↦ absurd (cc (rw (v, signature_stage) at h))
        | inl v ↦
            let (c, accepted, identity, expiry, utf8) =
              claims_stage-Ok p d e (rw (v, signature_stage) at h) in
            record {
              issuer = issuer;
              issuer_is = i;
              envelope = e;
              token_accepted = a;
              detail = d;
              key = key;
              key_fetched = f;
              signed = v;
              claims = c;
              payload_accepted = accepted;
              identity_is = rw (v, signature_stage) identity;
              identity_utf8 = utf8;
              expiry_is = rw (v, signature_stage) expiry;
            }
      ]

  envelope_stage-Ok :
      (token metadata_url issuer : Bytes) (p : ValidatorPolicy)
      → p.claims.issuer ≡ some issuer
      → (envelope_stage J K token metadata_url issuer p).error ≡ validator_ok
      → Authenticated token metadata_url p (envelope_stage J K token metadata_url issuer p)
  unfolding envelope_stage
  envelope_stage-Ok token metadata_url issuer p i h =
      elim (EnvelopeResult-cases (parse J (some token) (some p.envelope))) [
        | inr (y, x) ↦ absurd (cc (rw (x, envelope_stage) at h))
        | inl (e, x) ↦
            rw (x, envelope_stage)
              (fetched_stage-Ok token metadata_url issuer p e
                (K.fetch metadata_url issuer e.key_id e.algorithm) i
                (parse-AcceptedToken J token p.envelope x) refl (rw (x, envelope_stage) at h))
      ]

  issuer_stage-Ok :
      (token metadata_url : Bytes) (p : ValidatorPolicy) (o : Option Bytes)
      → p.claims.issuer ≡ o
      → (issuer_stage J K token metadata_url p o).error ≡ validator_ok
      → Authenticated token metadata_url p (issuer_stage J K token metadata_url p o)
  unfolding issuer_stage
  issuer_stage-Ok token metadata_url p none i h = absurd (cc h)
  issuer_stage-Ok token metadata_url p (some issuer) i h =
      envelope_stage-Ok token metadata_url issuer p i h

  -- The validator answers OK only for a token whose envelope is accepted, whose signature verifies
  -- under the key that was fetched for the configured issuer and the token's own key id and
  -- algorithm, whose payload is accepted, and whose identity is UTF-8; and then the identity and the
  -- expiry in the result are those of the payload.
  pub validate_access_token-Authenticated :
      (token metadata_url : Bytes) (p : ValidatorPolicy)
      → (validate_access_token J K (some token) (some metadata_url) (some p)).error ≡ validator_ok
      → Authenticated token metadata_url p
          (validate_access_token J K (some token) (some metadata_url) (some p))
  unfolding validate_access_token
  validate_access_token-Authenticated token metadata_url p h =
      issuer_stage-Ok token metadata_url p p.claims.issuer refl h
