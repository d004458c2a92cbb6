-- ===== src/Validator/Pipeline.antt =====
-- `pg_oauth_validate_access_token_cached`. The issuer key stage and the signature stage come in by
-- an interface; envelope, claims and identity are those of their modules.
use pg_oauth_validator.Identity.Build.{
  IdentityPolicy, IdentityError, identity_build, identity_refused, identity_ok,
}
use pg_oauth_validator.Claims.Validate.{ValidatedClaims, validate, claims_refused, claims_ok}
use pg_oauth_validator.Claims.Policy.{ClaimsPolicy, ClaimsError}
use pg_oauth_validator.Json.{Jansson}
use pg_oauth_validator.JwtEnvelope.Parse.{
  EnvelopePolicy, EnvelopeError, Envelope, parse, envelope_refused, envelope_ok,
}
use pg_oauth_validator.Base.{none, some, Bytes, ℕ, ◌⊎◌, Option, inl, inr}

-- `fetch` is pg_oauth_issuer_key_fetch_cached for one configuration of the cache and the clock, on the
-- metadata URL, the configured issuer, and the key id and algorithm of the token. `verify` is
-- pg_oauth_signature_verify. A result's `none` is the code OK.
pub record KeySource : Type 1 where
  pub Key : Type 0
  pub KeyError : Type 0
  pub SignatureError : Type 0
  -- the errors of the transport, the metadata and the key set that go with a fetch
  pub Detail : Type 0
  pub no_detail : Detail
  pub fetch : Bytes → Bytes → Bytes → ℕ → Detail × (KeyError ⊎ Key)
  pub verify : Bytes → Key → Option SignatureError

pub data ValidatorError : Type 0 where
  validator_ok validator_bad_argument validator_envelope validator_issuer_key : ValidatorError
  validator_signature validator_claims validator_identity : ValidatorError

pub record ValidatorPolicy : Type 0 where
  pub envelope : EnvelopePolicy
  pub claims : ClaimsPolicy
  pub identity : IdentityPolicy

module _ (J : Jansson) (K : KeySource) where
  pub record ValidatorResult : Type 0 where
    pub error : ValidatorError
    pub identity : Option Bytes
    pub expires_at : ℕ
    pub envelope_error : Option EnvelopeError
    pub issuer_key_error : Option K.KeyError
    pub detail : K.Detail
    pub signature_error : Option K.SignatureError
    pub claims_error : Option ClaimsError
    pub identity_error : Option IdentityError

  -- `memset(result, 0, sizeof(*result))`, with the code to return
  abbrev pub refused_with : ValidatorError → ValidatorResult
  refused_with e = record {
    error = e;
    identity = none;
    expires_at = 0;
    envelope_error = none;
    issuer_key_error = none;
    detail = K.no_detail;
    signature_error = none;
    claims_error = none;
    identity_error = none;
  }

  -- the identity stage, with what the fetch left in the result
  unfoldable pub identity_stage : ValidatorPolicy → K.Detail → ValidatedClaims → ValidatorResult
  identity_stage p d c = elim (identity_build (some c.identity) (some p.identity)) [
    | identity_refused e ↦ record (refused_with validator_identity) {
      detail = d;
      identity_error = some e;
    }
    | identity_ok i ↦ record (refused_with validator_ok) {
      detail = d;
      identity = some i;
      expires_at = c.expires_at;
    }
  ]

  unfoldable pub claims_stage : ValidatorPolicy → K.Detail → Envelope J → ValidatorResult
  claims_stage p d e = elim (validate J (some e.untrusted_payload) (some p.claims)) [
    | claims_refused x ↦ record (refused_with validator_claims) {
      detail = d;
      claims_error = some x;
    }
    | claims_ok c ↦ identity_stage p d c
  ]

  unfoldable pub signature_stage :
      Bytes → ValidatorPolicy → K.Detail → Envelope J → K.Key → ValidatorResult
  signature_stage token p d e key = elim (K.verify token key) [
    | some x ↦ record (refused_with validator_signature) { detail = d; signature_error = some x }
    | none ↦ claims_stage p d e
  ]

  unfoldable pub fetched_stage :
      Bytes → ValidatorPolicy → Envelope J → K.Detail × (K.KeyError ⊎ K.Key) → ValidatorResult
  fetched_stage token p e (d, inl x) = record (refused_with validator_issuer_key) {
    detail = d;
    issuer_key_error = some x;
  }
  fetched_stage token p e (d, inr key) = signature_stage token p d e key

  unfoldable pub envelope_stage : Bytes → Bytes → Bytes → ValidatorPolicy → ValidatorResult
  envelope_stage token metadata_url issuer p = elim (parse J (some token) (some p.envelope)) [
    | envelope_refused x ↦ record (refused_with validator_envelope) { envelope_error = some x }
    | envelope_ok e ↦ fetched_stage token p e (K.fetch metadata_url issuer e.key_id e.algorithm)
  ]

  -- on `policy->claims.issuer`
  unfoldable pub issuer_stage : Bytes → Bytes → ValidatorPolicy → Option Bytes → ValidatorResult
  issuer_stage token metadata_url p none = refused_with validator_bad_argument
  issuer_stage token metadata_url p (some issuer) = envelope_stage token metadata_url issuer p

  unfoldable pub validate_access_token :
      Option Bytes → Option Bytes → Option ValidatorPolicy → ValidatorResult
  validate_access_token none metadata_url p = refused_with validator_bad_argument
  validate_access_token (some token) none p = refused_with validator_bad_argument
  validate_access_token (some token) (some metadata_url) none = refused_with validator_bad_argument
  validate_access_token (some token) (some metadata_url) (some p) =
      issuer_stage token metadata_url p p.claims.issuer
