-- ===== src/Signature/Verify.antt =====
-- `pg_oauth_signature_verify`.
use pg_oauth_validator.Json.{Jansson}
use pg_oauth_validator.JwtEnvelope.Parse.{rs256, es256, eddsa}
use pg_oauth_validator.Base.{
  none, some, ℕ, Bool, Option, Bytes, ◌==◌, if◌then◌else◌, ◌||◌, not, length, any, uint64_max,
}

pub data SignatureError : Type 0 where
  signature_bad_argument key_serialization_failed key_import_failed verifier_failed : SignatureError
  signature_invalid : SignatureError

pub data JwtAlgorithm : Type 0 where
  jwt_rs256 jwt_es256 jwt_eddsa : JwtAlgorithm

-- JWT_CLAIM_EXP and JWT_CLAIM_NBF
pub data TimeClaim : Type 0 where
  exp nbf : TimeClaim

-- What the code calls of libjwt, and `json_dumps` of Jansson. A checker that a call changes is
-- returned, and a call that fails returns none. `disable_leeway` is jwt_checker_time_leeway with -1.
pub record Libjwt (J : Jansson) : Type 1 where
  pub KeySet : Type 0
  pub KeyItem : Type 0
  pub Checker : Type 0
  pub json_dumps : J.Json → Option Bytes
  pub jwks_create : Bytes → Option KeySet
  pub jwks_error : KeySet → Bool
  pub jwks_item_count : KeySet → ℕ
  pub jwks_item_get : KeySet → Option KeyItem
  pub checker_new : Option Checker
  pub checker_setkey : Checker → JwtAlgorithm → KeyItem → Option Checker
  pub disable_leeway : Checker → TimeClaim → Option Checker
  pub checker_verify : Checker → Bytes → Bool

unfoldable pub libjwt_algorithm : ℕ → Option JwtAlgorithm
libjwt_algorithm algorithm =
    if algorithm == rs256
    then some jwt_rs256
    else if algorithm == es256
    then some jwt_es256
    else if algorithm == eddsa
    then some jwt_eddsa
    else none

module _ (J : Jansson) (L : Libjwt J) where
  -- The checker with the key, which leaves the times of the token alone.
  unfoldable pub without_leeway : Option L.Checker → Option L.Checker
  without_leeway none = none
  without_leeway (some c) = elim (L.disable_leeway c exp) [
    | none ↦ none
    | some d ↦ L.disable_leeway d nbf
  ]

  unfoldable pub with_key : JwtAlgorithm → Option L.KeyItem → Option L.Checker → Option L.Checker
  with_key algorithm none checker = none
  with_key algorithm (some key) none = none
  with_key algorithm (some key) (some checker) =
      without_leeway (L.checker_setkey checker algorithm key)

  -- `none` is PG_OAUTH_SIGNATURE_OK. The copy of the token can be allocated.
  unfoldable pub verify_by : Bytes → Option L.Checker → Option SignatureError
  verify_by token none = some verifier_failed
  verify_by token (some checker) =
      if L.checker_verify checker token then none else some signature_invalid

  unfoldable pub verify_imported : Bytes → JwtAlgorithm → Option L.KeySet → Option SignatureError
  verify_imported token algorithm none = some key_import_failed
  verify_imported token algorithm (some set) =
      if L.jwks_error set || not (L.jwks_item_count set == 1)
      then some key_import_failed
      else verify_by token (with_key algorithm (L.jwks_item_get set) L.checker_new)

  unfoldable pub verify_dumped : Bytes → JwtAlgorithm → Option Bytes → Option SignatureError
  verify_dumped token algorithm none = some key_serialization_failed
  verify_dumped token algorithm (some json) = verify_imported token algorithm (L.jwks_create json)

  unfoldable pub verify_with : Bytes → J.Json → Option JwtAlgorithm → Option SignatureError
  verify_with token key none = some signature_bad_argument
  verify_with token key (some algorithm) =
      if any (λ b. b == 0) token || length token == uint64_max
      then some signature_bad_argument
      else verify_dumped token algorithm (L.json_dumps key)

  unfoldable pub signature_verify : Option Bytes → Option (J.Json × ℕ) → Option SignatureError
  signature_verify none selected = some signature_bad_argument
  signature_verify (some token) none = some signature_bad_argument
  signature_verify (some token) (some (key, algorithm)) =
      if length token == 0
      then some signature_bad_argument
      else verify_with token key (libjwt_algorithm algorithm)
