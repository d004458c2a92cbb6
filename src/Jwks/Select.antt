-- ===== src/Jwks/Select.antt =====
-- `pg_oauth_jwks_select`.
use pg_oauth_validator.JwtEnvelope.Parse.{rs256, es256, eddsa}
use Prim.Native.Nat.{bit_and}
use pg_oauth_validator.Json.{Jansson}
use pg_oauth_validator.Jwks.Keys.{
  JwksPolicy, OpenSsl, key_algorithm, bad_kid, key_allows_verification, valid_rsa_key,
  contains_private_key_material, valid_ec_key, valid_ed25519_key,
}
use pg_oauth_validator.Base.{
  ◌-◌, [], ◌∷◌, none, some, ℕ, Bool, Option, Bytes, ◌==◌, List, if◌then◌else◌, ◌||◌, not, length,
  text, ltb, bytes_eq, is_none, any, ◌&&◌,
}

pub data JwksError : Type 0 where
  jwks_bad_argument jwks_empty jwks_too_large jwks_invalid_json invalid_keys too_many_keys :
      JwksError
  jwks_invalid_key_id duplicate_key_id key_not_found algorithm_mismatch : JwksError
  key_not_for_signature invalid_key : JwksError

unfoldable pub bad_jwks_policy : JwksPolicy → ℕ → Bool
bad_jwks_policy p token_algorithm =
    p.max_jwks_size == 0
    || p.max_keys == 0
    || p.max_key_id_size == 0
    || p.allowed_algorithms == 0
    || ltb p.minimum_rsa_bits 2048
    || ltb p.maximum_rsa_bits p.minimum_rsa_bits
    || ltb 16384 p.maximum_rsa_bits
    || token_algorithm == 0
    || not (bit_and token_algorithm (token_algorithm - 1) == 0)
    || bit_and token_algorithm p.allowed_algorithms == 0

module _ (J : Jansson) (ssl : OpenSsl) where
  pub data Selection : Type 0 where
    selected : J.Json → ℕ → Selection
    unselected : JwksError → Selection

  pub data Search : Type 0 where
    found : Option J.Json → Search
    failed : JwksError → Search

  -- The loop over the keys, with the candidate so far.
  unfoldable pub search_keys : JwksPolicy → Bytes → Option J.Json → List J.Json → Search
  search_keys p key_id candidate [] = found candidate
  search_keys p key_id candidate (key ∷ keys) =
      let pass = search_keys p key_id candidate keys in
      let take = search_keys p key_id (some key) keys in
      if not (J.is_object key) then failed invalid_keys else elim (J.object_get key (text "kid")) [
        | none ↦ pass
        | some id ↦ elim (J.string_of id) [
          | none ↦ failed jwks_invalid_key_id
          | some k ↦
              if bad_kid k p.max_key_id_size
              then failed jwks_invalid_key_id
              else if not (bytes_eq k key_id)
              then pass
              else if not (is_none candidate)
              then failed duplicate_key_id
              else take
        ]
      ]

  unfoldable pub bad_key : JwksPolicy → J.Json → ℕ → Bool
  bad_key p key algorithm =
      (algorithm == rs256 && not (valid_rsa_key J key p))
      || (algorithm == es256 && not (valid_ec_key J ssl key))
      || (algorithm == eddsa && not (valid_ed25519_key J ssl key))

  unfoldable pub check_candidate : JwksPolicy → ℕ → J.Json → Selection
  check_candidate p token_algorithm key =
      let algorithm = key_algorithm J key in
      if algorithm == 0
        || not (algorithm == token_algorithm)
        || bit_and algorithm p.allowed_algorithms == 0
      then unselected algorithm_mismatch
      else if not (key_allows_verification J key)
      then unselected key_not_for_signature
      else if contains_private_key_material J key
      then unselected invalid_key
      else if bad_key p key algorithm
      then unselected invalid_key
      else selected key algorithm

  unfoldable pub select_among : JwksPolicy → Bytes → ℕ → Option (List J.Json) → Selection
  select_among p key_id token_algorithm none = unselected invalid_keys
  select_among p key_id token_algorithm (some keys) =
      if length keys == 0
      then unselected invalid_keys
      else if ltb p.max_keys (length keys)
      then unselected too_many_keys
      else elim (search_keys p key_id none keys) [
        | failed e ↦ unselected e
        | found none ↦ unselected key_not_found
        | found (some key) ↦ check_candidate p token_algorithm key
      ]

  abbrev pub keys_of : J.Json → Option (List J.Json)
  keys_of root = elim (J.object_get root (text "keys")) [
    | none ↦ none
    | some keys ↦ J.array_of keys
  ]

  unfoldable pub select_document : JwksPolicy → Bytes → ℕ → Bytes → Selection
  select_document p key_id token_algorithm document =
      if length document == 0
      then unselected jwks_empty
      else if ltb p.max_jwks_size (length document)
      then unselected jwks_too_large
      else if any (λ b. b == 0) document
      then unselected jwks_invalid_json
      else elim (J.loadb document) [
        | none ↦ unselected jwks_invalid_json
        | some root ↦
            if not (J.is_object root)
            then unselected jwks_invalid_json
            else select_among p key_id token_algorithm (keys_of root)
      ]

  unfoldable pub jwks_select : Option Bytes → Option Bytes → ℕ → Option JwksPolicy → Selection
  jwks_select none key_id token_algorithm p = unselected jwks_bad_argument
  jwks_select (some document) none token_algorithm p = unselected jwks_bad_argument
  jwks_select (some document) (some key_id) token_algorithm none = unselected jwks_bad_argument
  jwks_select (some document) (some key_id) token_algorithm (some p) =
      if bad_jwks_policy p token_algorithm
      then unselected jwks_bad_argument
      else if bad_kid key_id p.max_key_id_size
      then unselected jwks_bad_argument
      else select_document p key_id token_algorithm document
