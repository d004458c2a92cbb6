-- ===== src/Jwks/Keys.antt =====
-- The tests on a single key. The elliptic curve and Ed25519 tests of OpenSSL are parameters.
use pg_oauth_validator.Base64Url.Codec.{valid, decoded_size, decode}
use pg_oauth_validator.JwtEnvelope.Parse.{algorithm_named}
use pg_oauth_validator.Json.{Jansson}
use pg_oauth_validator.Base.{
  [], ◌∷◌, none, some, ℕ, Bytes, List, Bool, if◌then◌else◌, ◌*◌, text, leb, ◌==◌, ◌%◌, not, length,
  ltb, ◌^◌, ◌||◌, ◌-◌, ◌+◌, ◌&&◌, any, ◌/◌, is_cntrl, Option, false, is_none, bytes_eq,
}

pub record JwksPolicy : Type 0 where
  pub max_jwks_size : ℕ
  pub max_keys : ℕ
  pub max_key_id_size : ℕ
  pub allowed_algorithms : ℕ
  pub minimum_rsa_bits : ℕ
  pub maximum_rsa_bits : ℕ

-- `on_curve` is the test that the two coordinates are a point of P-256, not at infinity, and
-- `raw_public_key` the import of an Ed25519 key.
pub record OpenSsl : Type 0 where
  pub on_curve : Bytes → Bytes → Bool
  pub raw_public_key : Bytes → Bool

-- The shifts of a first byte that is not 0 until its high bit is set.
abbrev leading_bits : ℕ → ℕ
leading_bits first =
    if leb 128 first
    then 0
    else if leb 64 first
    then 1
    else if leb 32 first
    then 2
    else if leb 16 first
    then 3
    else if leb 8 first
    then 4
    else if leb 4 first
    then 5
    else if leb 2 first
    then 6
    else 7

unfoldable pub unsigned_bit_length : Bytes → ℕ
unsigned_bit_length [] = 0
unsigned_bit_length (b ∷ bs) =
    let rest = unsigned_bit_length bs in
    if b == 0
    then rest
    else if ltb ((2 ^ 32 - 1) / 8) (length (b ∷ bs))
    then 0
    else length (b ∷ bs) * 8 - leading_bits b

-- `(exponent_value << 8) | exponent[i]` over at most 8 bytes
abbrev big_endian : ℕ → Bytes → ℕ
big_endian acc [] = acc
big_endian acc (b ∷ bs) = big_endian (acc * 256 % 2 ^ 64 + b) bs

abbrev first_byte : Bytes → ℕ
first_byte [] = 0
first_byte (b ∷ bs) = b

abbrev last_byte : Bytes → ℕ
last_byte [] = 0
last_byte (b ∷ []) = b
last_byte (b ∷ c ∷ bs) = last_byte (c ∷ bs)

unfoldable pub valid_rsa_numbers : JwksPolicy → Bytes → Bytes → Bool
valid_rsa_numbers p modulus exponent =
    let bits = unsigned_bit_length modulus in
    not (first_byte modulus == 0 || first_byte exponent == 0 || last_byte modulus % 2 == 0)
    && not (ltb bits p.minimum_rsa_bits || ltb p.maximum_rsa_bits bits)
    && not (ltb (big_endian 0 exponent) 3 || big_endian 0 exponent % 2 == 0)

abbrev private_members : List Bytes
private_members =
    text "d" ∷ text "p" ∷ text "q" ∷ text "dp" ∷ text "dq" ∷ text "qi" ∷ text "oth" ∷ text "k" ∷ []

unfoldable pub bad_kid : Bytes → ℕ → Bool
bad_kid k maximum = length k == 0 || ltb maximum (length k) || any is_cntrl k

module _ (J : Jansson) where
  abbrev pub member_string : J.Json → Bytes → Option Bytes
  member_string key name = elim (J.object_get key name) [ none ↦ none | some j ↦ J.string_of j ]

  unfoldable pub member_is : J.Json → Bytes → Bytes → Bool
  member_is key name value = elim (member_string key name) [
    | none ↦ false
    | some s ↦ bytes_eq s value
  ]

  -- `use`, if it is there
  unfoldable pub bad_use : J.Json → Bool
  bad_use key = elim (J.object_get key (text "use")) [
    | none ↦ false
    | some u ↦ not (member_is key (text "use") (text "sig"))
  ]

  unfoldable pub only_verify : Option (List J.Json) → Bool
  only_verify none = false
  only_verify (some []) = false
  only_verify (some (j ∷ [])) = elim (J.string_of j) [
    | none ↦ false
    | some s ↦ bytes_eq s (text "verify")
  ]
  only_verify (some (j ∷ k ∷ js)) = false

  unfoldable pub bad_operations : J.Json → Bool
  bad_operations key = elim (J.object_get key (text "key_ops")) [
    | none ↦ false
    | some operations ↦ not (only_verify (J.array_of operations))
  ]

  unfoldable pub key_allows_verification : J.Json → Bool
  key_allows_verification key =
      not (bad_use key)
      && not (bad_operations key)
      && not
          (is_none (J.object_get key (text "use")) && is_none (J.object_get key (text "key_ops")))

  unfoldable pub contains_private_key_material : J.Json → Bool
  contains_private_key_material key =
      any (λ name. not (is_none (J.object_get key name))) private_members

  unfoldable pub key_algorithm : J.Json → ℕ
  key_algorithm key = elim (member_string key (text "alg")) [
    | none ↦ 0
    | some name ↦ algorithm_named name
  ]

  unfoldable pub decode_parameter : J.Json → Bytes → ℕ → Option Bytes
  decode_parameter key name maximum = elim (member_string key name) [
    | none ↦ none
    | some encoded ↦
        if not (valid (some encoded)) then none else elim (decoded_size (length encoded) maximum) [
          | none ↦ none
          | some size ↦ decode (some encoded) size
        ]
  ]

  unfoldable pub valid_rsa_key : J.Json → JwksPolicy → Bool
  valid_rsa_key key p =
      member_is key (text "kty") (text "RSA")
      && elim (decode_parameter key (text "n") (p.maximum_rsa_bits / 8 + 1)) [
        | none ↦ false
        | some modulus ↦ elim (decode_parameter key (text "e") 8) [
          | none ↦ false
          | some exponent ↦ valid_rsa_numbers p modulus exponent
        ]
      ]

  unfoldable pub valid_ec_key : OpenSsl → J.Json → Bool
  valid_ec_key ssl key =
      member_is key (text "kty") (text "EC")
      && member_is key (text "crv") (text "P-256")
      && elim (decode_parameter key (text "x") 32) [
        | none ↦ false
        | some x ↦ elim (decode_parameter key (text "y") 32) [
          | none ↦ false
          | some y ↦ length x == 32 && length y == 32 && ssl.on_curve x y
        ]
      ]

  unfoldable pub valid_ed25519_key : OpenSsl → J.Json → Bool
  valid_ed25519_key ssl key =
      member_is key (text "kty") (text "OKP")
      && member_is key (text "crv") (text "Ed25519")
      && elim (decode_parameter key (text "x") 32) [
        | none ↦ false
        | some x ↦ length x == 32 && ssl.raw_public_key x
      ]
