-- ===== src/CacheKey/Build.antt =====
-- `pg_oauth_cache_key_build` and the functions that append to a key. A key is the list of the bytes
-- that its length counts. A NULL text is `none`, a NULL policy too.
use Prim.Native.Nat.{bit_and}
use pg_oauth_validator.Base.{
  ℕ, Bytes, Option, Bool, List, if◌then◌else◌, ◌/◌, ◌%◌, some, [], text, true, not, ltb, ◌^◌, ◌∷◌,
  leb, is_empty, ◌==◌, ◌-◌, length, ◌&&◌, none, ◌||◌, ◌++◌, is_none,
}
use pg_oauth_validator.CacheState.Types.{max_key_size}

-- Strings are texts without a zero byte; the flag fields are Booleans.
pub record KeyPolicy : Type 0 where
  pub resource : ℕ
  pub issuer : Option Bytes
  pub metadata_url : Option Bytes
  pub jwks_url : Option Bytes
  pub policy_name : Option Bytes
  pub required_scopes : Option Bytes
  pub audiences : Option Bytes
  pub allowed_token_types : ℕ
  pub allow_missing_token_type : Bool
  pub identity_claim : Option Bytes
  pub role_claim : Option Bytes
  pub allowed_jwks_hosts : Option Bytes
  pub ca_file : Option Bytes
  pub allowed_algorithms : ℕ
  pub clock_skew_ms : ℕ
  pub max_token_size : ℕ
  pub max_metadata_size : ℕ
  pub max_jwks_size : ℕ
  pub max_jwks_keys : ℕ
  pub minimum_rsa_bits : ℕ
  pub maximum_rsa_bits : ℕ
  pub jwks_stale_grace_ms : ℕ
  pub metadata_default_ttl_ms : ℕ
  pub jwks_default_ttl_ms : ℕ
  pub cache_max_ttl_ms : ℕ
  pub unknown_kid_refresh_cooldown_ms : ℕ
  pub allow_insecure_http : Bool

abbrev pub metadata_resource : ℕ
metadata_resource = 1

abbrev pub jwks_resource : ℕ
jwks_resource = 2

-- PG_OAUTH_TOKEN_TYPES_ALL
abbrev pub token_types_all : ℕ
token_types_all = 3

pub data KeyResult : Type 0 where
  key_ok : Bytes → KeyResult
  key_invalid_argument key_too_large : KeyResult

unfoldable pub append_bytes : Bytes → Bytes → Option Bytes
append_bytes key value =
    if ltb (max_key_size - length key) (length value) then none else some (key ++ value)

unfoldable pub u32_bytes : ℕ → Bytes
u32_bytes n = n / 2 ^ 24 % 256 ∷ n / 2 ^ 16 % 256 ∷ n / 2 ^ 8 % 256 ∷ n % 256 ∷ []

-- The loop writes `value >> (56 - i * 8)` for i from 0 to 7.
unfoldable pub u64_bytes : ℕ → Bytes
u64_bytes n =
    n / 2 ^ 56 % 256 ∷ n / 2 ^ 48 % 256 ∷ n / 2 ^ 40 % 256 ∷ n / 2 ^ 32 % 256 ∷ u32_bytes n

unfoldable pub append_u8 : Bytes → ℕ → Option Bytes
append_u8 key n = append_bytes key (n % 256 ∷ [])

unfoldable pub append_u32 : Bytes → ℕ → Option Bytes
append_u32 key n = append_bytes key (u32_bytes n)

unfoldable pub append_u64 : Bytes → ℕ → Option Bytes
append_u64 key n = append_bytes key (u64_bytes n)

-- The length loop stops at the size of the key, which is refused; what it accepts is below
-- UINT32_MAX.
unfoldable pub append_string : Bytes → Bytes → Option Bytes
append_string key value =
    if leb max_key_size (length value)
    then none
    else elim (append_u32 key (length value)) [ none ↦ none | some next ↦ append_bytes next value ]

-- One call of the chain `!append_…(key, …) || …`.
pub data Item : Type 0 where
  raw : Bytes → Item
  u8 : ℕ → Item
  u32 : ℕ → Item
  u64 : ℕ → Item
  string : Bytes → Item

unfoldable pub append : Bytes → Item → Option Bytes
append key (raw b) = append_bytes key b
append key (u8 n) = append_u8 key n
append key (u32 n) = append_u32 key n
append key (u64 n) = append_u64 key n
append key (string s) = append_string key s

-- The chain stops at the first call that fails.
unfoldable pub append_all : Bytes → List Item → Option Bytes
append_all key [] = some key
append_all key (x ∷ xs) = elim (append key x) [ none ↦ none | some next ↦ append_all next xs ]

abbrev pub or_empty : Option Bytes → Bytes
or_empty none = []
or_empty (some s) = s

abbrev pub bit : Bool → ℕ
bit b = if b then 1 else 0

unfoldable pub items_of : KeyPolicy → List Item
items_of p =
    raw (text "PGOC")
    ∷ u8 5
    ∷ u8 p.resource
    ∷ string (or_empty p.issuer)
    ∷ string (or_empty p.metadata_url)
    ∷ string (or_empty p.jwks_url)
    ∷ string (or_empty p.policy_name)
    ∷ string (or_empty p.required_scopes)
    ∷ string (or_empty p.audiences)
    ∷ u8 p.allowed_token_types
    ∷ u8 (bit p.allow_missing_token_type)
    ∷ string (or_empty p.identity_claim)
    ∷ string (or_empty p.role_claim)
    ∷ string (or_empty p.allowed_jwks_hosts)
    ∷ string (or_empty p.ca_file)
    ∷ u32 p.allowed_algorithms
    ∷ u32 p.clock_skew_ms
    ∷ u32 p.max_token_size
    ∷ u32 p.max_metadata_size
    ∷ u32 p.max_jwks_size
    ∷ u32 p.max_jwks_keys
    ∷ u32 p.minimum_rsa_bits
    ∷ u32 p.maximum_rsa_bits
    ∷ u64 p.jwks_stale_grace_ms
    ∷ u64 p.metadata_default_ttl_ms
    ∷ u64 p.jwks_default_ttl_ms
    ∷ u64 p.cache_max_ttl_ms
    ∷ u64 p.unknown_kid_refresh_cooldown_ms
    ∷ u8 (bit p.allow_insecure_http)
    ∷ []

-- `value == NULL || value[0] == '\0'`
abbrev pub null_or_empty : Option Bytes → Bool
null_or_empty none = true
null_or_empty (some s) = is_empty s

unfoldable pub bad_policy : KeyPolicy → Bool
bad_policy p =
    (not (p.resource == metadata_resource) && not (p.resource == jwks_resource))
    || null_or_empty p.issuer
    || null_or_empty p.metadata_url
    || (p.resource == jwks_resource && null_or_empty p.jwks_url)
    || is_none p.policy_name
    || is_none p.required_scopes
    || is_none p.audiences
    || p.allowed_token_types == 0
    || not (bit_and p.allowed_token_types (255 - token_types_all) == 0)
    || is_none p.identity_claim
    || is_none p.role_claim
    || is_none p.allowed_jwks_hosts
    || is_none p.ca_file
    || p.allowed_algorithms == 0
    || p.max_token_size == 0
    || p.max_metadata_size == 0
    || p.max_jwks_size == 0
    || p.max_jwks_keys == 0
    || p.minimum_rsa_bits == 0
    || ltb p.maximum_rsa_bits p.minimum_rsa_bits

unfoldable pub build : Option KeyPolicy → KeyResult
build none = key_invalid_argument
build (some p) =
    if bad_policy p
    then key_invalid_argument
    else elim (append_all [] (items_of p)) [ none ↦ key_too_large | some key ↦ key_ok key ]
