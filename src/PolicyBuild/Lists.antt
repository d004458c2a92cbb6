-- ===== src/PolicyBuild/Lists.antt =====
-- The parsers of comma-separated settings. Where a comma ends the text, the code refuses it after
-- the last entry.
use pg_oauth_validator.JwtEnvelope.Parse.{at_jwt_type, algorithm_named, application_at_jwt_type}
use Prim.Native.Nat.{bit_or, bit_and}
use pg_oauth_validator.Base.{
  [], ◌∷◌, none, some, Bytes, Option, ℕ, List, if◌then◌else◌, Bool, ◌==◌, bytes_eq, is_empty, ltb,
  not, is_alnum, false, true, trim, text, ◌||◌, ends_in_comma, ◌&&◌, is_space, length, entries_of,
  leb, suc, all, any, is_cntrl,
}

-- `*types` or `*algorithms`; `named` gives 0 for a name that is not known.
unfoldable pub bits_from : (Bytes → ℕ) → ℕ → List Bytes → Option ℕ
bits_from named result [] = if result == 0 then none else some result
bits_from named result (e ∷ es) =
    let bit = named (trim is_space e) in
    let rest = bits_from named (bit_or result bit) es in
    if bit == 0 then none else if not (bit_and result bit == 0) then none else rest

unfoldable pub token_type_named : Bytes → ℕ
token_type_named name =
    if bytes_eq name (text "at+jwt")
    then at_jwt_type
    else if bytes_eq name (text "application/at+jwt")
    then application_at_jwt_type
    else 0

unfoldable pub parse_token_types : Option Bytes → Option ℕ
parse_token_types none = none
parse_token_types (some value) =
    if is_empty value || ltb 64 (length value) || ends_in_comma value
    then none
    else bits_from token_type_named 0 (entries_of value)

unfoldable pub parse_algorithms : Option Bytes → Option ℕ
parse_algorithms none = none
parse_algorithms (some value) =
    if is_empty value || ends_in_comma value
    then none
    else bits_from algorithm_named 0 (entries_of value)

-- PG_OAUTH_MAX_AUDIENCES
abbrev pub max_configured_audiences : ℕ
max_configured_audiences = 16

unfoldable pub audiences_from : ℕ → List Bytes → Bool
audiences_from count [] = ltb 0 count
audiences_from count (e ∷ es) =
    let entry = trim is_space e in
    let rest = audiences_from (suc count) es in
    if is_empty entry || ltb max_configured_audiences (suc count)
    then false
    else if any is_cntrl entry
    then false
    else rest

unfoldable pub validate_audiences : Bytes → Bool
validate_audiences value = not (ends_in_comma value) && audiences_from 0 (entries_of value)

unfoldable pub validate_claim_name : Bytes → Bool
validate_claim_name claim =
    not (is_empty claim)
    && leb (length claim) 128
    && all (λ b. not (is_cntrl b || is_space b)) claim

abbrev pub is_host_byte : ℕ → Bool
is_host_byte b = is_alnum b || b == b'.' || b == b'-'

abbrev pub begins_with : Bytes → ℕ → Bool
begins_with [] c = false
begins_with (b ∷ bs) c = b == c

abbrev pub ends_with : Bytes → ℕ → Bool
ends_with [] c = false
ends_with (b ∷ []) c = b == c
ends_with (b ∷ d ∷ bs) c = ends_with (d ∷ bs) c

unfoldable pub hosts_from : ℕ → List Bytes → Bool
hosts_from count [] = true
hosts_from count (e ∷ es) =
    let entry = trim is_space e in
    let rest = hosts_from (suc count) es in
    if is_empty entry
      || ltb 253 (length entry)
      || ltb 16 (suc count)
      || begins_with entry b'.'
      || begins_with entry b'-'
      || ends_with entry b'.'
      || ends_with entry b'-'
    then false
    else if not (all is_host_byte entry)
    then false
    else rest

unfoldable pub validate_jwks_hosts : Option Bytes → Bool
validate_jwks_hosts none = true
validate_jwks_hosts (some value) = not (ends_in_comma value) && hosts_from 0 (entries_of value)
