-- ===== src/Claims/Scopes.antt =====
-- `valid_scope_token`, `scope_string_contains`, `scope_array_contains` and `validate_scopes`.
use mathlib.Core.Bool.{true, false}
use mathlib.Core.Option
use mathlib.Core.Option.{Option, none, some}
use pg_oauth_validator.Json.{Jansson}
use pg_oauth_validator.Base.{
  [], ◌∷◌, ℕ, Bytes, List, Bool, ◌==◌, not, some, if◌then◌else◌, ◌||◌, is_empty, bytes_eq, leb,
  ◌&&◌, none, all, length, split, false, ltb, suc, text,
}
use pg_oauth_validator.Claims.Policy.{
  has, ClaimsError, bad_argument, invalid_scope, insufficient_scope,
}

abbrev is_scope_byte : ℕ → Bool
is_scope_byte b = b == 0x21 || (leb 0x23 b && leb b 0x5b) || (leb 0x5d b && leb b 0x7e)

unfoldable pub valid_scope_token : Bytes → Bool
valid_scope_token s = not (is_empty s) && all is_scope_byte s

-- The loop over the scopes of a token, after those in `previous`: `none` is `*valid == false`.
unfoldable pub scopes_contain : List Bytes → List Bytes → Bytes → ℕ → Bool → Option Bool
scopes_contain previous [] required maximum found = some found
scopes_contain previous (s ∷ ss) required maximum found =
    let rest = scopes_contain (s ∷ previous) ss required maximum (bytes_eq s required || found) in
    if is_empty s || leb maximum (length previous) || not (valid_scope_token s) || has previous s
    then none
    else rest

unfoldable pub scope_string_contains : Bytes → Bytes → ℕ → Option Bool
scope_string_contains scopes required maximum =
    if is_empty scopes then none else scopes_contain [] (split b' ' scopes) required maximum false

module _ (J : Jansson) where
  -- The array's size is tested before the loop.
  unfoldable pub array_contains : List Bytes → List J.Json → Bytes → Bool → Option Bool
  array_contains previous [] required found = some found
  array_contains previous (j ∷ js) required found = elim (J.string_of j) [
    | none ↦ none
    | some s ↦
        if not (valid_scope_token s) || has previous s
        then none
        else array_contains (s ∷ previous) js required (bytes_eq s required || found)
  ]

  unfoldable pub scope_array_contains : List J.Json → Bytes → ℕ → Option Bool
  scope_array_contains scopes required maximum =
      if length scopes == 0 || ltb maximum (length scopes)
      then none
      else array_contains [] scopes required false

  -- A claim that is a string or an array; anything else is refused before the loop.
  pub data ScopeClaim : Type 0 where
    scope_string : Bytes → ScopeClaim
    scope_array : List J.Json → ScopeClaim

  unfoldable pub scope_claim : Option J.Json → Option ScopeClaim
  scope_claim none = none
  scope_claim (some j) = elim (J.string_of j) [
    | some s ↦ some (scope_string s)
    | none ↦ Option.map scope_array (J.array_of j)
  ]

  unfoldable pub contains : ScopeClaim → Bytes → ℕ → Option Bool
  contains (scope_string s) required maximum = scope_string_contains s required maximum
  contains (scope_array js) required maximum = scope_array_contains js required maximum

  -- The loop over the required scopes; `none` is PG_OAUTH_CLAIMS_OK.
  unfoldable pub check_scopes : ScopeClaim → ℕ → List Bytes → ℕ → Option ClaimsError
  check_scopes claim count [] maximum = none
  check_scopes claim count (r ∷ rs) maximum =
      let rest = check_scopes claim (suc count) rs maximum in
      if is_empty r || ltb maximum (suc count) || not (valid_scope_token r)
      then some bad_argument
      else elim (contains claim r maximum) [
        | none ↦ some invalid_scope
        | some false ↦ some insufficient_scope
        | some true ↦ rest
      ]

  unfoldable pub validate_scopes : J.Json → Bytes → ℕ → Option ClaimsError
  validate_scopes payload required maximum =
      elim (scope_claim (J.object_get payload (text "scope"))) [
        | none ↦ some invalid_scope
        | some claim ↦ check_scopes claim 0 (split b' ' required) maximum
      ]
