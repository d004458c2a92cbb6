-- ===== src/Claims/Roles.antt =====
-- `validate_requested_role`.
use pg_oauth_validator.Json.{Jansson}
use pg_oauth_validator.Base.{
  [], ◌∷◌, Bytes, Bool, ℕ, Option, length, ◌==◌, if◌then◌else◌, ◌||◌, none, ltb, some, any,
  is_cntrl, List, bytes_eq, false, is_empty,
}
use pg_oauth_validator.Claims.Policy.{
  has, ClaimsError, unauthorized_role, invalid_roles, ClaimsPolicy, bytes_or_empty, bad_argument,
}

unfoldable pub bad_role : Bytes → ℕ → Bool
bad_role role maximum = length role == 0 || ltb maximum (length role) || any is_cntrl role

abbrev role_result : Bool → Option ClaimsError
role_result found = if found then none else some unauthorized_role

module _ (J : Jansson) where
  -- The loop over an array, after the roles in `previous`; `none` is PG_OAUTH_CLAIMS_OK.
  unfoldable pub check_roles : List Bytes → List J.Json → Bytes → ℕ → Bool → Option ClaimsError
  check_roles previous [] requested maximum found = role_result found
  check_roles previous (j ∷ js) requested maximum found = elim (J.string_of j) [
    | none ↦ some invalid_roles
    | some role ↦
        let rest =
          check_roles (role ∷ previous) js requested maximum (bytes_eq role requested || found) in
        if bad_role role maximum || has previous role then some invalid_roles else rest
  ]

  unfoldable pub roles_claim : Option J.Json → Bytes → ℕ → ℕ → Option ClaimsError
  roles_claim none requested max_roles max_role_size = some invalid_roles
  roles_claim (some j) requested max_roles max_role_size = elim (J.string_of j) [
    | some role ↦
        if bad_role role max_role_size
        then some invalid_roles
        else role_result (bytes_eq role requested)
    | none ↦ elim (J.array_of j) [
      | none ↦ some invalid_roles
      | some js ↦
          if length js == 0 || ltb max_roles (length js)
          then some invalid_roles
          else check_roles [] js requested max_role_size false
    ]
  ]

  unfoldable pub validate_requested_role : J.Json → ClaimsPolicy → Option ClaimsError
  validate_requested_role payload p =
      let requested = bytes_or_empty p.requested_role in
      if is_empty (bytes_or_empty p.role_claim)
      then none
      else if length requested == 0 || ltb p.max_role_size (length requested)
      then some bad_argument
      else roles_claim (J.object_get payload (bytes_or_empty p.role_claim)) requested p.max_roles
          p.max_role_size
