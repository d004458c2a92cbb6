-- ===== src/Claims/RolesSound.antt =====
-- A token that passes lists the requested role, where roles are checked.
use pg_oauth_validator.Claims.AudienceSound.{listed}
use pg_oauth_validator.Claims.ScopesSound.{strings}
use pg_oauth_validator.Claims.Roles.{check_roles, roles_claim, validate_requested_role, bad_role}
use pg_oauth_validator.Json.{Jansson}
use pg_oauth_validator.Base.{
  [], ◌∷◌, none, some, List, Option, Bytes, ◌≡◌, ℕ, is_empty, Bool, ◌||◌, false, true, arith,
  Option-cases, Bool-cases, inl, inr, length, ◌==◌, bytes_eq, ltb,
}
use pg_oauth_validator.Claims.Policy.{has, ClaimsPolicy, bytes_or_empty}

module _ (J : Jansson) where
  check_roles-has :
      (previous : List Bytes) (js : List J.Json) (r : Bytes) (m : ℕ) (found : Bool)
      → check_roles J previous js r m found ≡ none
      → (found || has (strings J js) r) ≡ true
  unfolding check_roles
  check_roles-has previous [] r m found h = ground arith
  check_roles-has previous (j ∷ js) r m found h = elim (Option-cases (J.string_of j)) [
    | inl e ↦ absurd (cc (rw (e, check_roles) at h))
    | inr (s, e) ↦
        let h' = rw (e, check_roles) at h in
        elim (Bool-cases (bad_role s m || has previous s)) [
          | inl x ↦ absurd (cc (rw x at h'))
          | inr x ↦ rw e (
              ground
                (arith, check_roles-has (s ∷ previous) js r m (bytes_eq s r || found) (rw x at h')))
        ]
  ]

  roles_claim-has :
      (v : Option J.Json) (r : Bytes) (n m : ℕ)
      → roles_claim J v r n m ≡ none
      → has (listed J v) r ≡ true
  unfolding roles_claim
  roles_claim-has none r n m h = absurd (cc h)
  roles_claim-has (some j) r n m h = elim (Option-cases (J.string_of j)) [
    | inr (s, e) ↦ let h' = rw (e, roles_claim) at h in rw (e, listed) (ground (arith, h'))
    | inl e ↦ elim (Option-cases (J.array_of j)) [
      | inl a ↦ absurd (cc (rw (e, a, roles_claim) at h))
      | inr (js, a) ↦
          let h' = rw (e, a, roles_claim) at h in
          rw (e, a, listed)
            (elim (Bool-cases (length js == 0 || ltb n (length js))) [
              | inl x ↦ absurd (cc (rw x at h'))
              | inr x ↦ check_roles-has [] js r m false (rw x at h')
            ])
    ]
  ]

  pub validate_requested_role-has :
      (payload : J.Json) (p : ClaimsPolicy)
      → validate_requested_role J payload p ≡ none
      → is_empty (bytes_or_empty p.role_claim) ≡ false
      → has
          (listed J (J.object_get payload (bytes_or_empty p.role_claim)))
          (bytes_or_empty p.requested_role)
        ≡ true
  unfolding validate_requested_role
  validate_requested_role-has payload p h e =
      let r = bytes_or_empty p.requested_role in
      let h' = rw e at h in
      elim (Bool-cases (length r == 0 || ltb p.max_role_size (length r))) [
        | inl x ↦ absurd (cc (rw x at h'))
        | inr x ↦
            roles_claim-has (J.object_get payload (bytes_or_empty p.role_claim)) r p.max_roles
              p.max_role_size (rw x at h')
      ]
