-- ===== src/Claims/ScopesSound.antt =====
-- A token that passes has every required scope.
use pg_oauth_validator.Json.{Jansson}
use pg_oauth_validator.Claims.Scopes.{
  scopes_contain, ScopeClaim, array_contains, contains, check_scopes, scope_string_contains,
  scope_string, scope_array_contains, scope_array, valid_scope_token,
}
use pg_oauth_validator.Base.{
  [], ◌∷◌, List, Bytes, ℕ, Bool, ◌≡◌, some, split, none, true, all, ◌||◌, Bool-cases, refl, arith,
  is_empty, leb, Option-cases, inl, length, inr, not, false, ◌==◌, bytes_eq, ltb, Option, suc,
}
use pg_oauth_validator.Claims.Policy.{
  has, bytes_or_empty, ClaimsError, invalid_scope, insufficient_scope,
}

scopes_contain-has :
    (previous ss : List Bytes) (r : Bytes) (m : ℕ) (found : Bool)
    → scopes_contain previous ss r m found ≡ some true
    → (found || has ss r) ≡ true
unfolding scopes_contain
scopes_contain-has previous [] r m found h = ground arith
scopes_contain-has previous (s ∷ ss) r m found h =
    elim (Bool-cases
      (is_empty s || leb m (length previous) || not (valid_scope_token s) || has previous s)) [
        | inl e ↦ absurd (cc (rw e at h))
        | inr e ↦
            ground
              (arith, scopes_contain-has (s ∷ previous) ss r m (bytes_eq s r || found) (rw e at h))
      ]

contained :
    (x : Option Bool) (rest : Option ClaimsError)
    → elim x [ none ↦ some invalid_scope | some false ↦ some insufficient_scope | some true ↦ rest ]
      ≡ none
    → (x ≡ some true) × (rest ≡ none)
contained none rest h = cc
contained (some false) rest h = cc
contained (some true) rest h = (refl, h)

module _ (J : Jansson) where
  -- The strings of an array.
  abbrev pub strings : List J.Json → List Bytes
  strings [] = []
  strings (j ∷ js) = bytes_or_empty (J.string_of j) ∷ strings js

  abbrev pub scopes_in : ScopeClaim J → List Bytes
  scopes_in (scope_string s) = split b' ' s
  scopes_in (scope_array js) = strings js

  array_contains-has :
      (previous : List Bytes) (js : List J.Json) (r : Bytes) (found : Bool)
      → array_contains J previous js r found ≡ some true
      → (found || has (strings js) r) ≡ true
  unfolding array_contains
  array_contains-has previous [] r found h = ground arith
  array_contains-has previous (j ∷ js) r found h = elim (Option-cases (J.string_of j)) [
    | inl e ↦ absurd (cc (rw (e, array_contains) at h))
    | inr (s, e) ↦
        let h' = rw (e, array_contains) at h in
        elim (Bool-cases (not (valid_scope_token s) || has previous s)) [
          | inl x ↦ absurd (cc (rw x at h'))
          | inr x ↦ rw e (
              ground (
                arith,
                array_contains-has (s ∷ previous) js r (bytes_eq s r || found) (rw x at h'),
              ))
        ]
  ]

  contains-has :
      (c : ScopeClaim J) (r : Bytes) (m : ℕ)
      → contains J c r m ≡ some true
      → has (scopes_in c) r ≡ true
  unfolding contains scope_string_contains scope_array_contains
  contains-has (scope_string s) r m h = elim (Bool-cases (is_empty s)) [
    | inl e ↦ absurd (cc (rw e at h))
    | inr e ↦ scopes_contain-has [] (split b' ' s) r m false (rw e at h)
  ]
  contains-has (scope_array js) r m h = elim (Bool-cases (length js == 0 || ltb m (length js))) [
    | inl e ↦ absurd (cc (rw e at h))
    | inr e ↦ array_contains-has [] js r false (rw e at h)
  ]

  pub check_scopes-has :
      (c : ScopeClaim J) (n : ℕ) (rs : List Bytes) (m : ℕ)
      → check_scopes J c n rs m ≡ none
      → all (has (scopes_in c)) rs ≡ true
  unfolding check_scopes
  check_scopes-has c n [] m h = refl
  check_scopes-has c n (r ∷ rs) m h =
      elim (Bool-cases (is_empty r || ltb m (suc n) || not (valid_scope_token r))) [
        | inl x ↦ absurd (cc (rw x at h))
        | inr x ↦
            let (e, rest) =
              contained (contains J c r m) (check_scopes J c (suc n) rs m) (rw x at h) in
            ground (arith, contains-has c r m e, check_scopes-has c (suc n) rs m rest)
      ]
