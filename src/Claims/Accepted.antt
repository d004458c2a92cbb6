-- ===== src/Claims/Accepted.antt =====
-- What an accepted payload says, and what each single check establishes.
use pg_oauth_validator.Claims.ScopesSound.{scopes_in}
use pg_oauth_validator.Claims.AudienceSound.{listed, audiences_of}
use pg_oauth_validator.Claims.Scopes.{scope_claim}
use pg_oauth_validator.Json.{Jansson}
use pg_oauth_validator.Base.{
  [], none, some, Option, List, ℕ, Bytes, ◌≡◌, ◌<◌, pos, length, text, true, ◌+◌, ◌≤◌, ap, arith,
  Option-cases, eq_of_bytes_eq, inl, false, negsuc, inr, magnitude, all, split, is_empty, Bool,
  if◌then◌else◌, ◌∙◌, refl, not, ◌==◌,
}
use pg_oauth_validator.Claims.Policy.{
  has, ClaimsPolicy, valid_identity_string, ClaimsError, bytes_or_empty, has_control,
  invalid_expiry, expired,
}
use pg_oauth_validator.Claims.Validate.{
  expires, expiry_refused, json_string_equals, check_time, expiry_of, ValidatedClaims, string_at,
  beyond_skew, past_skew, ClaimsResult, claims_refused, claims_ok,
}

pub first_none :
    (x y : Option ClaimsError)
    → elim x [ some e ↦ some e | none ↦ y ] ≡ none
    → (x ≡ none) × (y ≡ none)
first_none none y h = (refl, h)
first_none (some e) y h = cc

pub guard_none :
    (good : Bool) (e : ClaimsError) (y : Option ClaimsError)
    → (if not good then some e else y) ≡ none
    → (good ≡ true) × (y ≡ none)
guard_none true e y h = (refl, h)
guard_none false e y h = cc

pub guarded :
    (bad : Bool) (e : ClaimsError) (y : ClaimsResult) {c : ValidatedClaims}
    → (if bad then claims_refused e else y) ≡ claims_ok c
    → (bad ≡ false) × (y ≡ claims_ok c)
guarded true e y h = cc
guarded false e y h = (refl, h)

within_skew :
    (n now skew : ℕ) (y : ClaimsError)
    → (if beyond_skew n now skew then some y else none) ≡ none
    → n ≤ now + skew
within_skew n now skew y h = ground arith

expires_only :
    (n now skew at : ℕ)
    → (if n == 0
        then expiry_refused invalid_expiry
        else if past_skew n now skew
        then expiry_refused expired
        else expires n)
      ≡ expires at
    → (n ≡ at) × (now < at + skew)
expires_only n now skew at h = ground arith

-- A nonempty text within its bound that holds no control character.
abbrev pub GoodText : Option Bytes → ℕ → Type 0
GoodText none maximum = ⊥
GoodText (some s) maximum = (0 < length s) × (length s ≤ maximum) × (has_control s ≡ false)

pub equals-is : (v : Option Bytes) (b : Bytes) → json_string_equals v b ≡ true → v ≡ some b
unfolding json_string_equals
equals-is none b h = absurd (cc h)
equals-is (some s) b h = ap some (eq_of_bytes_eq s b h)

pub good : (v : Option Bytes) (m : ℕ) → valid_identity_string v m ≡ true → GoodText v m
unfolding valid_identity_string
good none m h = absurd (cc h)
good (some s) m h = ground arith

module _ (J : Jansson) where
  -- A time claim that may be missing, but may not lie further ahead than the skew.
  abbrev pub NotAhead : Option J.Json → ℕ → Type 0
  NotAhead none limit = Unit {0}
  NotAhead (some j) limit = (n : ℕ) × (J.integer_of j ≡ some (pos n)) × (n ≤ limit)

  abbrev pub scopes_at : J.Json → List Bytes
  scopes_at payload = elim (scope_claim J (J.object_get payload (text "scope"))) [
    | none ↦ []
    | some c ↦ scopes_in J c
  ]

  pub record Accepted (payload : J.Json) (p : ClaimsPolicy) (c : ValidatedClaims) : Type 0 where
    pub issuer_is : string_at J payload (text "iss") ≡ some (bytes_or_empty p.issuer)
    pub audience_is :
        (a : Bytes) × (has (listed J (J.object_get payload (text "aud"))) a ≡ true)
        × (has (audiences_of (bytes_or_empty p.audiences)) a ≡ true)
    pub expiry_is :
        (j : J.Json) × (J.object_get payload (text "exp") ≡ some j)
        × (J.integer_of j ≡ some (pos c.expires_at))
    pub unexpired : magnitude p.current_time < c.expires_at + p.clock_skew_seconds
    pub started :
        NotAhead
          (J.object_get payload (text "nbf"))
          (magnitude p.current_time + p.clock_skew_seconds)
    pub issued :
        NotAhead
          (J.object_get payload (text "iat"))
          (magnitude p.current_time + p.clock_skew_seconds)
    pub subject_good : GoodText (string_at J payload (text "sub")) p.max_subject_size
    pub identity_is : string_at J payload (bytes_or_empty p.identity_claim) ≡ some c.identity
    pub identity_good : GoodText (some c.identity) p.max_identity_size
    pub scopes_granted :
        all (has (scopes_at payload)) (split b' ' (bytes_or_empty p.required_scopes)) ≡ true
    pub role_granted :
        is_empty (bytes_or_empty p.role_claim) ≡ false
        → has
            (listed J (J.object_get payload (bytes_or_empty p.role_claim)))
            (bytes_or_empty p.requested_role)
          ≡ true

  pub check_time-NotAhead :
      (v : Option J.Json) (now skew : ℕ) (x y : ClaimsError)
      → check_time J v now skew x y ≡ none
      → NotAhead v (now + skew)
  unfolding check_time
  check_time-NotAhead none now skew x y h = tt
  check_time-NotAhead (some j) now skew x y h = elim (Option-cases (J.integer_of j)) [
    | inl e ↦ absurd (cc (rw (e, check_time) at h))
    | inr (negsuc n, e) ↦ absurd (cc (rw (e, check_time) at h))
    | inr (pos n, e) ↦ (n, e, within_skew n now skew y (rw (e, check_time) at h))
  ]

  pub expiry_of-expires :
      (v : Option J.Json) (now skew at : ℕ)
      → expiry_of J v now skew ≡ expires at
      → (j : J.Json) × (v ≡ some j) × (J.integer_of j ≡ some (pos at)) × (now < at + skew)
  unfolding expiry_of
  expiry_of-expires none now skew at h = absurd (cc h)
  expiry_of-expires (some j) now skew at h = elim (Option-cases (J.integer_of j)) [
    | inl e ↦ absurd (cc (rw (e, expiry_of) at h))
    | inr (negsuc n, e) ↦ absurd (cc (rw (e, expiry_of) at h))
    | inr (pos n, e) ↦
        let (same, lt) = expires_only n now skew at (rw (e, expiry_of) at h) in
        (j, refl, e ∙ ap (λ x. some (pos x)) same, lt)
  ]
