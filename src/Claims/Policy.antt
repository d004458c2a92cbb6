-- ===== src/Claims/Policy.antt =====
-- The policy, the results, and the tests on single texts.
use pg_oauth_validator.Base.{
  [], ◌∷◌, Option, Bool, Bytes, List, ℤ, true, some, not, false, ℕ, any, is_empty, ◌&&◌, is_cntrl,
  length, bytes_eq, is_none, ◌||◌, ◌==◌, is_negative, leb, ltb, none,
}

pub data ClaimsError : Type 0 where
  bad_argument invalid_issuer invalid_audience missing_expiry invalid_expiry expired : ClaimsError
  invalid_not_before not_yet_valid invalid_issued_at issued_in_future : ClaimsError
  invalid_subject invalid_identity invalid_scope insufficient_scope : ClaimsError
  invalid_roles unauthorized_role : ClaimsError

pub record ClaimsPolicy : Type 0 where
  pub issuer : Option Bytes
  pub audiences : Option Bytes
  pub required_scopes : Option Bytes
  pub identity_claim : Option Bytes
  pub role_claim : Option Bytes
  pub requested_role : Option Bytes
  pub current_time : ℤ
  pub clock_skew_seconds : ℕ
  pub max_identity_size : ℕ
  pub max_subject_size : ℕ
  pub max_audiences : ℕ
  pub max_scopes : ℕ
  pub max_roles : ℕ
  pub max_role_size : ℕ

abbrev pub null_or_empty : Option Bytes → Bool
null_or_empty none = true
null_or_empty (some s) = is_empty s

abbrev pub bytes_or_empty : Option Bytes → Bytes
bytes_or_empty none = []
bytes_or_empty (some s) = s

unfoldable pub valid_policy : ClaimsPolicy → Bool
valid_policy p =
    not (null_or_empty p.issuer)
    && not (null_or_empty p.audiences)
    && not (null_or_empty p.required_scopes)
    && not (null_or_empty p.identity_claim)
    && not (is_none p.role_claim)
    && not (is_negative p.current_time)
    && leb p.clock_skew_seconds 300
    && ltb 0 p.max_identity_size
    && ltb 0 p.max_subject_size
    && leb p.max_subject_size 1024
    && ltb 0 p.max_audiences
    && leb p.max_audiences 64
    && ltb 0 p.max_scopes
    && leb p.max_scopes 256
    && (null_or_empty p.role_claim
        || (not (null_or_empty p.requested_role)
            && ltb 0 p.max_roles
            && leb p.max_roles 256
            && ltb 0 p.max_role_size))

-- `valid_identity_string` on the bytes: an ASCII control, or the two bytes of U+0080 to U+009F
unfoldable pub has_control : Bytes → Bool
has_control [] = false
has_control (b ∷ []) = is_cntrl b
has_control (b ∷ c ∷ bs) =
    is_cntrl b || (b == 0xc2 && leb 0x80 c && leb c 0x9f) || has_control (c ∷ bs)

unfoldable pub valid_identity_string : Option Bytes → ℕ → Bool
valid_identity_string none maximum = false
valid_identity_string (some s) maximum =
    not (length s == 0 || ltb maximum (length s)) && not (has_control s)

abbrev pub has : List Bytes → Bytes → Bool
has xs x = any (λ y. bytes_eq y x) xs
