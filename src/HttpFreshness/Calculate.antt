-- ===== src/HttpFreshness/Calculate.antt =====
-- `pg_oauth_http_freshness_calculate`.
use pg_oauth_validator.HttpFreshness.Headers.{CacheControl, parse_cache_control, parse_age}
use pg_oauth_validator.Base.{
  [], ℤ, ℕ, Option, Bytes, Bool, if◌then◌else◌, some, ltb, none, is_minus_one, pos, int64_max, ◌∷◌,
  ltb_ℤ, ◌/◌, ◌&&◌, ◌*◌, monus_ℤ, is_negative, not, leb, false, negsuc, ◌||◌, ◌-◌, true, magnitude,
}

pub record Policy : Type 0 where
  pub default_ttl_ms : ℤ
  pub maximum_ttl_ms : ℤ

pub record Freshness : Type 0 where
  pub ttl_ms : ℕ
  pub cacheable : Bool
  pub revalidation_required : Bool
  pub explicit_freshness : Bool

pub data Result : Type 0 where
  ok : Freshness → Result
  invalid_argument invalid_header : Result

pub record Headers : Type 0 where
  pub cache_control : Option Bytes
  pub date : Option Bytes
  pub expires : Option Bytes
  pub age : Option Bytes

unfoldable pub seconds_to_milliseconds : ℕ → ℕ
seconds_to_milliseconds seconds =
    if ltb (int64_max / 1000) seconds then int64_max else seconds * 1000

-- `header != NULL && header[0] != '\0'`
abbrev pub present : Option Bytes → Option Bytes
present none = none
present (some []) = none
present (some (b ∷ bs)) = some (b ∷ bs)

-- The freshness that the headers state, in seconds; a date that cannot be read is refused.
pub data Stated : Type 0 where
  stated : ℕ → Stated
  unstated bad_date : Stated

module _ (getdate : Bytes → ℤ) where
  unfoldable pub date_of : Bytes → Option ℤ
  date_of d = let t = getdate d in if is_minus_one t then none else some t

  unfoldable pub date_or : ℕ → Option Bytes → Option ℤ
  date_or response_time none = some (pos response_time)
  date_or response_time (some d) = date_of d

  -- `max-age`, or else `Expires` against `Date` or the time of the response
  unfoldable pub stated_freshness : CacheControl → ℕ → Headers → Stated
  stated_freshness control response_time h =
      if control.has_max_age then stated control.max_age_seconds else elim (present h.expires) [
        | none ↦ unstated
        | some e ↦ elim (date_of e) [
          | none ↦ bad_date
          | some expires_at ↦ elim (date_or response_time (present h.date)) [
            | none ↦ bad_date
            | some date_at ↦
                stated (if ltb_ℤ date_at expires_at then monus_ℤ expires_at date_at else 0)
          ]
        ]
      ]

  -- the age that the response claims, or the time since its date if that is more
  unfoldable pub apparent_age : ℕ → ℕ → Option Bytes → Option ℕ
  apparent_age response_time age none = some age
  apparent_age response_time age (some d) = elim (date_of d) [
    | none ↦ none
    | some date_at ↦ some (
        if ltb_ℤ date_at (pos response_time) && ltb age (monus_ℤ (pos response_time) date_at)
        then monus_ℤ (pos response_time) date_at
        else age)
  ]

-- the default and the maximum time to live
unfoldable pub limits : Policy → Option (ℕ × ℕ)
limits p =
    if is_negative p.default_ttl_ms
      || is_negative p.maximum_ttl_ms
      || ltb_ℤ p.maximum_ttl_ms p.default_ttl_ms
    then none
    else some (magnitude p.default_ttl_ms, magnitude p.maximum_ttl_ms)

unfoldable pub freshness_of : CacheControl → Bool → ℕ → ℕ → Freshness
freshness_of control explicit ttl maximum =
    let capped = if ltb maximum ttl then maximum else ttl in
    record {
      ttl_ms = if control.no_cache then 0 else capped;
      cacheable = not control.no_store;
      revalidation_required = control.no_cache || control.must_revalidate;
      explicit_freshness = explicit;
    }

unfoldable pub remaining_ms : ℕ → ℕ → ℕ
remaining_ms apparent freshness =
    if leb freshness apparent then 0 else seconds_to_milliseconds (freshness - apparent)

module _ (getdate : Bytes → ℤ) where
  -- the headers that could be parsed, against the limits of a valid policy
  unfoldable pub calculate_parsed : CacheControl → ℕ → Headers → ℕ → ℕ → ℕ → Result
  calculate_parsed control age h response_time default maximum =
      elim (stated_freshness getdate control response_time h) [
        | bad_date ↦ invalid_header
        | unstated ↦ ok (freshness_of control false default maximum)
        | stated seconds ↦ elim (apparent_age getdate response_time age (present h.date)) [
          | none ↦ invalid_header
          | some apparent ↦ ok (freshness_of control true (remaining_ms apparent seconds) maximum)
        ]
      ]

  unfoldable pub calculate_headers : Headers → ℕ → ℕ → ℕ → Result
  calculate_headers h response_time default maximum = elim (parse_cache_control h.cache_control) [
    | none ↦ invalid_header
    | some control ↦ elim (parse_age h.age) [
      | none ↦ invalid_header
      | some age ↦ calculate_parsed control age h response_time default maximum
    ]
  ]

  unfoldable pub calculate : Headers → ℤ → Option Policy → Result
  calculate h response_time none = invalid_argument
  calculate h (negsuc _) (some policy) = invalid_argument
  calculate h (pos response_time) (some policy) = elim (limits policy) [
    | none ↦ invalid_argument
    | some (default, maximum) ↦ calculate_headers h response_time default maximum
  ]
