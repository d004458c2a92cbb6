-- ===== src/HttpFreshness/Bounds.antt =====
-- The result is within the policy, and obeys the directives that forbid caching.
use pg_oauth_validator.HttpFreshness.Calculate.{
  freshness_of, Stated, calculate_parsed, calculate_headers, limits, calculate, Headers, Policy,
  Freshness, Result, stated_freshness, ok, stated, invalid_argument, unstated, apparent_age,
  bad_date, present, remaining_ms, invalid_header,
}
use pg_oauth_validator.HttpFreshness.Headers.{CacheControl, parse_cache_control, parse_age}
use pg_oauth_validator.HttpFreshness.Directives.{says, parse_cache_control-says}
use pg_oauth_validator.Base.{◌∙◌, ap, text, Option}
use pg_oauth_validator.Base.{
  Bytes, ℤ, ℕ, Bool, arith, ◌≡◌, ◌≤◌, inl, some, not, ◌⊎◌, Option-cases, magnitude, ◌||◌, negsuc,
  true, inr, pos, subst, refl, false,
}

-- What three flags and the maximum make of every result.
record ObeysFlags (store cache revalidate : Bool) (maximum : ℕ) (f : Freshness) : Type 0 where
  capped : f.ttl_ms ≤ maximum
  storable : f.cacheable ≡ not store
  revalidated : f.revalidation_required ≡ (cache || revalidate)
  expired : cache ≡ true → f.ttl_ms ≡ 0

-- What the directives of the header and the maximum make of every result.
pub record Obeys (header : Option Bytes) (maximum : ℕ) (f : Freshness) : Type 0 where
  pub capped : f.ttl_ms ≤ maximum
  pub storable : f.cacheable ≡ not (says (text "no-store") header)
  pub revalidated :
      f.revalidation_required
      ≡ (says (text "no-cache") header || says (text "must-revalidate") header)
  pub expired : says (text "no-cache") header ≡ true → f.ttl_ms ≡ 0

abbrev ObeysResult : CacheControl → ℕ → Result → Type 0
ObeysResult control maximum (ok f) =
    ObeysFlags control.no_store control.no_cache control.must_revalidate maximum f
ObeysResult control maximum invalid_argument = Unit {0}
ObeysResult control maximum invalid_header = Unit {0}

freshness_of-Obeys :
    (control : CacheControl) (explicit : Bool) (ttl maximum : ℕ)
    → ObeysFlags control.no_store control.no_cache control.must_revalidate maximum
        (freshness_of control explicit ttl maximum)
unfolding freshness_of
freshness_of-Obeys control explicit ttl maximum = ground arith

Stated-cases : (s : Stated) → ((n : ℕ) × (s ≡ stated n)) ⊎ (s ≡ unstated) ⊎ (s ≡ bad_date)
Stated-cases (stated n) = inl (n, refl)
Stated-cases unstated = inr (inl refl)
Stated-cases bad_date = inr (inr refl)

module _ (getdate : Bytes → ℤ) where
  calculate_parsed-Obeys :
      (control : CacheControl) (age : ℕ) (h : Headers) (t default maximum : ℕ)
      → ObeysResult control maximum (calculate_parsed getdate control age h t default maximum)
  unfolding calculate_parsed
  calculate_parsed-Obeys control age h t default maximum =
      elim (Stated-cases (stated_freshness getdate control t h)) [
        | inl (n, e) ↦ elim (Option-cases (apparent_age getdate t age (present h.date))) [
          | inl a ↦ rw (e, calculate_parsed, a) tt
          | inr (x, a) ↦
              rw (e, calculate_parsed, a)
                (freshness_of-Obeys control true (remaining_ms x n) maximum)
        ]
        | inr (inl e) ↦ rw (e, calculate_parsed) (freshness_of-Obeys control false default maximum)
        | inr (inr e) ↦ rw (e, calculate_parsed) tt
      ]

  calculate_headers-Obeys :
      (control : CacheControl) (h : Headers) (t default maximum : ℕ)
      → parse_cache_control h.cache_control ≡ some control
      → ObeysResult control maximum (calculate_headers getdate h t default maximum)
  unfolding calculate_headers
  calculate_headers-Obeys control h t default maximum e = elim (Option-cases (parse_age h.age)) [
    | inl a ↦ rw (e, calculate_headers, a) tt
    | inr (age, a) ↦
        rw (e, calculate_headers, a) (calculate_parsed-Obeys control age h t default maximum)
  ]

  limits_lem :
      (p : Policy) (d m : ℕ) → limits p ≡ some (d, m) → (m ≡ magnitude p.maximum_ttl_ms) × (d ≤ m)
  unfolding limits
  limits_lem p d m h = ground arith

  parsed_header :
      (h : Headers) (t default maximum : ℕ) {f : Freshness}
      → calculate_headers getdate h t default maximum ≡ ok f
      → (control : CacheControl) × (parse_cache_control h.cache_control ≡ some control)
  unfolding calculate_headers
  parsed_header h t default maximum e = elim (Option-cases (parse_cache_control h.cache_control)) [
    | inl n ↦ absurd (cc (rw (n, calculate_headers) at e))
    | inr (control, k) ↦ (control, k)
  ]

  flags-Obeys :
      (value : Option Bytes) (control : CacheControl) (maximum : ℕ) (f : Freshness)
      → parse_cache_control value ≡ some control
      → ObeysFlags control.no_store control.no_cache control.must_revalidate maximum f
      → Obeys value maximum f
  flags-Obeys value control maximum f e o =
      let (store, cache, revalidate) = parse_cache_control-says value e in
      record {
        capped = o.capped;
        storable = o.storable ∙ ap not store;
        revalidated = rw (← cache, ← revalidate) o.revalidated;
        expired = λ h. o.expired (cache ∙ h);
      }

  -- Where a freshness is calculated, whatever the other headers say, its time to live is at most the
  -- policy's maximum; the response is cacheable exactly if no entry of its Cache-Control header is
  -- no-store; it must be revalidated exactly if one is no-cache or must-revalidate; and no-cache
  -- leaves it no time to live. An entry stands between two commas, its name before an equals sign,
  -- without blanks around it and in any case of its letters.
  pub calculate-Obeys :
      (h : Headers) (t : ℤ) (p : Policy) {f : Freshness}
      → calculate getdate h t (some p) ≡ ok f
      → Obeys h.cache_control (magnitude p.maximum_ttl_ms) f
  unfolding calculate
  calculate-Obeys h (negsuc n) p r = absurd (cc r)
  calculate-Obeys h (pos t) p {f} r = elim (Option-cases (limits p)) [
    | inl l ↦ absurd (cc (rw (l, calculate) at r))
    | inr ((d, m), l) ↦
        let r' = rw (l, calculate) at r in
        let (control, e) = parsed_header h t d m r' in
        flags-Obeys h.cache_control control (magnitude p.maximum_ttl_ms) f e (
          rw (← (limits_lem p d m l).0)
            (subst (ObeysResult control m) r' (calculate_headers-Obeys control h t d m e)))
  ]
