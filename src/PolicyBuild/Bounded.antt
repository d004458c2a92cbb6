-- ===== src/PolicyBuild/Bounded.antt =====
-- What a policy that is built has.
use pg_oauth_validator.PolicyBuild.Parsed.{
  Within, outside-Within, validate_audiences-clean, parse_algorithms-nonzero,
  parse_token_types-nonzero, clean, host_name, validate_jwks_hosts-names,
}
use pg_oauth_validator.Claims.Policy.{bytes_or_empty, null_or_empty}
use pg_oauth_validator.Claims.AudienceSound.{audiences_of}
use pg_oauth_validator.PolicyBuild.Lists.{
  validate_audiences, parse_algorithms, parse_token_types, validate_claim_name, validate_jwks_hosts,
}
use pg_oauth_validator.PolicyBuild.Build.{
  outside, PolicyError, PolicyConfig, differs, build_rest, PolicyResult, HbaPolicy,
  bad_cache_policy, ValidationPolicy, policy_ok, policy_refused, invalid_authn_claim,
  bad_role_claim, invalid_role_claim, delegation_mismatch, invalid_jwks_hosts, bad_ca_file,
  invalid_ca_file, invalid_clock_skew, invalid_token_size, invalid_cache_policy, policy_build,
  missing_issuer, missing_scopes, bad_name, unknown_policy, missing_audience, invalid_audiences,
}
use pg_oauth_validator.Base.{
  ◌<◌, [], ◌∷◌, none, some, Bytes, Bool, not, ◌≡◌, is_empty, pos, false, true, Option, arith, all,
  ◌≢◌, if◌then◌else◌, ◌||◌, refl, inl, length, inr, ltb_ℤ, sym, Option-cases, text, subst, ap, ◌⊎◌,
  ℤ, ◌≤◌, any, ℕ, bytes_eq, is_cntrl, negsuc, map, trim, is_space, entries_of,
}

guarded :
    (bad : Bool) (e : PolicyError) (y : PolicyResult) {v : ValidationPolicy}
    → (if bad then policy_refused e else y) ≡ policy_ok v
    → (bad ≡ false) × (y ≡ policy_ok v)
guarded true e y h = absurd (cc h)
guarded false e y h = (refl, h)

-- The settings, all of them in range.
pub record Settings (c : PolicyConfig) (h : HbaPolicy) : Type 0 where
  pub identity_named : validate_claim_name (bytes_or_empty c.identity_claim) ≡ true
  pub role_named :
      (role : Bytes) × (c.role_claim ≡ some role)
      × ((role ≡ []) ⊎ (validate_claim_name role ≡ true))
  pub hosts_listed :
      (value : Bytes)
      → c.allowed_jwks_hosts ≡ some value
      → (all host_name (map (trim is_space) (entries_of value)) ≡ true)
        × (length (entries_of value) ≤ 16)
  pub ca_file_given :
      (file : Bytes) × (c.ca_file ≡ some file) × (length file ≤ 2048) × (any is_cntrl file ≡ false)
  pub delegation_agrees : h.delegate_ident_mapping ≡ not (is_empty (bytes_or_empty c.role_claim))
  pub skew_within : Within c.clock_skew_ms 0 300000
  pub token_size_within : Within c.max_token_size 1024 65536
  pub metadata_ttl_within : Within c.metadata_default_ttl_ms 1000 3600000
  pub jwks_ttl_within : Within c.jwks_default_ttl_ms 1000 3600000
  pub maximum_above :
      (ltb_ℤ c.cache_max_ttl_ms c.metadata_default_ttl_ms ≡ false)
      × (ltb_ℤ c.cache_max_ttl_ms c.jwks_default_ttl_ms ≡ false)
  pub maximum_within : Within c.cache_max_ttl_ms 1000 86400000
  pub grace_within : Within c.jwks_stale_grace_ms 0 3600000
  pub cooldown_within : Within c.unknown_kid_refresh_cooldown_ms 1000 300000
  pub wait_within : Within c.refresh_wait_timeout_ms 0 5000

none_true :
    (a b c d e f g h : Bool)
    → (a || b || c || d || e || f || g || h) ≡ false
    → (a ≡ false)
      × (b ≡ false)
      × (c ≡ false)
      × (d ≡ false)
      × (e ≡ false)
      × (f ≡ false)
      × (g ≡ false)
      × (h ≡ false)
none_true a b c d e f g h x = ground arith

cache_settings :
    (c : PolicyConfig)
    → bad_cache_policy c ≡ false
    → (outside c.metadata_default_ttl_ms 1000 3600000 ≡ false)
      × (outside c.jwks_default_ttl_ms 1000 3600000 ≡ false)
      × (ltb_ℤ c.cache_max_ttl_ms c.metadata_default_ttl_ms ≡ false)
      × (ltb_ℤ c.cache_max_ttl_ms c.jwks_default_ttl_ms ≡ false)
      × (ltb_ℤ (pos 86400000) c.cache_max_ttl_ms ≡ false)
      × (outside c.jwks_stale_grace_ms 0 3600000 ≡ false)
      × (outside c.unknown_kid_refresh_cooldown_ms 1000 300000 ≡ false)
      × (outside c.refresh_wait_timeout_ms 0 5000 ≡ false)
unfolding bad_cache_policy
cache_settings c x =
    none_true (outside c.metadata_default_ttl_ms 1000 3600000)
      (outside c.jwks_default_ttl_ms 1000 3600000)
      (ltb_ℤ c.cache_max_ttl_ms c.metadata_default_ttl_ms)
      (ltb_ℤ c.cache_max_ttl_ms c.jwks_default_ttl_ms) (ltb_ℤ (pos 86400000) c.cache_max_ttl_ms)
      (outside c.jwks_stale_grace_ms 0 3600000)
      (outside c.unknown_kid_refresh_cooldown_ms 1000 300000)
      (outside c.refresh_wait_timeout_ms 0 5000) x

-- A limit above one that is within bounds, and itself below another one.
between :
    (value limit : ℤ) (low high most : ℕ)
    → Within value low high
    → ltb_ℤ limit value ≡ false
    → ltb_ℤ (pos most) limit ≡ false
    → Within limit low most
between value (pos m) low high most (n, e, l, h) above below =
    (m, refl, ground (arith, rw e at above), ground arith)
between value (negsuc m) low high most (n, e, l, h) above below =
    absurd (ground (arith, rw e at above))

role_claim_lem :
    (o : Option Bytes)
    → bad_role_claim o ≡ false
    → (role : Bytes) × (o ≡ some role) × ((role ≡ []) ⊎ (validate_claim_name role ≡ true))
unfolding bad_role_claim
role_claim_lem none h = absurd (cc h)
role_claim_lem (some []) h = ([], refl, inl refl)
role_claim_lem (some (b ∷ bs)) h = (b ∷ bs, refl, inr (ground (arith, h)))

ca_file_lem :
    (o : Option Bytes)
    → bad_ca_file o ≡ false
    → (file : Bytes) × (o ≡ some file) × (length file ≤ 2048) × (any is_cntrl file ≡ false)
unfolding bad_ca_file
ca_file_lem none h = absurd (cc h)
ca_file_lem (some file) h = (file, refl, ground (arith, h), ground (arith, h))

agrees : (a b : Bool) → differs a b ≡ false → a ≡ b
agrees a b h = ground arith

build_rest-Settings :
    (c : PolicyConfig) (h : HbaPolicy) (p : ValidationPolicy) {v : ValidationPolicy}
    → build_rest c h p ≡ policy_ok v
    → Settings c h × (p ≡ v)
unfolding build_rest
build_rest-Settings c h p {v} e =
    let role = not (is_empty (bytes_or_empty c.role_claim)) in
    let e1 =
      guarded (not (validate_claim_name (bytes_or_empty c.identity_claim))) invalid_authn_claim _
        e in
    let e2 = guarded (bad_role_claim c.role_claim) invalid_role_claim _ e1.1 in
    let e3 = guarded (differs h.delegate_ident_mapping role) delegation_mismatch _ e2.1 in
    let e4 = guarded (not (validate_jwks_hosts c.allowed_jwks_hosts)) invalid_jwks_hosts _ e3.1 in
    let e5 = guarded (bad_ca_file c.ca_file) invalid_ca_file _ e4.1 in
    let e6 = guarded (outside c.clock_skew_ms 0 300000) invalid_clock_skew _ e5.1 in
    let e7 = guarded (outside c.max_token_size 1024 65536) invalid_token_size _ e6.1 in
    let e8 = guarded (bad_cache_policy c) invalid_cache_policy (policy_ok p) e7.1 in
    let same : p ≡ v = cc e8.1 in
    let cache = cache_settings c e8.0 in
    let settings : Settings c h = record {
      identity_named = ground (arith, e1.0);
      role_named = role_claim_lem c.role_claim e2.0;
      hosts_listed = λ value given_as. validate_jwks_hosts-names value (
          subst (λ (o : Option Bytes). validate_jwks_hosts o ≡ true) given_as
            (ground (arith, e4.0)));
      ca_file_given = ca_file_lem c.ca_file e5.0;
      delegation_agrees = agrees h.delegate_ident_mapping role e3.0;
      skew_within = outside-Within c.clock_skew_ms 0 300000 e6.0;
      token_size_within = outside-Within c.max_token_size 1024 65536 e7.0;
      metadata_ttl_within = outside-Within c.metadata_default_ttl_ms 1000 3600000 cache.0;
      jwks_ttl_within = outside-Within c.jwks_default_ttl_ms 1000 3600000 cache.1;
      maximum_above = (cache.2, cache.3);
      maximum_within =
          between c.metadata_default_ttl_ms c.cache_max_ttl_ms 1000 3600000 86400000
            (outside-Within c.metadata_default_ttl_ms 1000 3600000 cache.0) cache.2 cache.4;
      grace_within = outside-Within c.jwks_stale_grace_ms 0 3600000 cache.5;
      cooldown_within = outside-Within c.unknown_kid_refresh_cooldown_ms 1000 300000 cache.6;
      wait_within = outside-Within c.refresh_wait_timeout_ms 0 5000 cache.7;
    } in
    (settings, same)

-- The sources of a policy: a rule with an issuer and scopes, audiences that are clean texts, at
-- least one algorithm and one token type, and settings in range.
pub record Complete (c : PolicyConfig) (h : HbaPolicy) (v : ValidationPolicy) : Type 0 where
  pub issuer_is : (h.issuer ≡ some v.issuer) × (0 < length v.issuer)
  pub scopes_is : (h.required_scopes ≡ some v.required_scopes) × (0 < length v.required_scopes)
  pub name_known :
      (h.policy_name ≡ none)
      ⊎ (h.policy_name ≡ some [])
      ⊎ ((n : Bytes) × (h.policy_name ≡ some n) × (bytes_eq n (text "default") ≡ true))
  pub audiences_given : null_or_empty c.audiences ≡ false
  pub audiences_clean : all clean (audiences_of (bytes_or_empty c.audiences)) ≡ true
  pub algorithms_given :
      (parse_algorithms c.allowed_algorithms ≡ some v.algorithms) × (v.algorithms ≢ 0)
  pub types_given :
      (parse_token_types c.allowed_token_types ≡ some v.token_types) × (v.token_types ≢ 0)
  pub config_is : v.config ≡ c
  pub settings : Settings c h

name_lem :
    (o : Option Bytes)
    → bad_name o ≡ false
    → (o ≡ none)
      ⊎ (o ≡ some [])
      ⊎ ((n : Bytes) × (o ≡ some n) × (bytes_eq n (text "default") ≡ true))
unfolding bad_name
name_lem none h = inl refl
name_lem (some []) h = inr (inl refl)
name_lem (some (b ∷ bs)) h = inr (inr (b ∷ bs, refl, ground (arith, h)))

given :
    (o : Option Bytes) (s : Bytes)
    → null_or_empty o ≡ false
    → bytes_or_empty o ≡ s
    → (o ≡ some s) × (0 < length s)
given none s h e = absurd (cc h)
given (some []) s h e = absurd (cc h)
given (some (b ∷ bs)) s h e = (ap some e, subst (λ y. 0 < length y) e (omega arith))

complete :
    (c : PolicyConfig) (h : HbaPolicy) (p v : ValidationPolicy)
    → null_or_empty h.issuer ≡ false
    → null_or_empty h.required_scopes ≡ false
    → bad_name h.policy_name ≡ false
    → null_or_empty c.audiences ≡ false
    → validate_audiences (bytes_or_empty c.audiences) ≡ true
    → parse_algorithms c.allowed_algorithms ≡ some p.algorithms
    → parse_token_types c.allowed_token_types ≡ some p.token_types
    → p.issuer ≡ bytes_or_empty h.issuer
    → p.required_scopes ≡ bytes_or_empty h.required_scopes
    → p.config ≡ c
    → Settings c h × (p ≡ v)
    → Complete c h v
complete c h p v i s n g a al ty pi ps pc (settings, same) =
    let whole : Complete c h p = record {
      issuer_is = given h.issuer p.issuer i (sym pi);
      scopes_is = given h.required_scopes p.required_scopes s (sym ps);
      name_known = name_lem h.policy_name n;
      audiences_given = g;
      audiences_clean = validate_audiences-clean (bytes_or_empty c.audiences) a;
      algorithms_given = (al, parse_algorithms-nonzero c.allowed_algorithms al);
      types_given = (ty, parse_token_types-nonzero c.allowed_token_types ty);
      config_is = pc;
      settings = settings;
    } in
    subst (Complete c h) same whole

-- A policy is built only from a rule with an issuer and scopes, under no policy name or the default
-- one, and from settings in range: audiences that are given and clean texts, known algorithms and
-- token types, at least one of each, a valid identity claim, a role claim that is empty or valid and
-- a CA file of at most 2048 bytes with no control character, both of them given, and, where hosts are
-- listed, at most 16 host names; times, sizes and grace periods within their fixed bounds, with the
-- largest time to live between the defaults and a day; and role checks are on exactly where the rule
-- delegates the mapping.
pub policy_build-Complete :
    (c : PolicyConfig) (h : HbaPolicy) {v : ValidationPolicy}
    → policy_build (some c) (some h) ≡ policy_ok v
    → Complete c h v
unfolding policy_build
policy_build-Complete c h {v} e =
    let e1 = guarded (null_or_empty h.issuer) missing_issuer _ e in
    let e2 = guarded (null_or_empty h.required_scopes) missing_scopes _ e1.1 in
    let e3 = guarded (bad_name h.policy_name) unknown_policy _ e2.1 in
    let e4 = guarded (null_or_empty c.audiences) missing_audience _ e3.1 in
    let e5 =
      guarded (not (validate_audiences (bytes_or_empty c.audiences))) invalid_audiences _ e4.1 in
    elim (Option-cases (parse_algorithms c.allowed_algorithms)) [
      | inl a ↦ absurd (cc (rw (a, policy_build) at e5.1))
      | inr (algorithms, a) ↦ elim (Option-cases (parse_token_types c.allowed_token_types)) [
        | inl t ↦ absurd (cc (rw (a, t, policy_build) at e5.1))
        | inr (types, t) ↦
            let p : ValidationPolicy = record {
              name = text "default";
              issuer = bytes_or_empty h.issuer;
              required_scopes = bytes_or_empty h.required_scopes;
              token_types = types;
              algorithms = algorithms;
              config = c;
            } in
            complete c h p v e1.0 e2.0 e3.0 e4.0 (ground (arith, e5.0)) a t refl refl refl
              (build_rest-Settings c h p (rw (a, t, policy_build) at e5.1))
      ]
    ]
