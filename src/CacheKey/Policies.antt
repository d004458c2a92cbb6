-- ===== src/CacheKey/Policies.antt =====
-- A key names one policy, and the cache takes every key that is built.
use pg_oauth_validator.CacheKey.Width.{length-u32_bytes}
use pg_oauth_validator.CacheState.Types.{max_key_size, valid_key}
use pg_oauth_validator.CacheKey.Injective.{AllAlike, Fits, encode_all-injective}
use pg_oauth_validator.CacheKey.Layout.{encode, encode_all, build_lem}
use pg_oauth_validator.Base.{
  [], ◌∷◌, ◌<◌, Bytes, List, Bool, ◌^◌, length, All, ◌≡◌, false, arith, some, ◌++◌, ◌≤◌,
  length-append, if◌then◌else◌, leb, ◌==◌, Option, is_none, true, leb→le, sym, ◌∙◌, refl, none, ap,
}
use pg_oauth_validator.CacheKey.Build.{
  Item, raw, u8, u32, u64, string, KeyPolicy, bad_policy, items_of, bit, build, key_ok, u32_bytes,
  or_empty, key_invalid_argument, key_too_large,
}

-- The widths of the C types.
pub record Widths (p : KeyPolicy) : Type 0 where
  pub token_types_width : p.allowed_token_types < 2 ^ 8
  pub algorithms_width : p.allowed_algorithms < 2 ^ 32
  pub skew_width : p.clock_skew_ms < 2 ^ 32
  pub token_size_width : p.max_token_size < 2 ^ 32
  pub metadata_size_width : p.max_metadata_size < 2 ^ 32
  pub jwks_size_width : p.max_jwks_size < 2 ^ 32
  pub jwks_keys_width : p.max_jwks_keys < 2 ^ 32
  pub minimum_width : p.minimum_rsa_bits < 2 ^ 32
  pub maximum_width : p.maximum_rsa_bits < 2 ^ 32
  pub grace_width : p.jwks_stale_grace_ms < 2 ^ 64
  pub metadata_ttl_width : p.metadata_default_ttl_ms < 2 ^ 64
  pub jwks_ttl_width : p.jwks_default_ttl_ms < 2 ^ 64
  pub max_ttl_width : p.cache_max_ttl_ms < 2 ^ 64
  pub cooldown_width : p.unknown_kid_refresh_cooldown_ms < 2 ^ 64

-- What the types bound by themselves: all but the lengths of texts.
abbrev Ranged : Item → Type 0
Ranged (string s) = Unit {0}
Ranged (raw b) = Unit {0}
Ranged (u8 n) = n < 256
Ranged (u32 n) = n < 2 ^ 32
Ranged (u64 n) = n < 2 ^ 64

Ranged-Fits : (x : Item) (r : Bytes) → Ranged x → length (encode x ++ r) ≤ max_key_size → Fits x
Ranged-Fits (raw b) r h l = tt
Ranged-Fits (u8 n) r h l = h
Ranged-Fits (u32 n) r h l = h
Ranged-Fits (u64 n) r h l = h
Ranged-Fits (string s) r h l = omega (
  arith,
  length-append (u32_bytes (length s) ++ s) r,
  length-append (u32_bytes (length s)) s,
  length-u32_bytes (length s),
)

AllRanged-Fits :
    (xs : List Item) → All Ranged xs → length (encode_all xs) ≤ max_key_size → All Fits xs
AllRanged-Fits [] h l = tt
AllRanged-Fits (x ∷ xs) h l = (
  Ranged-Fits x (encode_all xs) h.0 l,
  AllRanged-Fits xs h.1 (omega (arith, length-append (encode x) (encode_all xs))),
)

bad_policy-resource : (p : KeyPolicy) → bad_policy p ≡ false → p.resource < 256
unfolding bad_policy
bad_policy-resource p h = ground arith

bit-range : (b : Bool) → bit b < 256
bit-range b = ground arith

items_of-Ranged : (p : KeyPolicy) → Widths p → bad_policy p ≡ false → All Ranged (items_of p)
unfolding items_of
items_of-Ranged p w h = ground (
  arith,
  bad_policy-resource p h,
  bit-range p.allow_missing_token_type,
  bit-range p.allow_insecure_http,
)

items_of-AllAlike : (p q : KeyPolicy) → AllAlike (items_of p) (items_of q)
unfolding items_of
items_of-AllAlike p q = ground arith

only_ok :
    (bad small : Bool) (x k : Bytes)
    → (if bad then key_invalid_argument else if small then key_ok x else key_too_large) ≡ key_ok k
    → (bad ≡ false) × (small ≡ true) × (x ≡ k)
only_ok true small x k h = cc
only_ok false true x k h = (refl, refl, cc h)
only_ok false false x k h = cc

built :
    (p : KeyPolicy) {k : Bytes}
    → build (some p) ≡ key_ok k
    → (bad_policy p ≡ false)
      × (leb (length (encode_all (items_of p))) max_key_size ≡ true)
      × (encode_all (items_of p) ≡ k)
built p {k} h = only_ok _ _ _ k (sym (build_lem p) ∙ h)

built-items_of :
    (p q : KeyPolicy) {k : Bytes}
    → Widths p
    → Widths q
    → build (some p) ≡ key_ok k
    → build (some q) ≡ key_ok k
    → items_of p ≡ items_of q
built-items_of p q {k} wp wq hp hq =
    let (bp, lp, ep) = built p hp in
    let (bq, lq, eq) = built q hq in
    encode_all-injective (items_of p) (items_of q) (items_of-AllAlike p q)
      (AllRanged-Fits (items_of p) (items_of-Ranged p wp bp) (leb→le _ _ lp))
      (AllRanged-Fits (items_of q) (items_of-Ranged q wq bq) (leb→le _ _ lq)) (ep ∙ sym eq)

policy_of : List Item → KeyPolicy → KeyPolicy
policy_of
      (raw m
        ∷ u8 v
        ∷ u8 r
        ∷ string i
        ∷ string mu
        ∷ string ju
        ∷ string pn
        ∷ string rs
        ∷ string au
        ∷ u8 tt'
        ∷ u8 am
        ∷ string ic
        ∷ string rc
        ∷ string hs
        ∷ string ca
        ∷ u32 al
        ∷ u32 sk
        ∷ u32 ts
        ∷ u32 ms
        ∷ u32 js
        ∷ u32 jk
        ∷ u32 mi
        ∷ u32 ma
        ∷ u64 gr
        ∷ u64 mt
        ∷ u64 jt
        ∷ u64 ct
        ∷ u64 co
        ∷ u8 ht
        ∷ [])
      d =
    record {
      resource = r;
      issuer = some i;
      metadata_url = some mu;
      jwks_url = some ju;
      policy_name = some pn;
      required_scopes = some rs;
      audiences = some au;
      allowed_token_types = tt';
      allow_missing_token_type = am == 1;
      identity_claim = some ic;
      role_claim = some rc;
      allowed_jwks_hosts = some hs;
      ca_file = some ca;
      allowed_algorithms = al;
      clock_skew_ms = sk;
      max_token_size = ts;
      max_metadata_size = ms;
      max_jwks_size = js;
      max_jwks_keys = jk;
      minimum_rsa_bits = mi;
      maximum_rsa_bits = ma;
      jwks_stale_grace_ms = gr;
      metadata_default_ttl_ms = mt;
      jwks_default_ttl_ms = jt;
      cache_max_ttl_ms = ct;
      unknown_kid_refresh_cooldown_ms = co;
      allow_insecure_http = ht == 1;
    }
policy_of _ d = d

-- The policy with the empty text for a key set URL that is NULL, which a metadata key may have.
abbrev pub with_jwks_url : KeyPolicy → KeyPolicy
with_jwks_url p = record p { jwks_url = some (or_empty p.jwks_url) }

bit_lem : (b : Bool) → (bit b == 1) ≡ b
bit_lem b = ground arith

some-or_empty : (o : Option Bytes) → is_none o ≡ false → some (or_empty o) ≡ o
some-or_empty none h = cc
some-or_empty (some s) h = refl

record Texts (p : KeyPolicy) : Type 0 where
  issuer_is : is_none p.issuer ≡ false
  metadata_url_is : is_none p.metadata_url ≡ false
  policy_name_is : is_none p.policy_name ≡ false
  scopes_is : is_none p.required_scopes ≡ false
  audiences_is : is_none p.audiences ≡ false
  identity_is : is_none p.identity_claim ≡ false
  role_is : is_none p.role_claim ≡ false
  hosts_is : is_none p.allowed_jwks_hosts ≡ false
  ca_is : is_none p.ca_file ≡ false

bad_policy-Texts : (p : KeyPolicy) → bad_policy p ≡ false → Texts p
unfolding bad_policy
bad_policy-Texts p h = ground arith

policy_of-items_of : (p d : KeyPolicy) → Texts p → policy_of (items_of p) d ≡ with_jwks_url p
unfolding items_of policy_of
policy_of-items_of p d t = cc (
  some-or_empty p.issuer t.issuer_is,
  some-or_empty p.metadata_url t.metadata_url_is,
  some-or_empty p.policy_name t.policy_name_is,
  some-or_empty p.required_scopes t.scopes_is,
  some-or_empty p.audiences t.audiences_is,
  some-or_empty p.identity_claim t.identity_is,
  some-or_empty p.role_claim t.role_is,
  some-or_empty p.allowed_jwks_hosts t.hosts_is,
  some-or_empty p.ca_file t.ca_is,
  bit_lem p.allow_missing_token_type,
  bit_lem p.allow_insecure_http,
)

-- Two policies, with fields in the range of their C types, whose keys are built and are the same,
-- agree in every field, where a NULL key set URL counts as empty.
pub build-injective :
    (p q : KeyPolicy) {k : Bytes}
    → Widths p
    → Widths q
    → build (some p) ≡ key_ok k
    → build (some q) ≡ key_ok k
    → with_jwks_url p ≡ with_jwks_url q
build-injective p q wp wq hp hq =
    sym (policy_of-items_of p p (bad_policy-Texts p (built p hp).0))
    ∙ ap (λ xs. policy_of xs p) (built-items_of p q wp wq hp hq)
    ∙ policy_of-items_of q p (bad_policy-Texts q (built q hq).0)

items_of-long : (p : KeyPolicy) → 0 < length (encode_all (items_of p))
unfolding items_of
items_of-long p = omega arith

-- Every key that is built is one that the cache accepts: not empty, and of at most 4096 bytes.
pub build-valid_key : (p : KeyPolicy) {k : Bytes} → build (some p) ≡ key_ok k → valid_key k ≡ true
unfolding valid_key
build-valid_key p {k} h = let (b, l, e) = built p h in rw (← e, l) (ground (arith, items_of-long p))
