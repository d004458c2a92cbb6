-- ===== src/PolicyBuild/Parsed.antt =====
-- What the parsers of single settings establish.
use pg_oauth_validator.JwtEnvelope.Parse.{algorithm_named}
use Prim.Native.Nat.{bit_and, bit_or}
use pg_oauth_validator.Claims.AudienceSound.{audiences_of}
use pg_oauth_validator.PolicyBuild.Lists.{
  audiences_from, validate_audiences, bits_from, parse_algorithms, parse_token_types,
  token_type_named, hosts_from, validate_jwks_hosts, is_host_byte, begins_with, ends_with,
}
use pg_oauth_validator.PolicyBuild.Build.{outside}
use pg_oauth_validator.Base.{◌+◌}
use pg_oauth_validator.Base.{
  [], ◌∷◌, none, some, ℤ, Bytes, Bool, ℕ, not, ◌≡◌, is_empty, pos, ◌&&◌, ◌≤◌, any, is_cntrl, false,
  List, true, Option, arith, all, ◌≢◌, negsuc, map, trim, Bool-cases, is_space, ◌||◌, refl, suc,
  ◌==◌, ends_in_comma, ltb, inl, length, inr, entries_of, &&-eq-true, leb,
}

-- A nonnegative setting between two bounds.
abbrev pub Within : ℤ → ℕ → ℕ → Type 0
Within value low high = (n : ℕ) × (value ≡ pos n) × (low ≤ n) × (n ≤ high)

pub outside-Within :
    (value : ℤ) (low high : ℕ) → outside value low high ≡ false → Within value low high
outside-Within (pos n) low high h = (n, refl, ground arith, ground arith)
outside-Within (negsuc n) low high h = absurd (ground (arith, h))

abbrev pub clean : Bytes → Bool
clean a = not (is_empty a) && not (any is_cntrl a)

audiences_from-clean :
    (n : ℕ) (es : List Bytes)
    → audiences_from n es ≡ true
    → all clean (map (trim is_space) es) ≡ true
unfolding audiences_from
audiences_from-clean n [] h = refl
audiences_from-clean n (e ∷ es) h = ground (arith, audiences_from-clean (suc n) es)

pub validate_audiences-clean :
    (value : Bytes) → validate_audiences value ≡ true → all clean (audiences_of value) ≡ true
unfolding validate_audiences
validate_audiences-clean value h =
    audiences_from-clean 0 (entries_of value)
      (&&-eq-true (not (ends_in_comma value)) (audiences_from 0 (entries_of value)) h).1

bits_from-nonzero :
    (named : Bytes → ℕ) (r : ℕ) (es : List Bytes) {x : ℕ} → bits_from named r es ≡ some x → x ≢ 0
unfolding bits_from
bits_from-nonzero named r [] {x} h = ground (arith, h)
bits_from-nonzero named r (e ∷ es) {x} h =
    let bit = named (trim is_space e) in
    elim (Bool-cases (bit == 0)) [
      | inl a ↦ absurd (cc (rw a at h))
      | inr a ↦
          let h' = rw a at h in
          elim (Bool-cases (not (bit_and r bit == 0))) [
            | inl b ↦ absurd (cc (rw b at h'))
            | inr b ↦ bits_from-nonzero named (bit_or r bit) es (rw b at h')
          ]
    ]

pub parse_algorithms-nonzero : (v : Option Bytes) {x : ℕ} → parse_algorithms v ≡ some x → x ≢ 0
unfolding parse_algorithms
parse_algorithms-nonzero none h = absurd (cc h)
parse_algorithms-nonzero (some s) h = elim (Bool-cases (is_empty s || ends_in_comma s)) [
  | inl a ↦ absurd (cc (rw a at h))
  | inr a ↦ bits_from-nonzero algorithm_named 0 (entries_of s) (rw a at h)
]

pub parse_token_types-nonzero : (v : Option Bytes) {x : ℕ} → parse_token_types v ≡ some x → x ≢ 0
unfolding parse_token_types
parse_token_types-nonzero none h = absurd (cc h)
parse_token_types-nonzero (some s) h =
    elim (Bool-cases (is_empty s || ltb 64 (length s) || ends_in_comma s)) [
      | inl a ↦ absurd (cc (rw a at h))
      | inr a ↦ bits_from-nonzero token_type_named 0 (entries_of s) (rw a at h)
    ]

-- A host: letters, digits, dots and hyphens, with neither of the last two at an end.
abbrev pub host_name : Bytes → Bool
host_name h =
    not (is_empty h)
    && leb (length h) 253
    && all is_host_byte h
    && not (begins_with h b'.' || begins_with h b'-' || ends_with h b'.' || ends_with h b'-')

hosts_from-names :
    (n : ℕ) (es : List Bytes)
    → n ≤ 16
    → hosts_from n es ≡ true
    → (all host_name (map (trim is_space) es) ≡ true) × (n + length es ≤ 16)
unfolding hosts_from
hosts_from-names n [] le h = (refl, omega arith)
hosts_from-names n (e ∷ es) le h =
    let small : suc n ≤ 16 = ground (arith, h) in
    let rest : hosts_from (suc n) es ≡ true = ground (arith, h) in
    let tail = hosts_from-names (suc n) es small rest in
    (ground (arith, tail.0, h), ground (arith, tail.1))

pub validate_jwks_hosts-names :
    (value : Bytes)
    → validate_jwks_hosts (some value) ≡ true
    → (all host_name (map (trim is_space) (entries_of value)) ≡ true)
      × (length (entries_of value) ≤ 16)
unfolding validate_jwks_hosts
validate_jwks_hosts-names value h =
    let names =
      hosts_from-names 0 (entries_of value) (omega arith)
        (&&-eq-true (not (ends_in_comma value)) (hosts_from 0 (entries_of value)) h).1 in
    (names.0, omega (arith, names.1))
