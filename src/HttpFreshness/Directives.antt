-- ===== src/HttpFreshness/Directives.antt =====
-- Which directives a Cache-Control header has, and what the parser makes of them.
use pg_oauth_validator.HttpFreshness.Headers.{
  CacheControl, parse_cache_control, control_entries, control_entry, directive, directive_name,
  max_age, no_control, unless_argument, decimal, unquote, is_visible,
}
use pg_oauth_validator.Base.ByteString.{eq_of_bytes_eq}
use pg_oauth_validator.Base.{
  [], ◌∷◌, none, some, true, false, Bytes, Option, List, Bool, ◌≡◌, ◌||◌, any, text, trim, is_blank,
  skip_back, before, behind, eq_ignore_case, entries_of, refl, inl, inr, Bool-cases, Option-cases,
  arith, bytes_eq, map, lower, is_empty, not, all, if◌then◌else◌,
}

-- The name in an entry between two commas: what stands before an equals sign, without blanks.
abbrev pub name_in : Bytes → Bytes
name_in entry = skip_back is_blank (before b'=' (trim is_blank entry))

-- An entry of the header has the name, in any case of its letters.
abbrev pub says : Bytes → Option Bytes → Bool
says name none = false
says name (some value) = any (λ e. eq_ignore_case (name_in e) name) (entries_of value)

-- The three flags after some entries, from those before them.
abbrev Flags : CacheControl → CacheControl → (store cache revalidate : Bool) → Type 0
Flags c d store cache revalidate =
    (d.no_store ≡ (c.no_store || store))
    × (d.no_cache ≡ (c.no_cache || cache))
    × (d.must_revalidate ≡ (c.must_revalidate || revalidate))

-- A name that is one of two different ones is not the other.
other :
    (x a b : Bytes)
    → eq_ignore_case a b ≡ false
    → eq_ignore_case x a ≡ true
    → eq_ignore_case x b ≡ false
unfolding eq_ignore_case
other x a b n h = rw (eq_of_bytes_eq (map lower x) (map lower a) h) n

store_cache : eq_ignore_case (text "no-store") (text "no-cache") ≡ false
unfolding eq_ignore_case bytes_eq lower
store_cache = refl

store_revalidate : eq_ignore_case (text "no-store") (text "must-revalidate") ≡ false
unfolding eq_ignore_case bytes_eq lower
store_revalidate = refl

cache_revalidate : eq_ignore_case (text "no-cache") (text "must-revalidate") ≡ false
unfolding eq_ignore_case bytes_eq lower
cache_revalidate = refl

past :
    (bad : Bool) (y : Option CacheControl) {d : CacheControl}
    → (if bad then none else y) ≡ some d
    → y ≡ some d
past true y h = absurd (cc h)
past false y h = h

unless_argument-some :
    (a : Option Bytes) (c : CacheControl) {d : CacheControl} → unless_argument a c ≡ some d → c ≡ d
unless_argument-some none c h = cc h
unless_argument-some (some s) c h = absurd (cc h)

-- `max-age` leaves the flags.
max_age-Flags :
    (c : CacheControl) (a : Option Bytes) {d : CacheControl}
    → max_age c a ≡ some d
    → Flags c d false false false
unfolding max_age
max_age-Flags c none h = absurd (cc h)
max_age-Flags c (some a) {d} h = elim (Bool-cases c.has_max_age) [
  | inl e ↦ absurd (cc (rw e at h))
  | inr e ↦ elim (Option-cases (decimal (unquote (trim is_blank a)))) [
    | inl n ↦ absurd (cc (rw (e, n) at h))
    | inr (n, k) ↦
        let same : record c { max_age_seconds = n; has_max_age = true } ≡ d = cc (rw (e, k) at h) in
        rw (← same) (ground arith, ground arith, ground arith)
  ]
]

directive-Flags :
    (c : CacheControl) (name : Bytes) (a : Option Bytes) {d : CacheControl}
    → directive c name a ≡ some d
    → Flags c d
        (eq_ignore_case name (text "no-store"))
        (eq_ignore_case name (text "no-cache"))
        (eq_ignore_case name (text "must-revalidate"))
unfolding directive directive_name
directive-Flags c name a {d} h = elim (Bool-cases (eq_ignore_case name (text "no-store"))) [
  | inl s ↦
      let same = unless_argument-some a (record c { no_store = true }) (rw s at h) in
      let n = other name (text "no-store") (text "no-cache") store_cache s in
      let m = other name (text "no-store") (text "must-revalidate") store_revalidate s in
      rw (s, n, m, ← same) (ground arith, ground arith, ground arith)
  | inr s ↦ elim (Bool-cases (eq_ignore_case name (text "no-cache"))) [
    | inl n ↦
        let same : record c { no_cache = true } ≡ d = cc (rw (s, n) at h) in
        let m = other name (text "no-cache") (text "must-revalidate") cache_revalidate n in
        rw (s, n, m, ← same) (ground arith, ground arith, ground arith)
    | inr n ↦ elim (Bool-cases (eq_ignore_case name (text "must-revalidate"))) [
      | inl m ↦
          let same =
            unless_argument-some a (record c { must_revalidate = true }) (rw (s, n, m) at h) in
          rw (s, n, m, ← same) (ground arith, ground arith, ground arith)
      | inr m ↦ elim (Bool-cases (eq_ignore_case name (text "max-age"))) [
        | inl x ↦ rw (s, n, m) (max_age-Flags c a (rw (s, n, m, x) at h))
        | inr x ↦
            let same : c ≡ d = cc (rw (s, n, m, x) at h) in
            rw (s, n, m, ← same) (ground arith, ground arith, ground arith)
      ]
    ]
  ]
]

control_entry-Flags :
    (c : CacheControl) (entry : Bytes) {d : CacheControl}
    → control_entry c entry ≡ some d
    → Flags c d
        (eq_ignore_case (name_in entry) (text "no-store"))
        (eq_ignore_case (name_in entry) (text "no-cache"))
        (eq_ignore_case (name_in entry) (text "must-revalidate"))
unfolding control_entry
control_entry-Flags c entry {d} h =
    let item = trim is_blank entry in
    let e1 = past (is_empty item) _ h in
    let e2 = past (not (all is_visible item)) _ e1 in
    let e3 = past (is_empty (name_in entry)) _ e2 in
    directive-Flags c (name_in entry) (behind b'=' item) e3

control_entries-Flags :
    (c : CacheControl) (es : List Bytes) {d : CacheControl}
    → control_entries c es ≡ some d
    → Flags c d
        (any (λ e. eq_ignore_case (name_in e) (text "no-store")) es)
        (any (λ e. eq_ignore_case (name_in e) (text "no-cache")) es)
        (any (λ e. eq_ignore_case (name_in e) (text "must-revalidate")) es)
unfolding control_entries
control_entries-Flags c [] {d} h =
    let same : c ≡ d = cc h in rw (← same) (ground arith, ground arith, ground arith)
control_entries-Flags c (e ∷ es) {d} h = elim (Option-cases (control_entry c e)) [
  | inl n ↦ absurd (cc (rw (n, control_entries) at h))
  | inr (next, n) ↦
      let one = control_entry-Flags c e n in
      let rest = control_entries-Flags next es (rw (n, control_entries) at h) in
      (ground (arith, one.0, rest.0), ground (arith, one.1, rest.1), ground (arith, one.2, rest.2))
]

-- The flags of a parsed header are the directives that it says.
pub parse_cache_control-says :
    (value : Option Bytes) {d : CacheControl}
    → parse_cache_control value ≡ some d
    → (d.no_store ≡ says (text "no-store") value)
      × (d.no_cache ≡ says (text "no-cache") value)
      × (d.must_revalidate ≡ says (text "must-revalidate") value)
unfolding parse_cache_control
parse_cache_control-says none {d} h =
    let same : no_control ≡ d = cc h in rw (← same) (refl, refl, refl)
parse_cache_control-says (some value) h = control_entries-Flags no_control (entries_of value) h
