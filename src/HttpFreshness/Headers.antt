-- ===== src/HttpFreshness/Headers.antt =====
-- `decimal`, `parse_cache_control` and `parse_age`.
use mathlib.Core.Option.{Option, some, none}
use mathlib.Core.Option
use pg_oauth_validator.Base.{
  [], ℕ, Bytes, false, List, Bool, ◌∷◌, if◌then◌else◌, trim, ◌*◌, eq_ignore_case, ◌==◌, true, text,
  not, is_blank, entries_of, ◌+◌, ◌&&◌, ltb, skip_back, ◌-◌, ◌||◌, before, is_digit, leb, is_empty,
  int64_max, all, ◌/◌, behind,
}

-- The overflow test stands before the digit is taken in.
unfoldable pub decimal_from : ℕ → Bytes → Option ℕ
decimal_from parsed [] = some parsed
decimal_from parsed (b ∷ bs) =
    let rest = decimal_from (parsed * 10 + (b - b'0')) bs in
    if not (is_digit b)
    then none
    else if ltb ((int64_max - (b - b'0')) / 10) parsed
    then none
    else rest

unfoldable pub decimal : Bytes → Option ℕ
decimal [] = none
decimal (b ∷ bs) = decimal_from 0 (b ∷ bs)

pub record CacheControl : Type 0 where
  pub max_age_seconds : ℕ
  pub has_max_age : Bool
  pub no_store : Bool
  pub no_cache : Bool
  pub must_revalidate : Bool

abbrev pub no_control : CacheControl
no_control = record {
  max_age_seconds = 0;
  has_max_age = false;
  no_store = false;
  no_cache = false;
  must_revalidate = false;
}

unfoldable pub directive_name : Bytes → Bytes → Bool
directive_name item name = eq_ignore_case item name

-- A pair of quotes around the number is dropped: `number_end - number_start >= 2`, and both ends.
unfoldable pub without_last : Bytes → Bytes
without_last [] = []
without_last (b ∷ []) = []
without_last (b ∷ c ∷ bs) = b ∷ without_last (c ∷ bs)

unfoldable pub last_is : ℕ → Bytes → Bool
last_is q [] = false
last_is q (b ∷ []) = b == q
last_is q (b ∷ c ∷ bs) = last_is q (c ∷ bs)

unfoldable pub unquote : Bytes → Bytes
unquote [] = []
unquote (b ∷ bs) = if b == 34 && last_is 34 bs then without_last bs else b ∷ bs

-- `max-age`: once, with a number.
unfoldable pub max_age : CacheControl → Option Bytes → Option CacheControl
max_age parsed none = none
max_age parsed (some argument) =
    if parsed.has_max_age
    then none
    else Option.map (λ n. record parsed { max_age_seconds = n; has_max_age = true })
        (decimal (unquote (trim is_blank argument)))

abbrev pub unless_argument : Option Bytes → CacheControl → Option CacheControl
unless_argument none parsed = some parsed
unless_argument (some argument) parsed = none

-- The chain of comparisons on the directive's name; other directives are passed over.
unfoldable pub directive : CacheControl → Bytes → Option Bytes → Option CacheControl
directive parsed name argument =
    if directive_name name (text "no-store")
    then unless_argument argument (record parsed { no_store = true })
    else if directive_name name (text "no-cache")
    then some (record parsed { no_cache = true })
    else if directive_name name (text "must-revalidate")
    then unless_argument argument (record parsed { must_revalidate = true })
    else if directive_name name (text "max-age")
    then max_age parsed argument
    else some parsed

abbrev pub is_visible : ℕ → Bool
is_visible b = not (ltb b 0x20 || leb 0x7f b)

-- one round of the loop, on the entry between two commas
unfoldable pub control_entry : CacheControl → Bytes → Option CacheControl
control_entry parsed entry =
    let item = trim is_blank entry in
    let name = skip_back is_blank (before b'=' item) in
    if is_empty item
    then none
    else if not (all is_visible item)
    then none
    else if is_empty name
    then none
    else directive parsed name (behind b'=' item)

unfoldable pub control_entries : CacheControl → List Bytes → Option CacheControl
control_entries parsed [] = some parsed
control_entries parsed (e ∷ es) = elim (control_entry parsed e) [
  | none ↦ none
  | some next ↦ control_entries next es
]

unfoldable pub parse_cache_control : Option Bytes → Option CacheControl
parse_cache_control none = some no_control
parse_cache_control (some value) = control_entries no_control (entries_of value)

unfoldable pub parse_age : Option Bytes → Option ℕ
parse_age none = some 0
parse_age (some []) = some 0
parse_age (some (b ∷ bs)) = decimal (trim is_blank (b ∷ bs))
