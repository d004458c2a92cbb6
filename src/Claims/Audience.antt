-- ===== src/Claims/Audience.antt =====
-- `configured_audience_matches` and `audience_matches`.
use mathlib.Core.Option.{none}
use pg_oauth_validator.Json.{Jansson}
use pg_oauth_validator.Base.{
  [], ◌∷◌, ℕ, Bytes, List, Bool, false, entries_of, trim, is_space, suc, if◌then◌else◌, is_empty,
  ◌||◌, ltb, bytes_eq, true, length, Option, ◌==◌, some, not, ◌&&◌,
}
use pg_oauth_validator.Claims.Policy.{has, bytes_or_empty}

-- The loop over the configured audiences; an empty entry or one too many ends it.
unfoldable pub audience_among : ℕ → List Bytes → Bytes → ℕ → Bool
audience_among count [] token maximum = false
audience_among count (e ∷ es) token maximum =
    let entry = trim is_space e in
    let rest = audience_among (suc count) es token maximum in
    if is_empty entry || ltb maximum (suc count)
    then false
    else if bytes_eq entry token
    then true
    else rest

unfoldable pub configured_audience_matches : Bytes → Bytes → ℕ → Bool
configured_audience_matches configured token maximum =
    audience_among 0 (entries_of configured) token maximum

module _ (J : Jansson) where
  -- The first loop over an array: strings, none empty, none twice.
  unfoldable pub distinct_audiences : List Bytes → List J.Json → Bool
  distinct_audiences previous [] = true
  distinct_audiences previous (j ∷ js) = elim (J.string_of j) [
    | none ↦ false
    | some s ↦
        let rest = distinct_audiences (s ∷ previous) js in
        if is_empty s || has previous s then false else rest
  ]

  -- The second loop.
  unfoldable pub any_matches : Bytes → ℕ → List J.Json → Bool
  any_matches configured maximum [] = false
  any_matches configured maximum (j ∷ js) =
      let rest = any_matches configured maximum js in
      if configured_audience_matches configured (bytes_or_empty (J.string_of j)) maximum
      then true
      else rest

  unfoldable pub audience_array_matches : Bytes → ℕ → List J.Json → Bool
  audience_array_matches configured maximum js =
      if length js == 0 || ltb maximum (length js)
      then false
      else if not (distinct_audiences [] js)
      then false
      else any_matches configured maximum js

  unfoldable pub audience_matches : Option J.Json → Bytes → ℕ → Bool
  audience_matches none configured maximum = false
  audience_matches (some j) configured maximum = elim (J.string_of j) [
    | some s ↦ not (is_empty s) && configured_audience_matches configured s maximum
    | none ↦ elim (J.array_of j) [
      | none ↦ false
      | some js ↦ audience_array_matches configured maximum js
    ]
  ]
