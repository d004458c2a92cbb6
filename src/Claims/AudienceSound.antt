-- ===== src/Claims/AudienceSound.antt =====
-- A token that passes names an audience that is configured.
use pg_oauth_validator.Claims.ScopesSound.{strings}
use pg_oauth_validator.Claims.Policy.{has, bytes_or_empty}
use pg_oauth_validator.Json.{Jansson}
use pg_oauth_validator.Claims.Audience.{
  audience_among, configured_audience_matches, any_matches, audience_array_matches,
  audience_matches,
}
use pg_oauth_validator.Base.{
  [], ◌∷◌, map, none, some, Bytes, List, trim, is_space, entries_of, ℕ, Option, ◌≡◌, true, arith,
  suc, Option-cases, Bool-cases, inr, inl, not, bytes_eq_refl, is_empty, ◌&&◌, &&-eq-true,
}

-- The configured audiences: the entries between commas, without the space around them.
abbrev pub audiences_of : Bytes → List Bytes
audiences_of configured = map (trim is_space) (entries_of configured)

audience_among-has :
    (n : ℕ) (es : List Bytes) (a : Bytes) (m : ℕ)
    → audience_among n es a m ≡ true
    → has (map (trim is_space) es) a ≡ true
unfolding audience_among
audience_among-has n [] a m h = h
audience_among-has n (e ∷ es) a m h = ground (arith, audience_among-has (suc n) es a m)

configured_audience_matches-has :
    (configured a : Bytes) (m : ℕ)
    → configured_audience_matches configured a m ≡ true
    → has (audiences_of configured) a ≡ true
unfolding configured_audience_matches
configured_audience_matches-has configured a m h =
    audience_among-has 0 (entries_of configured) a m h

module _ (J : Jansson) where
  -- The strings that a claim lists: itself, or those of an array.
  abbrev pub listed : Option J.Json → List Bytes
  listed none = []
  listed (some j) = elim (J.string_of j) [
    | some s ↦ s ∷ []
    | none ↦ elim (J.array_of j) [ none ↦ [] | some js ↦ strings J js ]
  ]

  any_matches-has :
      (configured : Bytes) (m : ℕ) (js : List J.Json)
      → any_matches J configured m js ≡ true
      → (a : Bytes) × (has (strings J js) a ≡ true) × (has (audiences_of configured) a ≡ true)
  unfolding any_matches
  any_matches-has configured m [] h = absurd (cc h)
  any_matches-has configured m (j ∷ js) h =
      let s = bytes_or_empty (J.string_of j) in
      elim (Bool-cases (configured_audience_matches configured s m)) [
        | inl e ↦
            (s, ground (arith, bytes_eq_refl s), configured_audience_matches-has configured s m e)
        | inr e ↦
            let (a, x, y) = any_matches-has configured m js (rw e at h) in (a, ground (arith, x), y)
      ]

  audience_array-any :
      (configured : Bytes) (m : ℕ) (js : List J.Json)
      → audience_array_matches J configured m js ≡ true
      → any_matches J configured m js ≡ true
  unfolding audience_array_matches
  audience_array-any configured m js h = ground (arith, h)

  pub audience_matches-has :
      (v : Option J.Json) (configured : Bytes) (m : ℕ)
      → audience_matches J v configured m ≡ true
      → (a : Bytes) × (has (listed v) a ≡ true) × (has (audiences_of configured) a ≡ true)
  unfolding audience_matches
  audience_matches-has none configured m h = absurd (cc h)
  audience_matches-has (some j) configured m h = elim (Option-cases (J.string_of j)) [
    | inr (s, e) ↦
        let h' : (not (is_empty s) && configured_audience_matches configured s m) ≡ true =
          rw (e, audience_matches) at h in
        let y : has (audiences_of configured) s ≡ true =
          configured_audience_matches-has configured s m
            (&&-eq-true (not (is_empty s)) (configured_audience_matches configured s m) h').1 in
        (s, rw (e, listed) (ground (arith, bytes_eq_refl s)), y)
    | inl e ↦ elim (Option-cases (J.array_of j)) [
      | inl a ↦ absurd (cc (rw (e, a, audience_matches) at h))
      | inr (js, a) ↦
          let h' : audience_array_matches J configured m js ≡ true =
            rw (e, a, audience_matches) at h in
          let (x, y, z) = any_matches-has configured m js (audience_array-any configured m js h') in
          (x, rw (e, a, listed) y, z)
    ]
  ]
