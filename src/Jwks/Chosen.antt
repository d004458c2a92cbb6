-- ===== src/Jwks/Chosen.antt =====
-- The key that is chosen is the only one with its key id.
use pg_oauth_validator.Jwks.Keys.{OpenSsl, JwksPolicy, member_is, member_string, bad_kid}
use pg_oauth_validator.Json.{Jansson}
use pg_oauth_validator.Base.{
  [], ◌∷◌, none, some, Bytes, Bool, Option, List, if◌then◌else◌, is_none, text, ◌≡◌, false, not,
  true, Bool-cases, all, ◌++◌, inl, ◌⊎◌, inr, arith, ap, refl, Option-cases, subst, bytes_eq,
}
use pg_oauth_validator.Jwks.Select.{
  Search, found, failed, search_keys, jwks_invalid_key_id, duplicate_key_id,
}

module _ (J : Jansson) (ssl : OpenSsl) where
  abbrev pub has_kid : Bytes → J.Json → Bool
  has_kid key_id key = member_is J key (text "kid") key_id

  abbrev Round : JwksPolicy → Bytes → Option J.Json → J.Json → List J.Json → Option J.Json → Type 0
  Round p key_id candidate key keys r =
      ((has_kid key_id key ≡ false) × (search_keys J ssl p key_id candidate keys ≡ found r))
      ⊎ ((has_kid key_id key ≡ true)
          × (candidate ≡ none)
          × (search_keys J ssl p key_id (some key) keys ≡ found r))

  checked_kid :
      (bad same taken : Bool) (x y : Search J ssl) {r : Option J.Json}
      → (if◌then◌else◌ {A = Search J ssl} bad (failed jwks_invalid_key_id) (
          if◌then◌else◌ {A = Search J ssl}
            (not same)
            x
            (if◌then◌else◌ {A = Search J ssl} (not taken) (failed duplicate_key_id) y)))
        ≡ found r
      → ((same ≡ false) × (x ≡ found r)) ⊎ ((same ≡ true) × (taken ≡ true) × (y ≡ found r))
  checked_kid true same taken x y h = absurd (cc h)
  checked_kid false false taken x y h = inl (refl, h)
  checked_kid false true false x y h = absurd (cc h)
  checked_kid false true true x y h = inr (refl, refl, h)

  none_of : (o : Option J.Json) → is_none o ≡ true → o ≡ none
  none_of none h = refl
  none_of (some a) h = absurd (cc h)

  search_keys-Round :
      (p : JwksPolicy) (key_id : Bytes) (candidate : Option J.Json) (key : J.Json)
      (keys : List J.Json) {r : Option J.Json}
      → search_keys J ssl p key_id candidate (key ∷ keys) ≡ found r
      → Round p key_id candidate key keys r
  unfolding search_keys member_is
  search_keys-Round p key_id candidate key keys h = elim (Bool-cases (J.is_object key)) [
    | inr o ↦ absurd (cc (rw o at h))
    | inl o ↦
        let h' = rw o at h in
        elim (Option-cases (J.object_get key (text "kid"))) [
          | inl g ↦ inl (rw (g, member_is, member_string) refl, rw (g, search_keys) at h')
          | inr (id, g) ↦ elim (Option-cases (J.string_of id)) [
            | inl s ↦ absurd (cc (rw (g, s, search_keys) at h'))
            | inr (k, s) ↦
                elim (checked_kid (bad_kid k p.max_key_id_size) (bytes_eq k key_id)
                  (is_none candidate) (search_keys J ssl p key_id candidate keys)
                  (search_keys J ssl p key_id (some key) keys) (rw (g, s, search_keys) at h')) [
                    | inl (a, b) ↦ inl (rw (g, s, member_is, member_string) a, b)
                    | inr (a, b, c) ↦
                        inr (rw (g, s, member_is, member_string) a, none_of candidate b, c)
                  ]
          ]
        ]
  ]

  search_after :
      (p : JwksPolicy) (key_id : Bytes) (c key : J.Json) (keys : List J.Json)
      → search_keys J ssl p key_id (some c) keys ≡ found (some key)
      → (c ≡ key) × (all (λ k. not (has_kid key_id k)) keys ≡ true)
  unfolding search_keys
  search_after p key_id c key [] h = (cc h, refl)
  search_after p key_id c key (k ∷ keys) h = elim (search_keys-Round p key_id (some c) k keys h) [
    | inl (a, b) ↦ let t = search_after p key_id c key keys b in (t.0, ground (arith, a, t.1))
    | inr (a, b, d) ↦ absurd (cc b)
  ]

  -- The key stands in the list, and no other entry of the list has the key id.
  abbrev pub OnlyWith : Bytes → J.Json → List J.Json → Type 0
  OnlyWith key_id key keys =
      (front : List J.Json) × (back : List J.Json) × (keys ≡ front ++ (key ∷ back))
      × (has_kid key_id key ≡ true)
      × (all (λ k. not (has_kid key_id k)) front ≡ true)
      × (all (λ k. not (has_kid key_id k)) back ≡ true)

  pub search_keys-OnlyWith :
      (p : JwksPolicy) (key_id : Bytes) (key : J.Json) (keys : List J.Json)
      → search_keys J ssl p key_id none keys ≡ found (some key)
      → OnlyWith key_id key keys
  unfolding search_keys
  search_keys-OnlyWith p key_id key [] h = absurd (cc h)
  search_keys-OnlyWith p key_id key (k ∷ keys) h = elim (search_keys-Round p key_id none k keys h) [
    | inl (a, b) ↦
        let (front, back, e, has, f, g) = search_keys-OnlyWith p key_id key keys b in
        (k ∷ front, back, ap (λ y. k ∷ y) e, has, ground (arith, a, f), g)
    | inr (a, b, d) ↦
        let (same, rest) = search_after p key_id k key keys d in
        ([], keys, ap (λ y. y ∷ keys) same, subst (λ y. has_kid key_id y ≡ true) same a, refl, rest)
  ]
