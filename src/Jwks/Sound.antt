-- ===== src/Jwks/Sound.antt =====
-- What a selected key is.
use Prim.Native.Nat.{bit_and}
use pg_oauth_validator.Jwks.Chosen.{OnlyWith, search_keys-OnlyWith}
use pg_oauth_validator.Jwks.Keys.{
  OpenSsl, JwksPolicy, key_algorithm, bad_kid, key_allows_verification,
  contains_private_key_material,
}
use pg_oauth_validator.Json.{Jansson}
use pg_oauth_validator.Base.{
  none, some, Bytes, Bool, ◌≡◌, ℕ, ◌⊎◌, List, inr, Option, if◌then◌else◌, ◌==◌, inl, length, ◌≤◌,
  ◌||◌, refl, false, not, ltb, any, Option-cases, true, ◌≢◌, arith, sym, subst, ◌∙◌, ap,
}
use pg_oauth_validator.Jwks.Select.{
  Search, found, failed, check_candidate, select_among, jwks_select, JwksError, select_document,
  Selection, selected, keys_of, bad_jwks_policy, unselected, jwks_bad_argument, jwks_empty,
  jwks_too_large, jwks_invalid_json, algorithm_mismatch, invalid_keys, too_many_keys,
  key_not_for_signature, search_keys, bad_key, invalid_key,
}

module _ (J : Jansson) (ssl : OpenSsl) where
  -- The key: the only one of the document with the key id, for the token's algorithm, which the
  -- administrator allows, for verification, public, and good for its algorithm.
  pub record Chosen (document key_id : Bytes) (p : JwksPolicy) (token_algorithm : ℕ) (key : J.Json)
      (algorithm : ℕ) : Type 0 where
    pub root : J.Json
    pub keys : List J.Json
    pub document_is : J.loadb document ≡ some root
    pub keys_is : keys_of J ssl root ≡ some keys
    pub bounded : length keys ≤ p.max_keys
    pub only : OnlyWith J ssl key_id key keys
    pub algorithm_is : (key_algorithm J key ≡ algorithm) × (algorithm ≡ token_algorithm)
    pub algorithm_allowed : bit_and algorithm p.allowed_algorithms ≢ 0
    pub verifies : key_allows_verification J key ≡ true
    pub public_only : contains_private_key_material J key ≡ false
    pub good : bad_key J ssl p key algorithm ≡ false

  refusing :
      (bad : Bool) (e : JwksError) (y : Selection J ssl) {k : J.Json} {a : ℕ}
      → (if bad then unselected e else y) ≡ selected k a
      → (bad ≡ false) × (y ≡ selected k a)
  refusing true e y h = absurd (cc h)
  refusing false e y h = (refl, h)

  Checked : JwksPolicy → ℕ → J.Json → J.Json → ℕ → Type 0
  Checked p token_algorithm c key a =
      (c ≡ key)
      × (key_algorithm J c ≡ a)
      × (a ≡ token_algorithm)
      × (bit_and a p.allowed_algorithms ≢ 0)
      × (key_allows_verification J c ≡ true)
      × (contains_private_key_material J c ≡ false)
      × (bad_key J ssl p c a ≡ false)

  check_candidate-Checked :
      (p : JwksPolicy) (t : ℕ) (c key : J.Json) (a : ℕ)
      → check_candidate J ssl p t c ≡ selected key a
      → Checked p t c key a
  unfolding check_candidate Checked
  check_candidate-Checked p t c key a h =
      let x = key_algorithm J c in
      let h1 =
        refusing (x == 0 || not (x == t) || bit_and x p.allowed_algorithms == 0) algorithm_mismatch
          _ h in
      let h2 = refusing (not (key_allows_verification J c)) key_not_for_signature _ h1.1 in
      let h3 = refusing (contains_private_key_material J c) invalid_key _ h2.1 in
      let h4 = refusing (bad_key J ssl p c x) invalid_key (selected c x) h3.1 in
      let ec : c ≡ key = cc h4.1 in
      let ex : x ≡ a = cc h4.1 in
      let known : x ≡ t = ground (arith, h1.0) in
      let allowed : bit_and x p.allowed_algorithms ≢ 0 = ground (arith, h1.0) in
      (
        ec,
        ex,
        sym ex ∙ known,
        λ z. allowed (ap (λ y. bit_and y p.allowed_algorithms) ex ∙ z),
        ground (arith, h2.0),
        h3.0,
        ap (bad_key J ssl p c) (sym ex) ∙ h4.0,
      )

  Checked-same : (p : JwksPolicy) (t : ℕ) (c key : J.Json) (a : ℕ) → Checked p t c key a → c ≡ key
  unfolding Checked
  Checked-same p t c key a h = h.0

  Search-cases :
      (s : Search J ssl)
      → ((k : J.Json) × (s ≡ found (some k)))
        ⊎ (s ≡ found none)
        ⊎ ((e : JwksError) × (s ≡ failed e))
  Search-cases (found none) = inr (inl refl)
  Search-cases (found (some k)) = inl (k, refl)
  Search-cases (failed e) = inr (inr (e, refl))

  among :
      (p : JwksPolicy) (id : Bytes) (t : ℕ) (o : Option (List J.Json)) (key : J.Json) (a : ℕ)
      → select_among J ssl p id t o ≡ selected key a
      → (keys : List J.Json) × (o ≡ some keys)
        × (length keys ≤ p.max_keys)
        × OnlyWith J ssl id key keys
        × Checked p t key key a
  unfolding select_among
  among p id t none key a h = absurd (cc h)
  among p id t (some keys) key a h =
      let h1 = refusing (length keys == 0) invalid_keys _ h in
      let h2 = refusing (ltb p.max_keys (length keys)) too_many_keys _ h1.1 in
      elim (Search-cases (search_keys J ssl p id none keys)) [
        | inr (inl s) ↦ absurd (cc (rw (s, select_among) at h2.1))
        | inr (inr (e, s)) ↦ absurd (cc (rw (s, select_among) at h2.1))
        | inl (c, s) ↦
            let k = check_candidate-Checked p t c key a (rw (s, select_among) at h2.1) in
            let same : c ≡ key = Checked-same p t c key a k in
            (
              keys,
              refl,
              ground (arith, h2.0),
              subst (λ y. OnlyWith J ssl id y keys) same (search_keys-OnlyWith J ssl p id c keys s),
              subst (λ y. Checked p t y key a) same k,
            )
      ]

  -- A key is selected only if it is the one key of the document with the token's key id, its own
  -- algorithm is the token's and one that the administrator allows, it is marked for verification,
  -- it has no private part, and it passes the tests for its algorithm.
  pub jwks_select-Chosen :
      (document key_id : Bytes) (t : ℕ) (p : JwksPolicy) {key : J.Json} {a : ℕ}
      → jwks_select J ssl (some document) (some key_id) t (some p) ≡ selected key a
      → Chosen document key_id p t key a
  unfolding jwks_select select_document Checked
  jwks_select-Chosen document key_id t p {key} {a} h =
      let h1 = refusing (bad_jwks_policy p t) jwks_bad_argument _ h in
      let h2 = refusing (bad_kid key_id p.max_key_id_size) jwks_bad_argument _ h1.1 in
      let h3 = refusing (length document == 0) jwks_empty _ h2.1 in
      let h4 = refusing (ltb p.max_jwks_size (length document)) jwks_too_large _ h3.1 in
      let h5 = refusing (any (λ b. b == 0) document) jwks_invalid_json _ h4.1 in
      elim (Option-cases (J.loadb document)) [
        | inl l ↦ absurd (cc (rw (l, select_document) at h5.1))
        | inr (root, l) ↦
            let h6 =
              refusing (not (J.is_object root)) jwks_invalid_json _
                (rw (l, select_document) at h5.1) in
            let (keys, e, bound, only, checks) = among p key_id t (keys_of J ssl root) key a h6.1 in
            let (_, alg, tok, allowed, ver, pub_only, good) = checks in
            record {
              root = root;
              keys = keys;
              document_is = l;
              keys_is = e;
              bounded = bound;
              only = only;
              algorithm_is = (alg, tok);
              algorithm_allowed = allowed;
              verifies = ver;
              public_only = pub_only;
              good = good;
            }
      ]
