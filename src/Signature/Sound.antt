-- ===== src/Signature/Sound.antt =====
-- What a signature that verifies has been checked with.
use pg_oauth_validator.Json.{Jansson}
use pg_oauth_validator.Signature.Verify.{
  SignatureError, signature_bad_argument, key_import_failed, JwtAlgorithm, exp, nbf, Libjwt,
  libjwt_algorithm, without_leeway, with_key, verify_by, verify_imported, verify_dumped,
  verify_with, signature_verify,
}
use pg_oauth_validator.Base.{
  none, some, true, false, Bytes, Bool, Option, ℕ, if◌then◌else◌, ◌≡◌, ◌<◌, Bool-cases,
  Option-cases, length, refl, any, inl, ◌==◌, inr, ◌||◌, not, uint64_max, arith,
}

module _ (J : Jansson) (L : Libjwt J) where
  -- The checker: a new one, fixed to the one key of the set that the selected key makes, and to the
  -- key's algorithm, with libjwt's own time checks off.
  pub record CheckedBy (token : Bytes) (key : J.Json) (algorithm : ℕ) : Type 0 where
    pub jwt_algorithm : JwtAlgorithm
    pub algorithm_is : libjwt_algorithm algorithm ≡ some jwt_algorithm
    pub json : Bytes
    pub json_is : L.json_dumps key ≡ some json
    pub key_set : L.KeySet
    pub key_set_is : L.jwks_create json ≡ some key_set
    pub single : (L.jwks_error key_set ≡ false) × (L.jwks_item_count key_set ≡ 1)
    pub item : L.KeyItem
    pub item_is : L.jwks_item_get key_set ≡ some item
    pub new : L.Checker
    pub keyed : L.Checker
    pub no_exp : L.Checker
    pub checker : L.Checker
    pub new_is : L.checker_new ≡ some new
    pub keyed_is : L.checker_setkey new jwt_algorithm item ≡ some keyed
    pub exp_is : L.disable_leeway keyed exp ≡ some no_exp
    pub nbf_is : L.disable_leeway no_exp nbf ≡ some checker
    pub verified : L.checker_verify checker token ≡ true
    pub whole : (0 < length token) × (any (λ b. b == 0) token ≡ false)

  refusing :
      (bad : Bool) (e : SignatureError) (y : Option SignatureError)
      → (if bad then some e else y) ≡ none
      → (bad ≡ false) × (y ≡ none)
  refusing true e y h = absurd (cc h)
  refusing false e y h = (refl, h)

  verify_by_lem :
      (token : Bytes) (o : Option L.Checker)
      → verify_by J L token o ≡ none
      → (c : L.Checker) × (o ≡ some c) × (L.checker_verify c token ≡ true)
  unfolding verify_by
  verify_by_lem token none h = absurd (cc h)
  verify_by_lem token (some c) h = elim (Bool-cases (L.checker_verify c token)) [
    | inl e ↦ (c, refl, e)
    | inr e ↦ absurd (cc (rw e at h))
  ]

  Leeway : Option L.Checker → L.Checker → Type 0
  Leeway o c =
      (k : L.Checker) × (n : L.Checker) × (o ≡ some k)
      × (L.disable_leeway k exp ≡ some n)
      × (L.disable_leeway n nbf ≡ some c)

  without_leeway_lem :
      (o : Option L.Checker) (c : L.Checker) → without_leeway J L o ≡ some c → Leeway o c
  unfolding without_leeway Leeway
  without_leeway_lem none c h = absurd (cc h)
  without_leeway_lem (some k) c h = elim (Option-cases (L.disable_leeway k exp)) [
    | inl e ↦ absurd (cc (rw (e, without_leeway) at h))
    | inr (n, e) ↦ (k, n, refl, e, rw (e, without_leeway) at h)
  ]

  with_key_lem :
      (a : JwtAlgorithm) (i : Option L.KeyItem) (o : Option L.Checker) (c : L.Checker)
      → with_key J L a i o ≡ some c
      → (item : L.KeyItem) × (new : L.Checker) × (i ≡ some item)
        × (o ≡ some new)
        × Leeway (L.checker_setkey new a item) c
  unfolding with_key
  with_key_lem a none o c h = absurd (cc h)
  with_key_lem a (some item) none c h = absurd (cc h)
  with_key_lem a (some item) (some new) c h =
      (item, new, refl, refl, without_leeway_lem (L.checker_setkey new a item) c h)

  verify_dumped_lem :
      (token : Bytes) (key : J.Json) (a : JwtAlgorithm) (algorithm : ℕ) (o : Option Bytes)
      → libjwt_algorithm algorithm ≡ some a
      → L.json_dumps key ≡ o
      → (0 < length token) × (any (λ b. b == 0) token ≡ false)
      → verify_dumped J L token a o ≡ none
      → CheckedBy token key algorithm
  unfolding verify_dumped verify_imported Leeway
  verify_dumped_lem token key a algorithm none ea eo w h = absurd (cc h)
  verify_dumped_lem token key a algorithm (some json) ea eo w h =
      elim (Option-cases (L.jwks_create json)) [
        | inl e ↦ absurd (cc (rw (e, verify_imported) at h))
        | inr (set, e) ↦
            let g =
              refusing (L.jwks_error set || not (L.jwks_item_count set == 1)) key_import_failed _
                (rw (e, verify_imported) at h) in
            let single = g.0 in
            let (c, made, verified) = verify_by_lem token _ g.1 in
            let (item, new, ei, en, (k, n, ek, ex, enb)) = with_key_lem a _ _ c made in
            record {
              jwt_algorithm = a;
              algorithm_is = ea;
              json = json;
              json_is = eo;
              key_set = set;
              key_set_is = e;
              single = (ground (arith, single), ground (arith, single));
              item = item;
              item_is = ei;
              new = new;
              keyed = k;
              no_exp = n;
              checker = c;
              new_is = en;
              keyed_is = ek;
              exp_is = ex;
              nbf_is = enb;
              verified = verified;
              whole = w;
            }
      ]

  -- A signature verifies only under a checker that is fixed to the selected key, as the only key of
  -- its set, and to that key's own algorithm, and that makes no decision about the token's times; and
  -- the token is not empty and has no zero byte, so the checker has seen all of it.
  pub signature_verify-CheckedBy :
      (token : Bytes) (key : J.Json) (algorithm : ℕ)
      → signature_verify J L (some token) (some (key, algorithm)) ≡ none
      → CheckedBy token key algorithm
  unfolding signature_verify verify_with
  signature_verify-CheckedBy token key algorithm h =
      let h1 = refusing (length token == 0) signature_bad_argument _ h in
      elim (Option-cases (libjwt_algorithm algorithm)) [
        | inl e ↦ absurd (cc (rw (e, verify_with) at h1.1))
        | inr (a, e) ↦
            let h2 =
              refusing (any (λ b. b == 0) token || length token == uint64_max)
                signature_bad_argument _ (rw (e, verify_with) at h1.1) in
            verify_dumped_lem token key a algorithm (L.json_dumps key) e refl
              (ground (arith, h1.0), ground (arith, h2.0)) h2.1
      ]
