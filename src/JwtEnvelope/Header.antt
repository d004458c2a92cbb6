-- ===== src/JwtEnvelope/Header.antt =====
-- What the checks of the header establish.
use Prim.Native.Nat.{bit_and}
use pg_oauth_validator.Json.{Jansson}
use pg_oauth_validator.JwtEnvelope.Parse.{
  algorithm_named, bad_key_id, parse_algorithm, valid_type, check_header, EnvelopePolicy,
  max_key_id_size, Envelope, header_string, envelope_ok, has_unsupported_header, unsupported_header,
  invalid_algorithm, invalid_token_type, EnvelopeResult, forbidden_headers, envelope_refused,
  invalid_key_id,
}
use pg_oauth_validator.Base.{
  [], ◌∷◌, some, ◌<◌, if◌then◌else◌, Bool, Bytes, List, any, not, ◌≡◌, false, all, true, arith,
  refl, length, ◌≤◌, ℕ, ◌≢◌, is_cntrl, Option-cases, text, inl, sym, inr, ◌∙◌, ◌==◌, ◌||◌, is_none,
  ap,
}
use pg_oauth_validator.JwtEnvelope.Accepted.{TypeAllowed, guarded}

any-all :
    {A : Type 0} (f : A → Bool) (xs : List A) → any (λ x. not (f x)) xs ≡ false → all f xs ≡ true
any-all f [] h = refl
any-all f (x ∷ xs) h = ground (arith, any-all f xs)

pub key_id_good :
    (k : Bytes)
    → bad_key_id k ≡ false
    → (0 < length k) × (length k ≤ max_key_id_size) × (any is_cntrl k ≡ false)
unfolding bad_key_id
key_id_good k h = ground arith

module _ (J : Jansson) where
  pub algorithm_lem :
      (header : J.Json) (a : ℕ)
      → parse_algorithm J header ≡ a
      → a ≢ 0
      → (name : Bytes) × (header_string J header (text "alg") ≡ some name)
        × (algorithm_named name ≡ a)
  unfolding parse_algorithm
  algorithm_lem header a h n = elim (Option-cases (header_string J header (text "alg"))) [
    | inl e ↦ absurd (n (sym h ∙ rw (e, parse_algorithm) refl))
    | inr (name, e) ↦ (name, e, rw (e, parse_algorithm) at h)
  ]

  pub type_lem :
      (header : J.Json) (p : EnvelopePolicy) → valid_type J header p ≡ true → TypeAllowed J header p
  unfolding valid_type
  type_lem header p h = elim (Option-cases (J.object_get header (text "typ"))) [
    | inl e ↦ inl (e, rw (e, valid_type) at h)
    | inr (j, e) ↦ elim (Option-cases (J.string_of j)) [
      | inl s ↦ absurd (cc (rw (e, s, valid_type) at h))
      | inr (name, s) ↦ inr (name, rw (e, header_string) s, rw (e, s, valid_type) at h)
    ]
  ]

  pub none_forbidden_lem :
      (header : J.Json)
      → has_unsupported_header J header ≡ false
      → all (λ name. is_none (J.object_get header name)) forbidden_headers ≡ true
  unfolding has_unsupported_header
  none_forbidden_lem header h =
      any-all (λ name. is_none (J.object_get header name)) forbidden_headers h

  -- What the checks of the header establish.
  pub checked :
      (p : EnvelopePolicy) (header payload : J.Json) {e : Envelope J}
      → check_header J p header payload ≡ envelope_ok e
      → (e.untrusted_header ≡ header)
        × (e.untrusted_payload ≡ payload)
        × (has_unsupported_header J header ≡ false)
        × (parse_algorithm J header ≡ e.algorithm)
        × (e.algorithm ≢ 0)
        × (bit_and e.algorithm p.allowed_algorithms ≢ 0)
        × (valid_type J header p ≡ true)
        × (header_string J header (text "kid") ≡ some e.key_id)
        × (bad_key_id e.key_id ≡ false)
  unfolding check_header
  checked p header payload {e} h =
      let a = parse_algorithm J header in
      let h1 = guarded J (has_unsupported_header J header) unsupported_header _ h in
      let h2 = guarded J (a == 0 || bit_and a p.allowed_algorithms == 0) invalid_algorithm _ h1.1 in
      let h3 = guarded J (not (valid_type J header p)) invalid_token_type _ h2.1 in
      elim (Option-cases (header_string J header (text "kid"))) [
        | inl k ↦ absurd (cc (rw (k, check_header) at h3.1))
        | inr (kid, k) ↦
            let r : Envelope J = record {
              untrusted_header = header;
              untrusted_payload = payload;
              algorithm = a;
              key_id = kid;
            } in
            let h4 : (if◌then◌else◌ {A = EnvelopeResult J} (bad_key_id kid)
                  (envelope_refused invalid_key_id) (envelope_ok r))
                ≡ envelope_ok e =
              rw (k, check_header) at h3.1 in
            let h5 = guarded J (bad_key_id kid) invalid_key_id (envelope_ok r) h4 in
            let same : r ≡ e = cc h5.1 in
            let known : a ≢ 0 = ground (arith, h2.0) in
            let allowed : bit_and a p.allowed_algorithms ≢ 0 = ground (arith, h2.0) in
            let kid_is : kid ≡ e.key_id = ap (λ x. x.key_id) same in
            let a_is : a ≡ e.algorithm = ap (λ x. x.algorithm) same in
            (
              sym (ap (λ x. x.untrusted_header) same),
              sym (ap (λ x. x.untrusted_payload) same),
              h1.0,
              a_is,
              λ z. known (a_is ∙ z),
              λ z. allowed (ap (λ x. bit_and x p.allowed_algorithms) a_is ∙ z),
              ground (arith, h3.0),
              k ∙ ap some kid_is,
              ap bad_key_id (sym kid_is) ∙ h5.0,
            )
      ]
