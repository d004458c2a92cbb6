-- ===== src/JwtEnvelope/Accepted.antt =====
-- What an accepted envelope says of the token, and what each step establishes.
use pg_oauth_validator.Base64Url.RoundTrip.{length-decode}
use Prim.Native.Nat.{bit_and}
use pg_oauth_validator.JwtEnvelope.Parse.{
  EnvelopePolicy, EnvelopeError, decode_json_object, Envelope, EnvelopeResult, Segments, decoded,
  envelope_refused, undecoded, header_string, envelope_ok, decode_base64url, allowed_type,
  forbidden_headers, algorithm_named, max_key_id_size, Decoded,
}
use pg_oauth_validator.Base64Url.Codec.{decode, valid, decoded_size}
use pg_oauth_validator.Json.{Jansson}
use pg_oauth_validator.Base.{
  ◌<◌, if◌then◌else◌, ◌∷◌, none, some, Bytes, Bool, ℕ, length, text, ◌≡◌, ◌≤◌, true, if◌then◌else◌,
  ◌⊎◌, ◌++◌, all, false, Option-cases, is_none, inl, refl, inr, ◌∙◌, ◌≢◌, ap, subst, any,
  Bool-cases, is_cntrl, sym, arith,
}

decoded_size-le : (n m size : ℕ) → decoded_size n m ≡ some size → size ≤ m
unfolding decoded_size
decoded_size-le n m size h = ground arith

decode_base64url-decode :
    (segment : Bytes) (m : ℕ) (bytes : Bytes)
    → decode_base64url segment m ≡ some bytes
    → (decode (some segment) (length bytes) ≡ some bytes) × (length bytes ≤ m)
unfolding decode_base64url
decode_base64url-decode segment m bytes h = elim (Option-cases (decoded_size (length segment) m)) [
  | inl e ↦ absurd (cc (rw (e, decode_base64url) at h))
  | inr (size, e) ↦
      let h' = rw (e, decode_base64url) at h in
      let same = length-decode segment size h' in
      (
        subst (λ n. decode (some segment) n ≡ some bytes) (sym same) h',
        omega (arith, same, decoded_size-le (length segment) m size e),
      )
]

module _ (J : Jansson) where
  -- The segment is the one text of bytes within the bound, which are those of a JSON object.
  abbrev pub Holds : Bytes → ℕ → J.Json → Type 0
  Holds segment maximum object =
      (bytes : Bytes) × (decode (some segment) (length bytes) ≡ some bytes)
      × (length bytes ≤ maximum)
      × (J.loadb bytes ≡ some object)
      × (J.is_object object ≡ true)

  -- A missing type where that is allowed, or one of the allowed names.
  abbrev pub TypeAllowed : J.Json → EnvelopePolicy → Type 0
  TypeAllowed header p =
      ((J.object_get header (text "typ") ≡ none) × (p.allow_missing_token_type ≡ true))
      ⊎ ((name : Bytes) × (header_string J header (text "typ") ≡ some name)
          × (allowed_type name p.allowed_token_types ≡ true))

  pub record AcceptedToken (token : Bytes) (p : EnvelopePolicy) (e : Envelope J) : Type 0 where
    pub segments : Segments
    pub token_is :
        token
        ≡ segments.header_segment
          ++ (b'.' ∷ segments.payload_segment ++ (b'.' ∷ segments.signature_segment))
    pub token_bound : length token ≤ p.max_token_size
    pub header_is : Holds segments.header_segment p.max_header_size e.untrusted_header
    pub payload_is : Holds segments.payload_segment p.max_payload_size e.untrusted_payload
    pub signature_valid : valid (some segments.signature_segment) ≡ true
    pub none_forbidden :
        all (λ name. is_none (J.object_get e.untrusted_header name)) forbidden_headers ≡ true
    pub algorithm_is :
        (name : Bytes) × (header_string J e.untrusted_header (text "alg") ≡ some name)
        × (algorithm_named name ≡ e.algorithm)
    pub algorithm_known : e.algorithm ≢ 0
    pub algorithm_allowed : bit_and e.algorithm p.allowed_algorithms ≢ 0
    pub type_allowed : TypeAllowed e.untrusted_header p
    pub key_id_is : header_string J e.untrusted_header (text "kid") ≡ some e.key_id
    pub key_id_bound : (0 < length e.key_id) × (length e.key_id ≤ max_key_id_size)
    pub key_id_clean : any is_cntrl e.key_id ≡ false

  pub guarded :
      (bad : Bool) (x : EnvelopeError) (y : EnvelopeResult J) {e : Envelope J}
      → (if bad then envelope_refused x else y) ≡ envelope_ok e
      → (bad ≡ false) × (y ≡ envelope_ok e)
  guarded true x y h = absurd (cc h)
  guarded false x y h = (refl, h)

  object_only :
      (found object : J.Json) (y : EnvelopeError)
      → (if◌then◌else◌ {A = Decoded J} (J.is_object found) (decoded found) (undecoded y))
        ≡ decoded object
      → (J.is_object found ≡ true) × (found ≡ object)
  object_only found object y h = elim (Bool-cases (J.is_object found)) [
    | inl e ↦ (e, cc (rw e at h))
    | inr e ↦ absurd (cc (rw e at h))
  ]

  pub decode_json_object-Holds :
      (segment : Bytes) (m : ℕ) (x y : EnvelopeError) {object : J.Json}
      → decode_json_object J segment m x y ≡ decoded object
      → Holds segment m object
  unfolding decode_json_object
  decode_json_object-Holds segment m x y {object} h =
      elim (Option-cases (decode_base64url segment m)) [
        | inl e ↦ absurd (cc (rw (e, decode_json_object) at h))
        | inr (bytes, e) ↦ elim (Option-cases (J.loadb bytes)) [
          | inl l ↦ absurd (cc (rw (e, l, decode_json_object) at h))
          | inr (found, l) ↦
              let (o, same) = object_only found object y (rw (e, l, decode_json_object) at h) in
              let (sized, fits) = decode_base64url-decode segment m bytes e in
              (bytes, sized, fits, l ∙ ap some same, subst (λ z. J.is_object z ≡ true) same o)
        ]
      ]
