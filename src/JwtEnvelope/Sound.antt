-- ===== src/JwtEnvelope/Sound.antt =====
-- The parser hands on what the token holds.
use pg_oauth_validator.JwtEnvelope.Header.{
  checked, key_id_good, none_forbidden_lem, algorithm_lem, type_lem,
}
use pg_oauth_validator.JwtEnvelope.Segments.{split_compact_jws-join}
use pg_oauth_validator.Base64Url.Codec.{valid}
use pg_oauth_validator.Json.{Jansson}
use pg_oauth_validator.JwtEnvelope.Parse.{
  check_header, EnvelopePolicy, Envelope, envelope_ok, EnvelopeResult, Decoded, decode_segments,
  Segments, envelope_refused, decoded, split_compact_jws, decode_json_object, EnvelopeError,
  header_too_large, undecoded, invalid_header_json, payload_too_large, invalid_payload_json, parse,
  parse_token, bad_envelope_policy, envelope_bad_argument, empty_token, token_too_large,
  invalid_compact_jws, invalid_base64url,
}
use pg_oauth_validator.Base.{
  some, if◌then◌else◌, Bytes, any, not, ◌≡◌, true, arith, refl, length, ◌≤◌, Option-cases, inl, sym,
  inr, ◌==◌, ◌⊎◌, subst, ltb, ◌&&◌,
}
use pg_oauth_validator.JwtEnvelope.Accepted.{
  AcceptedToken, TypeAllowed, guarded, Holds, decode_json_object-Holds,
}

module _ (J : Jansson) where
  Decoded-cases :
      (d : Decoded J) → ((o : J.Json) × (d ≡ decoded o)) ⊎ ((x : EnvelopeError) × (d ≡ undecoded x))
  Decoded-cases (decoded o) = inl (o, refl)
  Decoded-cases (undecoded x) = inr (x, refl)

  -- Both parts are decoded before the header is checked.
  both_decoded :
      (p : EnvelopePolicy) (s : Segments) {e : Envelope J}
      → decode_segments J p s ≡ envelope_ok e
      → (header : J.Json) × (payload : J.Json) × Holds J s.header_segment p.max_header_size header
        × Holds J s.payload_segment p.max_payload_size payload
        × (check_header J p header payload ≡ envelope_ok e)
  unfolding decode_segments
  both_decoded p s h =
      let dh =
        decode_json_object J s.header_segment p.max_header_size header_too_large
          invalid_header_json in
      let dp =
        decode_json_object J s.payload_segment p.max_payload_size payload_too_large
          invalid_payload_json in
      elim (Decoded-cases dh) [
        | inr (x, a) ↦ absurd (cc (rw (a, decode_segments) at h))
        | inl (header, a) ↦ elim (Decoded-cases dp) [
          | inr (x, b) ↦ absurd (cc (rw (a, b, decode_segments) at h))
          | inl (payload, b) ↦ (
            header,
            payload,
            decode_json_object-Holds J s.header_segment p.max_header_size _ _ a,
            decode_json_object-Holds J s.payload_segment p.max_payload_size _ _ b,
            rw (a, b, decode_segments) at h,
          )
        ]
      ]

  accepted_segments :
      (token : Bytes) (p : EnvelopePolicy) (s : Segments) {e : Envelope J}
      → split_compact_jws token ≡ some s
      → length token ≤ p.max_token_size
      → valid (some s.signature_segment) ≡ true
      → decode_segments J p s ≡ envelope_ok e
      → AcceptedToken J token p e
  accepted_segments token p s {e} sp bound v h =
      let (header, payload, hh, hp, h') = both_decoded p s h in
      let (eh, ep, unsupported, alg, known, allowed, type, kid, good) =
        checked J p header payload h' in
      let k = key_id_good e.key_id good in
      record {
        segments = s;
        token_is = split_compact_jws-join token sp;
        token_bound = bound;
        header_is = subst (Holds J s.header_segment p.max_header_size) (sym eh) hh;
        payload_is = subst (Holds J s.payload_segment p.max_payload_size) (sym ep) hp;
        signature_valid = v;
        none_forbidden = rw eh (none_forbidden_lem J header unsupported);
        algorithm_is = rw eh (algorithm_lem J header e.algorithm alg known);
        algorithm_known = known;
        algorithm_allowed = allowed;
        type_allowed = subst (λ x. TypeAllowed J x p) (sym eh) (type_lem J header p type);
        key_id_is = rw eh kid;
        key_id_bound = (k.0, k.1);
        key_id_clean = k.2;
      }

  -- A token is accepted only if it is three segments with dots between them, within the bound on
  -- its length, and each segment is valid Base64URL; header and payload decode, within their
  -- bounds, to JSON objects, the ones handed on; the header has none of the members that could
  -- redirect the verification; its algorithm is, by its exact name, one that the administrator
  -- allows; its type is allowed; and its key id, handed on, is a bounded text with no control
  -- character.
  pub parse-AcceptedToken :
      (token : Bytes) (p : EnvelopePolicy) {e : Envelope J}
      → parse J (some token) (some p) ≡ envelope_ok e
      → AcceptedToken J token p e
  unfolding parse parse_token
  parse-AcceptedToken token p {e} h =
      let h0 = guarded J (bad_envelope_policy p) envelope_bad_argument _ h in
      let h1 = guarded J (length token == 0) empty_token _ h0.1 in
      let h2 = guarded J (ltb p.max_token_size (length token)) token_too_large _ h1.1 in
      let h3 = guarded J (any (λ b. b == 0) token) invalid_compact_jws _ h2.1 in
      elim (Option-cases (split_compact_jws token)) [
        | inl sp ↦ absurd (cc (rw (sp, parse_token) at h3.1))
        | inr (s, sp) ↦
            let vh = valid (some s.header_segment) in
            let vp = valid (some s.payload_segment) in
            let vs = valid (some s.signature_segment) in
            let h4 : (if◌then◌else◌ {A = EnvelopeResult J} (not (vh && vp && vs))
                  (envelope_refused invalid_base64url) (decode_segments J p s))
                ≡ envelope_ok e =
              rw (sp, parse_token) at h3.1 in
            let h5 =
              guarded J (not (vh && vp && vs)) invalid_base64url (decode_segments J p s) h4 in
            accepted_segments token p s sp (ground (arith, h2.0)) (ground (arith, h5.0)) h5.1
      ]
