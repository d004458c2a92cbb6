-- ===== src/Identity/Identities.antt =====
-- What the identity is made of.
use pg_oauth_validator.Identity.Encode.{encode_text-passes}
use pg_oauth_validator.Base64Url.Decoded.{AllBytes}
use pg_oauth_validator.Identity.Build.{
  valid_utf8, valid_utf8_loop, identity_build, IdentityPolicy, identity_ok,
}
use pg_oauth_validator.Base.{Bytes, ◌≡◌, true, ◌↔◌, length, subst, sym, arith, some, ◌<◌, ◌≤◌}
use pg_oauth_validator.Identity.Decode.{IsText, valid_utf8_loop-IsText}

-- A text of bytes passes exactly if it is the UTF-8 encoding of Unicode scalar values none of which
-- is a control character: no overlong form, no surrogate, nothing above U+10FFFF, nothing cut off.
pub valid_utf8_iff : (bs : Bytes) → AllBytes bs → (valid_utf8 bs ≡ true) ↔ IsText bs
unfolding valid_utf8
valid_utf8_iff bs r = (
  valid_utf8_loop-IsText (length bs) bs r,
  λ (cs, good, e).
      subst (λ y. valid_utf8_loop (length y) y ≡ true) (sym e)
        (encode_text-passes cs _ good (omega arith)),
)

identity_build-checks :
    (s : Bytes) (p : IdentityPolicy) {i : Bytes}
    → identity_build (some s) (some p) ≡ identity_ok i
    → (i ≡ s)
      × (0 < length s)
      × (length s ≤ p.max_subject_size)
      × (length s ≤ p.max_authn_id_size)
      × (valid_utf8 s ≡ true)
unfolding identity_build
identity_build-checks s p h = ground arith

-- An identity that is built is the subject itself, unchanged: not empty, within both bounds of the
-- policy, and the UTF-8 encoding of code points none of which is a control character.
pub identity_build-IsText :
    (s : Bytes) (p : IdentityPolicy) {i : Bytes}
    → AllBytes s
    → identity_build (some s) (some p) ≡ identity_ok i
    → (i ≡ s)
      × (0 < length s)
      × (length s ≤ p.max_subject_size)
      × (length s ≤ p.max_authn_id_size)
      × IsText s
identity_build-IsText s p r h =
    let t = identity_build-checks s p h in (t.0, t.1, t.2, t.3, (valid_utf8_iff s r).0 t.4)
