-- ===== src/Identity/Tests.antt =====
-- "é" in UTF-8.
use pg_oauth_validator.Identity.Identities.{identity_build-IsText, valid_utf8_iff}
use pg_oauth_validator.Identity.Build.{
  IdentityPolicy, valid_utf8, identity_build, valid_utf8_loop, multibyte, lead, continuation,
  bad_codepoint, identity_ok,
}
use pg_oauth_validator.Base.{[], ◌∷◌, some, Bytes, ◌≡◌, ◌<◌, ◌≤◌, true, arith, ◌↔◌, refl}
use pg_oauth_validator.Identity.Decode.{IsText}

abbrev accented : Bytes
accented = 195 ∷ 169 ∷ []

abbrev bounds : IdentityPolicy
bounds = record { max_subject_size = 64; max_authn_id_size = 64 }

valid_utf8_iff_example : (valid_utf8 accented ≡ true) ↔ IsText accented
valid_utf8_iff_example = valid_utf8_iff accented (ground arith)

accented_lem : identity_build (some accented) (some bounds) ≡ identity_ok accented
unfolding identity_build valid_utf8 valid_utf8_loop multibyte lead continuation bad_codepoint
accented_lem = refl

identity_build-IsText_example :
    (accented ≡ accented) × (0 < 2) × (2 ≤ 64) × (2 ≤ 64) × IsText accented
identity_build-IsText_example = identity_build-IsText accented bounds (ground arith) accented_lem
