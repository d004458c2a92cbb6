-- ===== src/Signature/Tests.antt =====
-- A checker that accepts one token.
use pg_oauth_validator.Example.{json, key}
use pg_oauth_validator.Signature.Sound.{CheckedBy, signature_verify-CheckedBy}
use pg_oauth_validator.Signature.Verify.{
  Libjwt, signature_verify, verify_with, verify_dumped, verify_imported, verify_by, with_key,
  without_leeway, libjwt_algorithm,
}
use pg_oauth_validator.Base.{some, false, ◌≡◌, refl, none, Bytes, bytes_eq, text}

abbrev checker : Libjwt json
checker = record {
  KeySet = Bytes;
  KeyItem = Bytes;
  Checker = Bytes;
  json_dumps = λ v. some (text "{}");
  jwks_create = λ b. some b;
  jwks_error = λ b. false;
  jwks_item_count = λ b. 1;
  jwks_item_get = λ b. some b;
  checker_new = some (text "");
  checker_setkey = λ c a k. some k;
  disable_leeway = λ c t. some c;
  checker_verify = λ c t. bytes_eq t (text "a.b.c");
}

signature_verify_lem : signature_verify json checker (some (text "a.b.c")) (some (key, 4)) ≡ none
unfolding signature_verify verify_with verify_dumped verify_imported verify_by with_key
    without_leeway libjwt_algorithm bytes_eq
signature_verify_lem = refl

signature_verify-CheckedBy_example : CheckedBy json checker (text "a.b.c") key 4
signature_verify-CheckedBy_example =
    signature_verify-CheckedBy json checker (text "a.b.c") key 4 signature_verify_lem
