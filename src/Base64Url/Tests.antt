-- ===== src/Base64Url/Tests.antt =====
-- "hi" and its text.
use pg_oauth_validator.Base64Url.RoundTrip.{encode_then_decode, decode_then_encode}
use pg_oauth_validator.Base64Url.Codec.{
  encode, decode, valid, decoded_size, decode_groups, value_bits, base64url_value, last_value,
  is_symbol,
}
use pg_oauth_validator.Base.{Bytes, length, text, ◌≡◌, some, refl, arith}

abbrev hi : Bytes
hi = text "hi"

encode_then_decode_example :
    (s : Bytes) × (encode hi (length s) ≡ some s) × (decode (some s) 2 ≡ some hi)
encode_then_decode_example = encode_then_decode hi (ground arith) (omega arith) (omega arith)

hi_lem : decode (some (text "aGk")) 2 ≡ some hi
unfolding decode valid decoded_size decode_groups value_bits base64url_value last_value is_symbol
hi_lem = refl

decode_then_encode_example : (length hi ≡ 2) × (encode hi 3 ≡ some (text "aGk"))
decode_then_encode_example = decode_then_encode (text "aGk") 2 (omega arith) hi_lem
