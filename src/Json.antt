-- ===== src/Json.antt =====
-- The values of the JSON library Jansson, as far as the code looks at them. A NULL pointer is
-- `none`. `string_of`, `array_of` and `integer_of` are `json_is_…` with the value that goes with it.
use pg_oauth_validator.Base.{Bool, Option, List, Bytes, ℤ}

pub record Jansson : Type 1 where
  pub Json : Type 0
  pub is_object : Json → Bool
  pub object_get : Json → Bytes → Option Json
  pub string_of : Json → Option Bytes
  pub array_of : Json → Option (List Json)
  pub integer_of : Json → Option ℤ
  -- `json_loadb` with JSON_REJECT_DUPLICATES
  pub loadb : Bytes → Option Json
