-- ===== src/HttpTransport/Buffer.antt =====
-- The two callbacks that libcurl calls with parts of a response. `memory` says whether realloc
-- succeeds, and the number that a callback returns comes with the new buffer.
use pg_oauth_validator.HttpFreshness.Calculate.{Headers}
use pg_oauth_validator.Base.{
  [], ◌∷◌, none, some, ℕ, Bool, Option, Bytes, ◌==◌, if◌then◌else◌, ◌||◌, ◌&&◌, ◌*◌, ◌/◌, ◌++◌,
  true, not, length, ltb, take, size_minus, uint64_max, before, behind, skip, skip_back, is_blank,
  eq_ignore_case, text, is_none,
}

pub record ResponseBuffer : Type 0 where
  pub contents : Option Bytes
  pub maximum : ℕ
  pub too_large : Bool
  pub out_of_memory : Bool

pub record HeaderBuffer : Type 0 where
  pub headers : Headers
  pub too_large : Bool
  pub out_of_memory : Bool

abbrev pub bytes_of : Option Bytes → Bytes
bytes_of none = []
bytes_of (some bs) = bs

-- What libcurl hands over: `count` elements of `size` bytes.
pub record Delivery : Type 0 where
  pub size : ℕ
  pub count : ℕ
  pub contents : Bytes
  pub memory : Bool

-- `size != 0 && count > SIZE_MAX / size`
unfoldable pub overflows : ℕ → ℕ → Bool
overflows size count = not (size == 0) && ltb (uint64_max / size) count

abbrev pub delivered : Delivery → Bytes
delivered d = take (d.size * d.count) d.contents

unfoldable pub append_response : ResponseBuffer → Delivery → ResponseBuffer × ℕ
append_response b d =
    if overflows d.size d.count
    then (record b { too_large = true }, 0)
    else if ltb (size_minus b.maximum (length (bytes_of b.contents))) (d.size * d.count)
    then (record b { too_large = true }, 0)
    else if not d.memory
    then (record b { out_of_memory = true }, 0)
    else (record b { contents = some (bytes_of b.contents ++ delivered d) }, d.size * d.count)

abbrev pub max_freshness_header_size : ℕ
max_freshness_header_size = 4096

-- The value behind what is there already, and a comma if that is not empty.
abbrev pub joined : Bytes → Bytes → Bytes
joined [] value = value
joined (b ∷ bs) value = (b ∷ bs) ++ (b',' ∷ value)

abbrev pub separator : Bytes → ℕ
separator [] = 0
separator (b ∷ bs) = 1

-- `none` where the function returns false.
unfoldable pub append_header_value : Option Bytes → Bytes → Bool → Option Bytes
append_header_value target value memory =
    let old = bytes_of target in
    if ltb (size_minus (size_minus max_freshness_header_size (length old)) (separator old))
      (length value)
    then none
    else if not memory
    then none
    else some (joined old value)

pub data HeaderName : Type 0 where
  cache_control_header date_header expires_header age_header : HeaderName

unfoldable pub header_named : Bytes → Option HeaderName
header_named name =
    if eq_ignore_case name (text "Cache-Control")
    then some cache_control_header
    else if eq_ignore_case name (text "Date")
    then some date_header
    else if eq_ignore_case name (text "Expires")
    then some expires_header
    else if eq_ignore_case name (text "Age")
    then some age_header
    else none

unfoldable pub header : Headers → HeaderName → Option Bytes
header h cache_control_header = h.cache_control
header h date_header = h.date
header h expires_header = h.expires
header h age_header = h.age

unfoldable pub with_header : Headers → HeaderName → Bytes → Headers
with_header h cache_control_header v = record h { cache_control = some v }
with_header h date_header v = record h { date = some v }
with_header h expires_header v = record h { expires = some v }
with_header h age_header v = record h { age = some v }

abbrev pub is_line_end : ℕ → Bool
is_line_end b = b == 13 || b == 10 || is_blank b

-- The value between the colon and the end of the line.
unfoldable pub header_value : Bytes → Bytes
header_value rest = skip_back is_line_end (skip is_blank rest)

unfoldable pub store_header : HeaderBuffer → HeaderName → Bytes → Delivery → HeaderBuffer × ℕ
store_header h name value d = elim (append_header_value (header h.headers name) value d.memory) [
  | some v ↦ (record h { headers = with_header h.headers name v }, d.size * d.count)
  | none ↦
      if not (is_none (header h.headers name)) || ltb max_freshness_header_size (length value)
      then (record h { too_large = true }, 0)
      else (record h { out_of_memory = true }, 0)
]

unfoldable pub capture_line : HeaderBuffer → Delivery → Option Bytes → HeaderBuffer × ℕ
capture_line h d none = (h, d.size * d.count)
capture_line h d (some rest) = elim (header_named (before b':' (delivered d))) [
  | none ↦ (h, d.size * d.count)
  | some name ↦ store_header h name (header_value rest) d
]

unfoldable pub capture_header : HeaderBuffer → Delivery → HeaderBuffer × ℕ
capture_header h d =
    if overflows d.size d.count
    then (record h { too_large = true }, 0)
    else capture_line h d (behind b':' (delivered d))
