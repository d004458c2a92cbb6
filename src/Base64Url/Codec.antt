-- ===== src/Base64Url/Codec.antt =====
-- `pg_oauth_base64url_valid`, `_decoded_size`, `_decode`, `_encoded_size` and `_encode`. Bytes are
-- below 256. The shifted parts of a group share no bit, so `|` is a sum; a mask of low bits is a
-- remainder.
use pg_oauth_validator.Base.{
  [], ◌∷◌, ℕ, Bytes, Option, if◌then◌else◌, text, get_or, Bool, ◌/◌, ◌*◌, some, length, leb, ◌%◌,
  not, false, ◌+◌, ◌^◌, uint64_max, ◌&&◌, is_none, ◌==◌, ltb, none, ◌-◌, ◌||◌, all,
}

-- `none` is -1.
unfoldable pub base64url_value : ℕ → Option ℕ
base64url_value b =
    if leb b'A' b && leb b b'Z'
    then some (b - b'A')
    else if leb b'a' b && leb b b'z'
    then some (b - b'a' + 26)
    else if leb b'0' b && leb b b'9'
    then some (b - b'0' + 52)
    else if b == b'-'
    then some 62
    else if b == b'_'
    then some 63
    else none

abbrev pub table : Bytes
table = text "ABCDEFGHIJKLMNOPQRSTUVWXYZabcdefghijklmnopqrstuvwxyz0123456789-_"

-- `base64url_alphabet[bits & 63]`
unfoldable pub symbol : ℕ → ℕ
symbol bits = get_or table (bits % 64) 0

-- `(uint32_t) base64url_value(b)`
unfoldable pub value_bits : ℕ → ℕ
value_bits b = elim (base64url_value b) [ none ↦ 2 ^ 32 - 1 | some v ↦ v ]

unfoldable pub last_value : Bytes → ℕ
last_value [] = 0
last_value (b ∷ []) = value_bits b
last_value (b ∷ c ∷ bs) = last_value (c ∷ bs)

unfoldable pub is_symbol : ℕ → Bool
is_symbol b = not (is_none (base64url_value b))

-- No length 4n + 1, only symbols, and the bits that a last group does not use are 0.
unfoldable pub valid : Option Bytes → Bool
valid none = false
valid (some s) =
    not (length s == 0 || length s % 4 == 1)
    && all is_symbol s
    && not (length s % 4 == 2 && not (last_value s % 16 == 0))
    && not (length s % 4 == 3 && not (last_value s % 4 == 0))

abbrev pub rest_size : ℕ → ℕ
rest_size n = if n % 4 == 2 then 1 else if n % 4 == 3 then 2 else 0

unfoldable pub decoded_size : ℕ → ℕ → Option ℕ
decoded_size encoded_length maximum =
    let size = encoded_length / 4 * 3 + rest_size encoded_length in
    if ltb maximum size then none else some size

abbrev pub group_bits : ℕ → ℕ → ℕ → ℕ → ℕ
group_bits a b c d = a * 2 ^ 18 + b * 2 ^ 12 + c * 2 ^ 6 + d

-- The loop over groups of four symbols, and the two shorter last groups.
unfoldable pub decode_groups : Bytes → Bytes
decode_groups [] = []
decode_groups (a ∷ []) = []
decode_groups (a ∷ b ∷ []) = (value_bits a * 2 ^ 6 + value_bits b) / 2 ^ 4 % 256 ∷ []
decode_groups (a ∷ b ∷ c ∷ []) =
    let bits = value_bits a * 2 ^ 12 + value_bits b * 2 ^ 6 + value_bits c in
    bits / 2 ^ 10 % 256 ∷ bits / 2 ^ 2 % 256 ∷ []
decode_groups (a ∷ b ∷ c ∷ d ∷ s) =
    let bits = group_bits (value_bits a) (value_bits b) (value_bits c) (value_bits d) in
    bits / 2 ^ 16 % 256 ∷ bits / 2 ^ 8 % 256 ∷ bits % 256 ∷ decode_groups s

-- The caller's buffer has `size` bytes; `none` is the result false.
unfoldable pub decode : Option Bytes → ℕ → Option Bytes
decode none size = none
decode (some s) size =
    if not (valid (some s)) then none else elim (decoded_size (length s) uint64_max) [
      | none ↦ none
      | some expected ↦ if not (expected == size) then none else some (decode_groups s)
    ]

-- The tests against SIZE_MAX stand before the sums.
unfoldable pub encoded_size : ℕ → ℕ → Option ℕ
encoded_size input_length maximum =
    let rest = input_length % 3 + 1 in
    let size = input_length / 3 * 4 in
    let size' = if input_length % 3 == 0 then size else size + rest in
    if ltb (uint64_max / 4) (input_length / 3)
    then none
    else if not (input_length % 3 == 0) && ltb (uint64_max - rest) size
    then none
    else if ltb maximum size'
    then none
    else some size'

unfoldable pub encode_groups : Bytes → Bytes
encode_groups [] = []
encode_groups (a ∷ []) = let bits = a * 2 ^ 4 in symbol (bits / 2 ^ 6) ∷ symbol bits ∷ []
encode_groups (a ∷ b ∷ []) =
    let bits = a * 2 ^ 10 + b * 2 ^ 2 in
    symbol (bits / 2 ^ 12) ∷ symbol (bits / 2 ^ 6) ∷ symbol bits ∷ []
encode_groups (a ∷ b ∷ c ∷ bs) =
    let bits = a * 2 ^ 16 + b * 2 ^ 8 + c in
    symbol (bits / 2 ^ 18)
    ∷ symbol (bits / 2 ^ 12)
    ∷ symbol (bits / 2 ^ 6)
    ∷ symbol bits
    ∷ encode_groups bs

unfoldable pub encode : Bytes → ℕ → Option Bytes
encode bs size = elim (encoded_size (length bs) uint64_max) [
  | none ↦ none
  | some expected ↦ if not (expected == size) then none else some (encode_groups bs)
]
