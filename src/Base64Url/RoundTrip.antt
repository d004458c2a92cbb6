-- ===== src/Base64Url/RoundTrip.antt =====
-- Encoding and decoding undo each other, sizes and guards included.
use pg_oauth_validator.Base64Url.Groups.{ValidGroups, ValidGroups-valid, valid-ValidGroups}
use pg_oauth_validator.Base64Url.Decoded.{
  AllBytes, encode_groups-ValidGroups, decode_groups-encode_groups, encode_groups-decode_groups,
}
use pg_oauth_validator.Base64Url.Codec.{
  encode_groups, rest_size, decode_groups, encoded_size, encode, decoded_size, decode, valid,
}
use pg_oauth_validator.Base.{
  [], ◌∷◌, ℕ, Bytes, ◌/◌, ◌≡◌, ◌*◌, arith, ◌+◌, if◌then◌else◌, ◌%◌, ◌==◌, length, ◌≤◌, ◌<◌,
  uint64_max, some, ◌^◌, refl, true, ap, ◌∙◌, subst, sym,
}

abbrev text_size : ℕ → ℕ
text_size n = n / 3 * 4 + (if n % 3 == 0 then 0 else n % 3 + 1)

length-encode_groups : (bs : Bytes) → length (encode_groups bs) ≡ text_size (length bs)
unfolding encode_groups
length-encode_groups [] = refl
length-encode_groups (a ∷ []) = refl
length-encode_groups (a ∷ b ∷ []) = refl
length-encode_groups (a ∷ b ∷ c ∷ bs) = ground (arith, length-encode_groups bs)

abbrev byte_size : ℕ → ℕ
byte_size n = n / 4 * 3 + rest_size n

length-decode_groups : (s : Bytes) → ValidGroups s → length (decode_groups s) ≡ byte_size (length s)
unfolding decode_groups
length-decode_groups [] v = refl
length-decode_groups (a ∷ []) v = absurd v
length-decode_groups (a ∷ b ∷ []) v = refl
length-decode_groups (a ∷ b ∷ c ∷ []) v = refl
length-decode_groups (a ∷ b ∷ c ∷ d ∷ s) v = ground (arith, length-decode_groups s v.4)

encoded_size_lem :
    (n : ℕ) → text_size n ≤ uint64_max → encoded_size n uint64_max ≡ some (text_size n)
unfolding encoded_size
encoded_size_lem n h = ground arith

encode_lem :
    (bs : Bytes)
    → text_size (length bs) ≤ uint64_max
    → encode bs (text_size (length bs)) ≡ some (encode_groups bs)
unfolding encode
encode_lem bs h = rw (encoded_size_lem (length bs) h, encode) (ground arith)

decoded_size_lem :
    (n : ℕ) → byte_size n ≤ uint64_max → decoded_size n uint64_max ≡ some (byte_size n)
unfolding decoded_size
decoded_size_lem n h = ground arith

decode_lem :
    (s : Bytes)
    → valid (some s) ≡ true
    → byte_size (length s) ≤ uint64_max
    → decode (some s) (byte_size (length s)) ≡ some (decode_groups s)
unfolding decode
decode_lem s v h = rw (v, decoded_size_lem (length s) h, decode) (ground arith)

byte_size-text_size : (n : ℕ) → byte_size (text_size n) ≡ n
byte_size-text_size n = ground arith

-- Every nonempty sequence of fewer than 2^62 bytes is encoded, and the text decodes to it.
pub encode_then_decode :
    (bs : Bytes)
    → AllBytes bs
    → 0 < length bs
    → length bs < 2 ^ 62
    → (s : Bytes) × (encode bs (length s) ≡ some s) × (decode (some s) (length bs) ≡ some bs)
encode_then_decode bs b pos bound =
    let s = encode_groups bs in
    let ls = length-encode_groups bs in
    let v = ValidGroups-valid s (ground (arith, ls)) (encode_groups-ValidGroups bs b) in
    let size : byte_size (length s) ≡ length bs =
      ap byte_size ls ∙ byte_size-text_size (length bs) in
    (
      s,
      rw ls (encode_lem bs (ground arith)),
      subst (λ n. decode (some s) n ≡ some bs) size
          (decode_lem s v (omega (arith, size, bound))
            ∙ ap some (decode_groups-encode_groups bs b)),
    )

decoded_only :
    (s : Bytes) (n : ℕ) {bs : Bytes}
    → decode (some s) n ≡ some bs
    → (valid (some s) ≡ true) × (byte_size (length s) ≡ n) × (decode_groups s ≡ bs)
unfolding decode decoded_size
decoded_only s n h = ground arith

text_size-byte_size : (n : ℕ) → (n % 4 ≡ 1 → ⊥) → text_size (byte_size n) ≡ n
text_size-byte_size n h = ground arith

ValidGroups-length : (s : Bytes) → ValidGroups s → length s % 4 ≡ 1 → ⊥
ValidGroups-length [] v e = omega arith
ValidGroups-length (a ∷ []) v e = v
ValidGroups-length (a ∷ b ∷ []) v e = omega arith
ValidGroups-length (a ∷ b ∷ c ∷ []) v e = omega arith
ValidGroups-length (a ∷ b ∷ c ∷ d ∷ s) v e = ValidGroups-length s v.4 (omega arith)

-- A text of fewer than 2^62 symbols that is decoded is the one text of its bytes: they are as many
-- as was asked for, and encoding them gives the text back.
pub decode_then_encode :
    (s : Bytes) (n : ℕ) {bs : Bytes}
    → length s < 2 ^ 62
    → decode (some s) n ≡ some bs
    → (length bs ≡ n) × (encode bs (length s) ≡ some s)
decode_then_encode s n {bs} bound h =
    let (v, size, e) = decoded_only s n h in
    let g = valid-ValidGroups s v in
    let lb = length-decode_groups s g in
    let lt = ap text_size lb ∙ text_size-byte_size (length s) (ValidGroups-length s g) in
    let back =
      encode_lem (decode_groups s) (omega (arith, lt, bound))
      ∙ ap some (encode_groups-decode_groups s g) in
    (
      ap length (sym e) ∙ lb ∙ size,
      subst (λ y. encode y (length s) ≡ some s) e
          (subst (λ y. encode (decode_groups s) y ≡ some s) lt back),
    )

pub length-decode : (s : Bytes) (n : ℕ) {bs : Bytes} → decode (some s) n ≡ some bs → length bs ≡ n
length-decode s n h =
    let (v, size, e) = decoded_only s n h in
    ap length (sym e) ∙ length-decode_groups s (valid-ValidGroups s v) ∙ size
