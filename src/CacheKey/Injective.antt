-- ===== src/CacheKey/Injective.antt =====
-- The encoding of a list of fields loses nothing.
use mathlib.Core.List.{append_assoc}
use pg_oauth_validator.CacheKey.Width.{
  append_cancel, length-u32_bytes, u32_bytes-injective, length-u64_bytes, u64_bytes-injective,
}
use pg_oauth_validator.CacheKey.Layout.{encode, encode_all}
use pg_oauth_validator.CacheState.Types.{max_key_size}
use pg_oauth_validator.Base.{
  [], ◌∷◌, ◌≡◌, ◌<◌, Bytes, List, ◌^◌, length, All, ◌++◌, refl, ap, ◌%◌, ◌∙◌, arith, sym,
}
use pg_oauth_validator.CacheKey.Build.{Item, raw, u8, u32, u64, string, u32_bytes, u64_bytes}

-- The same field of two policies: one kind, and for a constant one value.
abbrev pub Alike : Item → Item → Type 0
Alike (raw b) (raw c) = b ≡ c
Alike (u8 m) (u8 n) = Unit {0}
Alike (u32 m) (u32 n) = Unit {0}
Alike (u64 m) (u64 n) = Unit {0}
Alike (string s) (string t) = Unit {0}
Alike x y = ⊥

-- The range of the field's C type; a text is one that `append_string` accepts.
abbrev pub Fits : Item → Type 0
Fits (raw b) = Unit {0}
Fits (u8 n) = n < 256
Fits (u32 n) = n < 2 ^ 32
Fits (u64 n) = n < 2 ^ 64
Fits (string s) = length s < max_key_size

string-cancel :
    (s t r r' : Bytes)
    → length s < max_key_size
    → length t < max_key_size
    → encode (string s) ++ r ≡ encode (string t) ++ r'
    → (s ≡ t) × (r ≡ r')
string-cancel s t r r' hs ht h =
    let first =
      append_cancel (u32_bytes (length s)) (u32_bytes (length t)) (s ++ r) (t ++ r')
        (length-u32_bytes _ ∙ sym (length-u32_bytes _))
        (sym (append_assoc (u32_bytes (length s)) s r)
          ∙ h
          ∙ append_assoc (u32_bytes (length t)) t r') in
    append_cancel s t r r' (u32_bytes-injective _ _ (omega arith) (omega arith) first.0) first.1

encode-cancel :
    (x y : Item) (r r' : Bytes)
    → Alike x y
    → Fits x
    → Fits y
    → encode x ++ r ≡ encode y ++ r'
    → (x ≡ y) × (r ≡ r')
encode-cancel (raw b) (raw c) r r' a hx hy h =
    let t = append_cancel b c r r' (ap length a) h in (ap raw t.0, t.1)
encode-cancel (u8 m) (u8 n) r r' a hx hy h =
    let e : m % 256 ≡ n % 256 = cc h in
    let e' : r ≡ r' = cc h in let e'' : m ≡ n = omega arith in (ap u8 e'', e')
encode-cancel (u32 m) (u32 n) r r' a hx hy h =
    let t =
      append_cancel (u32_bytes m) (u32_bytes n) r r' (length-u32_bytes _ ∙ sym (length-u32_bytes _))
        h in
    (ap u32 (u32_bytes-injective m n hx hy t.0), t.1)
encode-cancel (u64 m) (u64 n) r r' a hx hy h =
    let t =
      append_cancel (u64_bytes m) (u64_bytes n) r r' (length-u64_bytes _ ∙ sym (length-u64_bytes _))
        h in
    (ap u64 (u64_bytes-injective m n hx hy t.0), t.1)
encode-cancel (string s) (string t) r r' a hx hy h =
    let c = string-cancel s t r r' hx hy h in (ap string c.0, c.1)
encode-cancel _ _ r r' a hx hy h = absurd a

abbrev pub AllAlike : List Item → List Item → Type 0
AllAlike [] [] = Unit {0}
AllAlike (x ∷ xs) (y ∷ ys) = Alike x y × AllAlike xs ys
AllAlike xs ys = ⊥

pub encode_all-injective :
    (xs ys : List Item)
    → AllAlike xs ys
    → All Fits xs
    → All Fits ys
    → encode_all xs ≡ encode_all ys
    → xs ≡ ys
encode_all-injective [] [] a hx hy h = refl
encode_all-injective [] (y ∷ ys) a hx hy h = absurd a
encode_all-injective (x ∷ xs) [] a hx hy h = absurd a
encode_all-injective (x ∷ xs) (y ∷ ys) a hx hy h =
    let t = encode-cancel x y (encode_all xs) (encode_all ys) a.0 hx.0 hy.0 h in
    let rest = encode_all-injective xs ys a.1 hx.1 hy.1 t.1 in cc (t.0, rest)
