-- ===== src/Identity/Utf8.antt =====
-- UTF-8, independently of the validator: code points and their encodings.
use pg_oauth_validator.Identity.Build.{bad_codepoint}
use pg_oauth_validator.Base.{
  [], ◌∷◌, ℕ, List, Bytes, Bool, ◌<◌, ◌≤◌, if◌then◌else◌, ◌++◌, leb, ◌≡◌, ltb, ◌&&◌, arith, ◌+◌,
  ◌/◌, not, ◌%◌, ◌*◌, false, true,
}

-- The encoding of a code point, by its size.
abbrev pub encode_utf8 : ℕ → Bytes
encode_utf8 c =
    if ltb c 0x80
    then c ∷ []
    else if ltb c 0x800
    then (192 + c / 64) ∷ (128 + c % 64) ∷ []
    else if ltb c 0x10000
    then (224 + c / 4096) ∷ (128 + c / 64 % 64) ∷ (128 + c % 64) ∷ []
    else (240 + c / 262144) ∷ (128 + c / 4096 % 64) ∷ (128 + c / 64 % 64) ∷ (128 + c % 64) ∷ []

abbrev pub encode_text : List ℕ → Bytes
encode_text [] = []
encode_text (c ∷ cs) = encode_utf8 c ++ encode_text cs

-- A Unicode scalar value that is no control character.
abbrev pub printable : ℕ → Bool
printable c =
    leb 0x20 c
    && not (leb 0x7f c && leb c 0x9f)
    && not (leb 0xd800 c && leb c 0xdfff)
    && leb c 0x10ffff

pub encode_utf8-1 : (c : ℕ) → c < 0x80 → encode_utf8 c ≡ c ∷ []
encode_utf8-1 c h = ground arith

pub encode_utf8-2 :
    (c : ℕ) → 0x80 ≤ c → c < 0x800 → encode_utf8 c ≡ (192 + c / 64) ∷ (128 + c % 64) ∷ []
encode_utf8-2 c l h = ground arith

pub encode_utf8-3 :
    (c : ℕ)
    → 0x800 ≤ c
    → c < 0x10000
    → encode_utf8 c ≡ (224 + c / 4096) ∷ (128 + c / 64 % 64) ∷ (128 + c % 64) ∷ []
encode_utf8-3 c l h = ground arith

pub encode_utf8-4 :
    (c : ℕ)
    → 0x10000 ≤ c
    → encode_utf8 c
      ≡ (240 + c / 262144) ∷ (128 + c / 4096 % 64) ∷ (128 + c / 64 % 64) ∷ (128 + c % 64) ∷ []
encode_utf8-4 c l = ground arith

-- One character read back: a first byte with its continuation bytes is the encoding.
module _ (first : ℕ) (r : Bytes) where
  pub two_bytes :
      (b : ℕ)
      → 0xc2 ≤ first
      → first ≤ 0xdf
      → b < 256
      → b / 64 % 4 ≡ 2
      → bad_codepoint 1 (first % 32 * 64 + b % 64) ≡ false
      → (printable (first % 32 * 64 + b % 64) ≡ true)
        × (first ∷ b ∷ r ≡ encode_utf8 (first % 32 * 64 + b % 64) ++ r)
  unfolding bad_codepoint
  two_bytes b h1 h2 hb cont good =
      let c : ℕ = first % 32 * 64 + b % 64 in
      let low : 0x80 ≤ c = omega arith in
      let high : c < 0x800 = omega arith in
      let e1 : first ≡ 192 + c / 64 = omega arith in
      let e2 : b ≡ 128 + c % 64 = omega arith in
      (ground arith, rw (encode_utf8-2 c low high) (cc (e1, e2)))

  pub three_bytes :
      (b d : ℕ)
      → 0xe0 ≤ first
      → first ≤ 0xef
      → b < 256
      → d < 256
      → b / 64 % 4 ≡ 2
      → d / 64 % 4 ≡ 2
      → bad_codepoint 2 ((first % 16 * 64 + b % 64) * 64 + d % 64) ≡ false
      → (printable ((first % 16 * 64 + b % 64) * 64 + d % 64) ≡ true)
        × (first ∷ b ∷ d ∷ r ≡ encode_utf8 ((first % 16 * 64 + b % 64) * 64 + d % 64) ++ r)
  unfolding bad_codepoint
  three_bytes b d h1 h2 hb hd contb contd good =
      let c : ℕ = (first % 16 * 64 + b % 64) * 64 + d % 64 in
      let low : 0x800 ≤ c = ground arith in
      let high : c < 0x10000 = omega arith in
      let e1 : first ≡ 224 + c / 4096 = omega arith in
      let e2 : b ≡ 128 + c / 64 % 64 = omega arith in
      let e3 : d ≡ 128 + c % 64 = omega arith in
      (ground arith, rw (encode_utf8-3 c low high) (cc (e1, e2, e3)))

  pub four_bytes :
      (b d e : ℕ)
      → 0xf0 ≤ first
      → first ≤ 0xf4
      → b < 256
      → d < 256
      → e < 256
      → b / 64 % 4 ≡ 2
      → d / 64 % 4 ≡ 2
      → e / 64 % 4 ≡ 2
      → bad_codepoint 3 (((first % 8 * 64 + b % 64) * 64 + d % 64) * 64 + e % 64) ≡ false
      → (printable (((first % 8 * 64 + b % 64) * 64 + d % 64) * 64 + e % 64) ≡ true)
        × (first ∷ b ∷ d ∷ e ∷ r
            ≡ encode_utf8 (((first % 8 * 64 + b % 64) * 64 + d % 64) * 64 + e % 64) ++ r)
  unfolding bad_codepoint
  four_bytes b d e h1 h2 hb hd he contb contd conte good =
      let c : ℕ = ((first % 8 * 64 + b % 64) * 64 + d % 64) * 64 + e % 64 in
      let low : 0x10000 ≤ c = ground arith in
      let e1 : first ≡ 240 + c / 262144 = omega arith in
      let e2 : b ≡ 128 + c / 4096 % 64 = omega arith in
      let e3 : d ≡ 128 + c / 64 % 64 = omega arith in
      let e4 : e ≡ 128 + c % 64 = omega arith in
      (ground arith, rw (encode_utf8-4 c low) (cc (e1, e2, e3, e4)))
