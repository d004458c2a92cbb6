-- ===== src/Base64Url/Alphabet.antt =====
-- Symbols and their values.
use pg_oauth_validator.Base.{
  ℕ, ◌≡◌, if◌then◌else◌, Bool, true, ◌<◌, some, ◌%◌, ltb, suc, arith, ap, refl, ◌+◌, ◌==◌,
  Bool-cases, ◌∙◌, get_or, ◌-◌, ◌&&◌, inl, inr, &&-eq-true, zero, Option-cases,
}
use pg_oauth_validator.Base64Url.Codec.{symbol, base64url_value, table, value_bits, is_symbol}

-- The table as ranges.
abbrev symbol_of : ℕ → ℕ
symbol_of v =
    if ltb v 26
    then v + b'A'
    else if ltb v 52
    then v - 26 + b'a'
    else if ltb v 62
    then v - 52 + b'0'
    else if v == 62
    then b'-'
    else b'_'

abbrev agree_below : ℕ → Bool
agree_below zero = true
agree_below (suc n) = symbol n == symbol_of n && agree_below n

agree_below-le : (n v : ℕ) → agree_below n ≡ true → v < n → symbol v ≡ symbol_of v
agree_below-le zero v h lt = absurd (omega arith)
agree_below-le (suc n) v h lt = elim (Bool-cases (v == n)) [
  | inl e ↦ ground arith
  | inr e ↦ agree_below-le n v (&&-eq-true _ _ h).1 (ground arith)
]

agree : agree_below 64 ≡ true
unfolding symbol
agree = refl

symbol_lem : (v : ℕ) → v < 64 → symbol v ≡ symbol_of v
symbol_lem v h = agree_below-le 64 v agree h

pub value-symbol : (v : ℕ) → v < 64 → base64url_value (symbol v) ≡ some v
unfolding base64url_value
value-symbol v h = rw (symbol_lem v h) (ground arith)

pub symbol-value : (b v : ℕ) → base64url_value b ≡ some v → (v < 64) × (symbol v ≡ b)
unfolding base64url_value
symbol-value b v h = let lt : v < 64 = ground arith in (lt, symbol_lem v lt ∙ ground arith)

pub symbol-mod : (n : ℕ) → symbol n ≡ symbol (n % 64)
unfolding symbol
symbol-mod n = let e : n % 64 ≡ n % 64 % 64 = omega arith in ap (λ i. get_or table i 0) e

pub value_bits-symbol : (n : ℕ) → value_bits (symbol n) ≡ n % 64
unfolding value_bits
value_bits-symbol n =
    let lt : n % 64 < 64 = omega arith in
    rw (symbol-mod n, value-symbol (n % 64) lt, value_bits) refl

pub is_symbol-symbol : (n : ℕ) → is_symbol (symbol n) ≡ true
unfolding is_symbol
is_symbol-symbol n =
    let lt : n % 64 < 64 = omega arith in
    rw (symbol-mod n, value-symbol (n % 64) lt, is_symbol) refl

pub symbol-value_bits :
    (b : ℕ) → is_symbol b ≡ true → (value_bits b < 64) × (symbol (value_bits b) ≡ b)
unfolding is_symbol value_bits
symbol-value_bits b h = elim (Option-cases (base64url_value b)) [
  | inl e ↦ absurd (cc (h, e))
  | inr (v, e) ↦ rw (e, value_bits) (symbol-value b v e)
]
