-- ===== src/Base64Url/Decoded.antt =====
-- The loops of `encode` and `decode` undo each other.
use pg_oauth_validator.Base.{
  [], ◌∷◌, Bytes, ℕ, All, ◌*◌, ◌<◌, ◌^◌, ◌≡◌, ◌∙◌, true, arith, ◌/◌, ◌%◌, ◌+◌, ap, refl,
}
use pg_oauth_validator.Base64Url.Codec.{
  symbol, encode_groups, decode_groups, is_symbol, value_bits, group_bits,
}
use pg_oauth_validator.Base64Url.Alphabet.{
  is_symbol-symbol, value_bits-symbol, symbol-value_bits, symbol-mod,
}
use pg_oauth_validator.Base64Url.Groups.{ValidGroups}

-- The bytes of an object in memory.
abbrev pub AllBytes : Bytes → Type 0
AllBytes bs = All (λ b. b < 256) bs

pub encode_groups-ValidGroups : (bs : Bytes) → AllBytes bs → ValidGroups (encode_groups bs)
unfolding encode_groups
encode_groups-ValidGroups [] h = tt
encode_groups-ValidGroups (a ∷ []) h =
    (is_symbol-symbol _, is_symbol-symbol _, omega (arith, value_bits-symbol (a * 2 ^ 4)))
encode_groups-ValidGroups (a ∷ b ∷ []) h = (
  is_symbol-symbol _,
  is_symbol-symbol _,
  is_symbol-symbol _,
  omega (arith, value_bits-symbol (a * 2 ^ 10 + b * 2 ^ 2)),
)
encode_groups-ValidGroups (a ∷ b ∷ c ∷ bs) h = (
  is_symbol-symbol _,
  is_symbol-symbol _,
  is_symbol-symbol _,
  is_symbol-symbol _,
  encode_groups-ValidGroups bs h.1.1.1,
)

pub decode_groups-encode_groups : (bs : Bytes) → AllBytes bs → decode_groups (encode_groups bs) ≡ bs
unfolding encode_groups decode_groups
decode_groups-encode_groups [] h = refl
decode_groups-encode_groups (a ∷ []) h =
    let v = value_bits-symbol in
    let x = a * 2 ^ 4 in
    let e : (value_bits (symbol (x / 2 ^ 6)) * 2 ^ 6 + value_bits (symbol x)) / 2 ^ 4 % 256 ≡ a =
      omega (arith, v (x / 2 ^ 6), v x, h.0) in
    ap (λ a. a ∷ []) e
decode_groups-encode_groups (a ∷ b ∷ []) h =
    let v = value_bits-symbol in
    let x = a * 2 ^ 10 + b * 2 ^ 2 in
    let e : value_bits (symbol (x / 2 ^ 12)) * 2 ^ 12
          + value_bits (symbol (x / 2 ^ 6)) * 2 ^ 6
          + value_bits (symbol x)
        ≡ x =
      omega (arith, v (x / 2 ^ 12), v (x / 2 ^ 6), v x, h.0, h.1.0) in
    let first : x / 2 ^ 10 % 256 ≡ a = omega (arith, h.0, h.1.0) in
    let second : x / 2 ^ 2 % 256 ≡ b = omega (arith, h.0, h.1.0) in rw e (cc (first, second))
decode_groups-encode_groups (a ∷ b ∷ c ∷ bs) h =
    let v = value_bits-symbol in
    let x = a * 2 ^ 16 + b * 2 ^ 8 + c in
    let e : group_bits (value_bits (symbol (x / 2 ^ 18))) (value_bits (symbol (x / 2 ^ 12)))
          (value_bits (symbol (x / 2 ^ 6))) (value_bits (symbol x))
        ≡ x =
      omega (arith, v (x / 2 ^ 18), v (x / 2 ^ 12), v (x / 2 ^ 6), v x, h.0, h.1.0, h.1.1.0) in
    let first : x / 2 ^ 16 % 256 ≡ a = omega (arith, h.0, h.1.0, h.1.1.0) in
    let second : x / 2 ^ 8 % 256 ≡ b = omega (arith, h.0, h.1.0, h.1.1.0) in
    let third : x % 256 ≡ c = omega (arith, h.0, h.1.0, h.1.1.0) in
    rw e (cc (first, second, third, decode_groups-encode_groups bs h.1.1.1))

symbol-at : (n b : ℕ) → is_symbol b ≡ true → n % 64 ≡ value_bits b → symbol n ≡ b
symbol-at n b h e = symbol-mod n ∙ ap symbol e ∙ (symbol-value_bits b h).1

pub encode_groups-decode_groups : (s : Bytes) → ValidGroups s → encode_groups (decode_groups s) ≡ s
unfolding encode_groups decode_groups
encode_groups-decode_groups [] v = refl
encode_groups-decode_groups (a ∷ []) v = absurd v
encode_groups-decode_groups (a ∷ b ∷ []) v =
    let la = (symbol-value_bits a v.0).0 in
    let lb = (symbol-value_bits b v.1).0 in
    let x : ℕ = (value_bits a * 2 ^ 6 + value_bits b) / 2 ^ 4 % 256 in
    let e1 = symbol-at (x * 2 ^ 4 / 2 ^ 6) a v.0 (omega (arith, la, lb, v.2)) in
    let e2 = symbol-at (x * 2 ^ 4) b v.1 (omega (arith, la, lb, v.2)) in cc (e1, e2)
encode_groups-decode_groups (a ∷ b ∷ c ∷ []) v =
    let la = (symbol-value_bits a v.0).0 in
    let lb = (symbol-value_bits b v.1).0 in
    let lc = (symbol-value_bits c v.2).0 in
    let bits : ℕ = value_bits a * 2 ^ 12 + value_bits b * 2 ^ 6 + value_bits c in
    let x : ℕ = bits / 2 ^ 10 % 256 * 2 ^ 10 + bits / 2 ^ 2 % 256 * 2 ^ 2 in
    let e : x ≡ bits = omega (arith, la, lb, lc, v.3) in
    let e1 = symbol-at (x / 2 ^ 12) a v.0 (omega (arith, e, la, lb, lc)) in
    let e2 = symbol-at (x / 2 ^ 6) b v.1 (omega (arith, e, la, lb, lc)) in
    let e3 = symbol-at x c v.2 (omega (arith, e, la, lb, lc)) in cc (e1, e2, e3)
encode_groups-decode_groups (a ∷ b ∷ c ∷ d ∷ s) v =
    let la = (symbol-value_bits a v.0).0 in
    let lb = (symbol-value_bits b v.1).0 in
    let lc = (symbol-value_bits c v.2).0 in
    let ld = (symbol-value_bits d v.3).0 in
    let bits : ℕ = group_bits (value_bits a) (value_bits b) (value_bits c) (value_bits d) in
    let x : ℕ = bits / 2 ^ 16 % 256 * 2 ^ 16 + bits / 2 ^ 8 % 256 * 2 ^ 8 + bits % 256 in
    let e : x ≡ bits = omega (arith, la, lb, lc, ld) in
    let e1 = symbol-at (x / 2 ^ 18) a v.0 (omega (arith, e, la, lb, lc, ld)) in
    let e2 = symbol-at (x / 2 ^ 12) b v.1 (omega (arith, e, la, lb, lc, ld)) in
    let e3 = symbol-at (x / 2 ^ 6) c v.2 (omega (arith, e, la, lb, lc, ld)) in
    let e4 = symbol-at x d v.3 (omega (arith, e, la, lb, lc, ld)) in
    cc (e1, e2, e3, e4, encode_groups-decode_groups s v.4)
