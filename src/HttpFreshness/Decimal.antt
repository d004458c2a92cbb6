-- ===== src/HttpFreshness/Decimal.antt =====
-- What `decimal` reads.
use pg_oauth_validator.HttpFreshness.Headers.{decimal_from, decimal}
use pg_oauth_validator.Base.{
  [], ℕ, Bytes, ◌∷◌, ◌≤◌, is_digit, ◌*◌, arith, ◌≡◌, ◌+◌, true, ◌-◌, ltb, int64_max, ◌/◌, ◌<◌,
  if◌then◌else◌, all, ◌&&◌, leb, some, none, false, Bool-cases, inr, not, inl, is_empty, ltb→lt,
  refl,
}

-- The number that a text of digits stands for, with no bound, after the digits before it.
abbrev pub decimal_value : ℕ → Bytes → ℕ
decimal_value acc [] = acc
decimal_value acc (b ∷ bs) = decimal_value (acc * 10 + (b - b'0')) bs

decimal_value-ge : (bs : Bytes) (acc : ℕ) → acc ≤ decimal_value acc bs
decimal_value-ge [] acc = omega arith
decimal_value-ge (b ∷ bs) acc = omega (arith, decimal_value-ge bs (acc * 10 + (b - b'0')))

-- The test before the multiplication refuses exactly the sums above INT64_MAX.
decimal_guard :
    (b parsed : ℕ)
    → is_digit b ≡ true
    → ltb ((int64_max - (b - b'0')) / 10) parsed ≡ ltb int64_max (parsed * 10 + (b - b'0'))
decimal_guard b parsed h = ground arith

decimal_from_over :
    (bs : Bytes) (acc : ℕ)
    → int64_max < acc
    → (all is_digit bs && leb (decimal_value acc bs) int64_max) ≡ false
decimal_from_over bs acc h = ground (arith, decimal_value-ge bs acc)

decimal_from_lem :
    (bs : Bytes) (acc : ℕ)
    → acc ≤ int64_max
    → decimal_from acc bs ≡ (
        if all is_digit bs && leb (decimal_value acc bs) int64_max
        then some (decimal_value acc bs)
        else none)
unfolding decimal_from
decimal_from_lem [] acc h = ground arith
decimal_from_lem (b ∷ bs) acc h = elim (Bool-cases (is_digit b)) [
  | inr e ↦ rw e refl
  | inl e ↦
      rw (e, decimal_guard b acc e)
        (elim (Bool-cases (ltb int64_max (acc * 10 + (b - b'0')))) [
          | inl over ↦
              rw (over, decimal_from_over bs (acc * 10 + (b - b'0')) (ltb→lt _ _ over)) refl
          | inr fits ↦ rw fits (decimal_from_lem bs (acc * 10 + (b - b'0')) (ground arith))
        ])
]

-- `decimal` accepts exactly the nonempty texts of digits whose value is an int64_t, and returns
-- that value.
pub decimal_lem :
    (bs : Bytes)
    → decimal bs ≡ (
        if not (is_empty bs) && all is_digit bs && leb (decimal_value 0 bs) int64_max
        then some (decimal_value 0 bs)
        else none)
unfolding decimal
decimal_lem [] = refl
decimal_lem (b ∷ bs) = decimal_from_lem (b ∷ bs) 0 (omega arith)
