-- ===== src/Base64Url/Groups.antt =====
-- Groups of symbols: what `valid` tests, read group by group, and what the two loops do to a group.
use pg_oauth_validator.Base.{
  [], ◌∷◌, Bytes, Bool, ℕ, ◌≡◌, some, ◌<◌, true, not, ◌&&◌, length, ◌%◌, arith, ◌==◌, sym, ◌∙◌, all,
  refl,
}
use pg_oauth_validator.Base64Url.Codec.{last_value, valid, is_symbol, value_bits}

-- A text of whole groups and a last group of two or three symbols whose unused bits are 0.
abbrev pub ValidGroups : Bytes → Type 0
ValidGroups [] = Unit {0}
ValidGroups (a ∷ []) = ⊥
ValidGroups (a ∷ b ∷ []) = (is_symbol a ≡ true) × (is_symbol b ≡ true) × (value_bits b % 16 ≡ 0)
ValidGroups (a ∷ b ∷ c ∷ []) =
    (is_symbol a ≡ true) × (is_symbol b ≡ true) × (is_symbol c ≡ true) × (value_bits c % 4 ≡ 0)
ValidGroups (a ∷ b ∷ c ∷ d ∷ s) =
    (is_symbol a ≡ true)
    × (is_symbol b ≡ true)
    × (is_symbol c ≡ true)
    × (is_symbol d ≡ true)
    × ValidGroups s

-- `valid` without the test for the empty text.
abbrev well_formed : Bytes → Bool
well_formed s =
    not (length s % 4 == 1)
    && all is_symbol s
    && not (length s % 4 == 2 && not (last_value s % 16 == 0))
    && not (length s % 4 == 3 && not (last_value s % 4 == 0))

well_formed-group :
    (a b c d e : ℕ) (s : Bytes)
    → well_formed (a ∷ b ∷ c ∷ d ∷ e ∷ s)
      ≡ (is_symbol a && is_symbol b && is_symbol c && is_symbol d && well_formed (e ∷ s))
unfolding last_value
well_formed-group a b c d e s = ground arith

well_formed-ValidGroups : (s : Bytes) → well_formed s ≡ true → ValidGroups s
unfolding last_value
well_formed-ValidGroups [] h = tt
well_formed-ValidGroups (a ∷ []) h = cc h
well_formed-ValidGroups (a ∷ b ∷ []) h = ground arith
well_formed-ValidGroups (a ∷ b ∷ c ∷ []) h = ground arith
well_formed-ValidGroups (a ∷ b ∷ c ∷ d ∷ []) h = ground arith
well_formed-ValidGroups (a ∷ b ∷ c ∷ d ∷ e ∷ s) h =
    let h' = sym (well_formed-group a b c d e s) ∙ h in
    let t = well_formed-ValidGroups (e ∷ s) in ground (arith, h', t)

ValidGroups-well_formed : (s : Bytes) → ValidGroups s → well_formed s ≡ true
unfolding last_value
ValidGroups-well_formed [] h = refl
ValidGroups-well_formed (a ∷ []) h = absurd h
ValidGroups-well_formed (a ∷ b ∷ []) h = ground arith
ValidGroups-well_formed (a ∷ b ∷ c ∷ []) h = ground arith
ValidGroups-well_formed (a ∷ b ∷ c ∷ d ∷ []) h = ground arith
ValidGroups-well_formed (a ∷ b ∷ c ∷ d ∷ e ∷ s) h =
    well_formed-group a b c d e s
    ∙ ground (arith, h.0, h.1, h.2, h.3, ValidGroups-well_formed (e ∷ s) h.4)

pub valid-ValidGroups : (s : Bytes) → valid (some s) ≡ true → ValidGroups s
unfolding valid
valid-ValidGroups s h = well_formed-ValidGroups s (ground arith)

pub ValidGroups-valid : (s : Bytes) → 0 < length s → ValidGroups s → valid (some s) ≡ true
unfolding valid
ValidGroups-valid s h v = ground (arith, ValidGroups-well_formed s v)
