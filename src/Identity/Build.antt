-- ===== src/Identity/Build.antt =====
-- `valid_utf8` and `pg_oauth_identity_build`. `malloc` gives memory.
use pg_oauth_validator.Base.{
  [], ◌∷◌, none, some, ℕ, Bytes, Option, if◌then◌else◌, suc, Bool, leb, ◌*◌, ◌==◌, ltb, true,
  length, ◌&&◌, ◌+◌, false, ◌||◌, ◌%◌, any, not, ◌/◌, uint64_max, zero,
}

pub data IdentityError : Type 0 where
  identity_bad_argument invalid_identity_subject identity_too_large : IdentityError

pub record IdentityPolicy : Type 0 where
  pub max_subject_size : ℕ
  pub max_authn_id_size : ℕ

pub data IdentityResult : Type 0 where
  identity_ok : Bytes → IdentityResult
  identity_refused : IdentityError → IdentityResult

-- The number of continuation bytes and the bits of the first byte.
unfoldable pub lead : ℕ → Option (ℕ × ℕ)
lead first =
    if leb 0xc2 first && leb first 0xdf
    then some (1, first % 32)
    else if leb 0xe0 first && leb first 0xef
    then some (2, first % 16)
    else if leb 0xf0 first && leb first 0xf4
    then some (3, first % 8)
    else none

-- The loop over the continuation bytes: the code point and what follows. `byte & 0xc0` is 0x80 if
-- the two high bits are 10; the shifted bits and `byte & 0x3f` are disjoint.
unfoldable pub continuation : ℕ → ℕ → Bytes → Option (ℕ × Bytes)
continuation zero codepoint bs = some (codepoint, bs)
continuation (suc n) codepoint [] = none
continuation (suc n) codepoint (b ∷ bs) =
    let rest = continuation n (codepoint * 64 + b % 64) bs in
    if not (b / 64 % 4 == 2) then none else rest

unfoldable pub bad_codepoint : ℕ → ℕ → Bool
bad_codepoint continuations c =
    (continuations == 2 && ltb c 0x800)
    || (continuations == 3 && ltb c 0x10000)
    || (leb 0x80 c && leb c 0x9f)
    || (leb 0xd800 c && leb c 0xdfff)
    || ltb 0x10ffff c

-- A round of the loop on a first byte above 0x7f: what follows the character.
unfoldable pub multibyte : ℕ → Bytes → Option Bytes
multibyte first bs = elim (lead first) [
  | none ↦ none
  | some (n, bits) ↦ if ltb (length bs) n then none else elim (continuation n bits bs) [
    | none ↦ none
    | some (c, rest) ↦ if bad_codepoint n c then none else some rest
  ]
]

-- `while (index < length)`, with as much fuel as there are bytes: each round takes one or more.
unfoldable pub valid_utf8_loop : ℕ → Bytes → Bool
valid_utf8_loop fuel [] = true
valid_utf8_loop zero (b ∷ bs) = false
valid_utf8_loop (suc fuel) (b ∷ bs) =
    let next = valid_utf8_loop fuel bs in
    if leb b 0x7f
    then if ltb b 0x20 || b == 0x7f then false else next
    else elim (multibyte b bs) [ none ↦ false | some rest ↦ valid_utf8_loop fuel rest ]

unfoldable pub valid_utf8 : Bytes → Bool
valid_utf8 bs = valid_utf8_loop (length bs) bs

unfoldable pub identity_build : Option Bytes → Option IdentityPolicy → IdentityResult
identity_build none p = identity_refused identity_bad_argument
identity_build (some subject) none = identity_refused identity_bad_argument
identity_build (some subject) (some p) =
    if p.max_subject_size == 0 || p.max_authn_id_size == 0
    then identity_refused identity_bad_argument
    else if length subject == 0
        || ltb p.max_subject_size (length subject)
        || ltb p.max_authn_id_size (length subject)
        || any (λ b. b == 0) subject
        || not (valid_utf8 subject)
    then identity_refused invalid_identity_subject
    else if length subject == uint64_max
    then identity_refused identity_too_large
    else identity_ok subject
