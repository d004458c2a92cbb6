-- ===== src/CacheState/Rules.antt =====
-- Case rules: what holds of the refusals of an operation and of its core holds of the operation.
use pg_oauth_validator.CacheState.Slots.{Finds, find_refresh_slot-Finds}
use pg_oauth_validator.CacheState.Types.{Cache, Refresh, LookupResult, valid_key, miss, blank}
use pg_oauth_validator.CacheState.Complete.{
  complete_refresh, complete_at, Completion, Outcome, owns, complete_entry,
}
use pg_oauth_validator.CacheState.Begin.{begin_refresh, Begin, no_begin, Slot, begin_at}
use pg_oauth_validator.CacheState.Lookup.{
  Lookup, lookup_at, lookup, no_lookup, answer, freshness, scan,
}
use pg_oauth_validator.Base.{
  Bool, Option, Bytes, ℤ, ℕ, false, ◌≡◌, some, true, negsuc, ◌<◌, get_or, pos, length, Bool-cases,
  inl, inr, leb, ◌||◌, ◌==◌, arith, Option-cases, none, refl, ◌⊎◌,
}

module _ {ℓ} (P : Lookup → Type ℓ) (c : Cache) (allow : Bool) where
  lookup_at_rule :
      (now : ℕ) (i : Option ℕ)
      → ((f : LookupResult) (j : ℕ) → P (answer c now f j))
      → P (lookup_at c now allow i)
  unfolding lookup_at
  lookup_at_rule now none h = h miss 0
  lookup_at_rule now (some i) h = h (freshness (get_or c.entries i blank) now allow) i

  pub lookup_rule :
      (k : Option Bytes) (now : ℤ)
      → P (no_lookup c)
      → ((n : ℕ) (f : LookupResult) (j : ℕ) → P (answer c n f j))
      → P (lookup c k now allow)
  unfolding lookup
  lookup_rule none now refused h = refused
  lookup_rule (some k) (negsuc n) refused h = refused
  lookup_rule (some k) (pos now) refused h = elim (Bool-cases (valid_key k)) [
    | inl e ↦ rw e (lookup_at_rule now (scan 0 c.entries k) (h now))
    | inr e ↦ rw e refused
  ]

pub begin_refresh_rule {ℓ} :
    (P : Begin → Type ℓ) (c : Cache) (k : Option Bytes) (now : ℤ) (u : Bool) (cooldown : ℤ)
    → P (no_begin c)
    → ((k' : Bytes) (n m : ℕ) (s : Slot)
        → k ≡ some k'
        → valid_key k' ≡ true
        → Finds c k' n s
        → P (begin_at c k' n u m s))
    → P (begin_refresh c k now u cooldown)
unfolding begin_refresh
begin_refresh_rule P c none now u cooldown refused h = refused
begin_refresh_rule P c (some k) (negsuc n) u cooldown refused h = refused
begin_refresh_rule P c (some k) (pos n) u (negsuc m) refused h = refused
begin_refresh_rule P c (some k) (pos n) u (pos m) refused h = elim (Bool-cases (valid_key k)) [
  | inl e ↦ rw e (h k n m _ refl e (find_refresh_slot-Finds c k n))
  | inr e ↦ rw e refused
]

-- Whether a completion is refused turns on the cache and the refresh alone.
abbrev RefusedOrOwned : Cache → Refresh → Type 0
RefusedOrOwned c r =
    ((now : ℤ) (o : Outcome) → complete_refresh c r now o ≡ record { cache = c; result = false })
    ⊎ ((i : ℕ) × (r.entry_index ≡ some i)
        × (i < length c.entries)
        × (owns (get_or c.entries i blank) r.serial ≡ true)
        × ((now : ℤ) (o : Outcome)
            → complete_refresh c r now o ≡ complete_entry c i (get_or c.entries i blank) now o))

complete_at-cases :
    (c : Cache) (r : Refresh) (i : ℕ)
    → r.entry_index ≡ some i
    → (leb (length c.entries) i || r.serial == 0) ≡ false
    → RefusedOrOwned c r
unfolding complete_refresh complete_at
complete_at-cases c r i ix inside = elim (Bool-cases (owns (get_or c.entries i blank) r.serial)) [
  | inl own ↦ inr (i, ix, ground arith, own, λ now o. rw (ix, complete_refresh, inside, own) refl)
  | inr other ↦ inl (λ now o. rw (ix, complete_refresh, inside, other) refl)
]

pub complete_refresh-cases : (c : Cache) (r : Refresh) → RefusedOrOwned c r
unfolding complete_refresh
complete_refresh-cases c r = elim (Option-cases r.entry_index) [
  | inl e ↦ inl (λ now o. rw (e, complete_refresh) refl)
  | inr (i, ix) ↦ elim (Bool-cases (leb (length c.entries) i || r.serial == 0)) [
    | inl out ↦ inl (λ now o. rw (ix, complete_refresh, out) refl)
    | inr inside ↦ complete_at-cases c r i ix inside
  ]
]

-- A completion that is refused because the caller owns no refresh changes nothing.
pub complete_refresh_rule {ℓ} :
    (P : Completion → Type ℓ) (c : Cache) (r : Refresh) (now : ℤ) (o : Outcome)
    → P (record { cache = c; result = false })
    → ((i : ℕ)
        → r.entry_index ≡ some i
        → i < length c.entries
        → owns (get_or c.entries i blank) r.serial ≡ true
        → P (complete_entry c i (get_or c.entries i blank) now o))
    → P (complete_refresh c r now o)
complete_refresh_rule P c r now o refused h = elim (complete_refresh-cases c r) [
  | inl e ↦ rw (e now o) refused
  | inr (i, ix, lt, own, e) ↦ rw (e now o) (h i ix lt own)
]
