-- ===== src/CacheState/Invariant.antt =====
-- The invariant of the cache, and that every operation keeps it.
use pg_oauth_validator.CacheState.Complete.{release_entry, store, Outcome, bad_payload}
use pg_oauth_validator.CacheState.Types.{
  Entry, Cache, blank, valid_key, same_key, max_payload_size, bounded_add, next_serial,
}
use pg_oauth_validator.Base.{
  ℕ, zero, suc, ◌≤◌, ◌<◌, ◌≡◌, arith, List, Bytes, false, ◌∷◌, All, true, ◌≢◌, int64_max, length,
  get_or, bytes_eq_comm, set, All-set, [],
}

-- One entry: a free entry holds nothing, a value lies within its bounds and goes stale no earlier
-- than it stops being fresh, and an entry with no value is on its way to one.
pub record EntryValid (e : Entry) : Type 0 where
  pub free : e.occupied ≡ false → (e.has_value ≡ false) × (e.refreshing ≡ false)
  pub keyed : e.occupied ≡ true → valid_key e.key ≡ true
  pub owned : e.refreshing ≡ true → e.refresh_serial ≢ 0
  pub pending : e.occupied ≡ true → e.has_value ≡ false → e.refreshing ≡ true
  pub sized : e.has_value ≡ true → (0 < length e.payload) × (length e.payload ≤ max_payload_size)
  pub ordered : e.fresh_until_ms ≤ e.stale_until_ms
  pub bounded : e.stale_until_ms ≤ int64_max

-- No two entries hold one key.
abbrev pub Unique : List Entry → Type 0
Unique [] = Unit {0}
Unique (e ∷ es) = (e.occupied ≡ true → All (λ x. same_key x e.key ≡ false) es) × Unique es

pub record IsValid (c : Cache) : Type 0 where
  pub entries_valid : All EntryValid c.entries
  pub unique : Unique c.entries
  pub serial_positive : c.control.next_refresh_serial ≢ 0

pub blank-EntryValid : EntryValid blank
blank-EntryValid = ground arith

pub touch-EntryValid :
    (e : Entry) (now : ℕ) → EntryValid e → EntryValid (record e { last_used_ms = now })
touch-EntryValid e now v = ground arith

pub release_entry-EntryValid : (e : Entry) → EntryValid e → EntryValid (release_entry e)
unfolding release_entry
release_entry-EntryValid e v = ground arith

pub bounded_add_bounds :
    (a b : ℕ) → a ≤ int64_max → (a ≤ bounded_add a b) × (bounded_add a b ≤ int64_max)
unfolding bounded_add
bounded_add_bounds a b h = ground arith

pub store-EntryValid :
    (e : Entry) (now : ℕ) (o : Outcome)
    → now ≤ int64_max
    → bad_payload o.payload ≡ false
    → e.occupied ≡ true
    → EntryValid e
    → EntryValid (store e now o)
unfolding store bad_payload bounded_add
store-EntryValid e now o hn hp occ v = ground arith

pub next_serial-ne-zero : (n : ℕ) → next_serial n ≢ 0
unfolding next_serial
next_serial-ne-zero n = ground arith

-- An entry that keeps its key, or is freed, cannot clash with another.
abbrev pub Keeps : Entry → Entry → Type 0
Keeps e e' = e'.occupied ≡ true → (e.occupied ≡ true) × (e'.key ≡ e.key)

same_key-Keeps :
    (e e' : Entry) (k : Bytes) → Keeps e e' → same_key e k ≡ false → same_key e' k ≡ false
unfolding same_key
same_key-Keeps e e' k h f = ground arith

same_key-set :
    (es : List Entry) (i : ℕ) (e' : Entry) (k : Bytes)
    → Keeps (get_or es i blank) e'
    → All (λ x. same_key x k ≡ false) es
    → All (λ x. same_key x k ≡ false) (set es i e')
same_key-set [] i e' k h a = tt
same_key-set (e ∷ es) zero e' k h a = (same_key-Keeps e e' k h a.0, a.1)
same_key-set (e ∷ es) (suc i) e' k h a = (a.0, same_key-set es i e' k h a.1)

pub Unique-set :
    (es : List Entry) (i : ℕ) (e' : Entry)
    → Keeps (get_or es i blank) e'
    → Unique es
    → Unique (set es i e')
Unique-set [] i e' h u = tt
Unique-set (e ∷ es) zero e' h u = (λ occ. rw (h occ).1 (u.0 (h occ).0), u.1)
Unique-set (e ∷ es) (suc i) e' h u =
    (λ occ. same_key-set es i e' e.key h (u.0 occ), Unique-set es i e' h u.1)

same_key-other :
    (e e' : Entry) → e.occupied ≡ true → same_key e e'.key ≡ false → same_key e' e.key ≡ false
unfolding same_key
same_key-other e e' occ f = ground (arith, bytes_eq_comm e.key e'.key)

same_key-set_new :
    (es : List Entry) (i : ℕ) (e' : Entry) (k : Bytes)
    → same_key e' k ≡ false
    → All (λ x. same_key x k ≡ false) es
    → All (λ x. same_key x k ≡ false) (set es i e')
same_key-set_new es i e' k h a = All-set (λ x. same_key x k ≡ false) es i e' a h

-- A key that no entry holds may be written anywhere.
pub Unique-set_new :
    (es : List Entry) (i : ℕ) (e' : Entry)
    → All (λ x. same_key x e'.key ≡ false) es
    → Unique es
    → Unique (set es i e')
Unique-set_new [] i e' a u = tt
Unique-set_new (e ∷ es) zero e' a u = (λ occ. a.1, u.1)
Unique-set_new (e ∷ es) (suc i) e' a u = (
  λ occ. same_key-set_new es i e' e.key (same_key-other e e' occ a.0) (u.0 occ),
  Unique-set_new es i e' a.1 u.1,
)
