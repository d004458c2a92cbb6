-- ===== src/CacheState/Preserve.antt =====
-- Every operation of the cache keeps the invariant, and so does every history of operations.
use pg_oauth_validator.CacheState.Slots.{Finds, Absent, find_refresh_slot-Finds}
use pg_oauth_validator.CacheState.Begin.{
  start_refresh, new_entry, begin_at, Slot, existing, vacant, full, started_entry, begin_refresh,
}
use pg_oauth_validator.CacheState.Invariant.{
  EntryValid, IsValid, Keeps, touch-EntryValid, blank-EntryValid, Unique-set, Unique,
  next_serial-ne-zero, Unique-set_new,
}
use pg_oauth_validator.CacheState.Lookup.{answer, lookup_at, lookup, scan}
use pg_oauth_validator.CacheState.Types.{
  Entry, Cache, init, Control, count_lookup, LookupResult, miss, blank, fresh, valid_key, stale,
  count_refresh, count_failure, count_suppression, count_eviction, same_key,
}
use pg_oauth_validator.Base.{
  [], List, ℕ, Option, All, ◌≡◌, Bool, Bytes, some, ℤ, ◌≢◌, get_or, negsuc, pos, true, set,
  Bool-cases, ◌∷◌, All-set, suc, inl, ◌==◌, inr, arith, refl, zero, none, replicate, subst,
  All-replicate, eq_of_some,
}

pub get_or-EntryValid :
    (es : List Entry) (i : ℕ) → All EntryValid es → EntryValid (get_or es i blank)
get_or-EntryValid [] i h = blank-EntryValid
get_or-EntryValid (e ∷ es) zero h = h.0
get_or-EntryValid (e ∷ es) (suc i) h = get_or-EntryValid es i h.1

-- A change of one entry that keeps its key, or frees it.
pub set-IsValid :
    (c : Cache) (i : ℕ) (e' : Entry) (control : Control)
    → IsValid c
    → EntryValid e'
    → Keeps (get_or c.entries i blank) e'
    → control.next_refresh_serial ≢ 0
    → IsValid (record { entries = set c.entries i e'; control = control })
set-IsValid c i e' control v ve h s = record {
  entries_valid = All-set EntryValid c.entries i e' v.entries_valid ve;
  unique = Unique-set c.entries i e' h v.unique;
  serial_positive = s;
}

-- The counters are free.
pub control-IsValid :
    (c : Cache) (control : Control)
    → IsValid c
    → control.next_refresh_serial ≢ 0
    → IsValid (record c { control = control })
control-IsValid c control v s = record {
  entries_valid = v.entries_valid;
  unique = v.unique;
  serial_positive = s;
}

Unique-replicate : (n : ℕ) → Unique (replicate n blank)
Unique-replicate zero = tt
Unique-replicate (suc n) = (λ h. absurd (cc h), Unique-replicate n)

pub init-IsValid : (n : ℕ) {c : Cache} → init n ≡ some c → IsValid c
unfolding init
init-IsValid n h = elim (Bool-cases (n == 0)) [
  | inl e ↦ absurd (cc (rw e at h))
  | inr e ↦ subst IsValid (eq_of_some (rw e at h)) (record {
    entries_valid = All-replicate EntryValid n blank blank-EntryValid;
    unique = Unique-replicate n;
    serial_positive = omega arith;
  })
]

answer-IsValid :
    (c : Cache) (now : ℕ) (f : LookupResult) (i : ℕ) → IsValid c → IsValid (answer c now f i).cache
unfolding answer count_lookup
answer-IsValid c now miss i v = control-IsValid c _ v v.serial_positive
answer-IsValid c now fresh i v =
    set-IsValid c i _ _ v (touch-EntryValid _ now (get_or-EntryValid c.entries i v.entries_valid))
      (λ occ. (occ, refl)) v.serial_positive
answer-IsValid c now stale i v =
    set-IsValid c i _ _ v (touch-EntryValid _ now (get_or-EntryValid c.entries i v.entries_valid))
      (λ occ. (occ, refl)) v.serial_positive

lookup_at-IsValid :
    (c : Cache) (now : ℕ) (allow : Bool) (i : Option ℕ)
    → IsValid c
    → IsValid (lookup_at c now allow i).cache
unfolding lookup_at
lookup_at-IsValid c now allow none v = answer-IsValid c now miss 0 v
lookup_at-IsValid c now allow (some i) v = answer-IsValid c now _ i v

pub lookup-IsValid :
    (c : Cache) (k : Option Bytes) (now : ℤ) (allow : Bool)
    → IsValid c
    → IsValid (lookup c k now allow).cache
unfolding lookup
lookup-IsValid c none now allow v = v
lookup-IsValid c (some k) (negsuc n) allow v = v
lookup-IsValid c (some k) (pos now) allow v = elim (Bool-cases (valid_key k)) [
  | inl e ↦ rw e (lookup_at-IsValid c now allow (scan 0 c.entries k) v)
  | inr e ↦ rw e v
]

start_refresh-IsValid :
    (c : Cache) (i : ℕ) (e : Entry) (now : ℕ) (u : Bool)
    → EntryValid (started_entry e now c.control.next_refresh_serial u)
    → Unique (set c.entries i (started_entry e now c.control.next_refresh_serial u))
    → IsValid c
    → IsValid (start_refresh c i e now u).cache
unfolding start_refresh count_refresh started_entry
start_refresh-IsValid c i e now u ve un v = record {
  entries_valid = All-set EntryValid c.entries i _ v.entries_valid ve;
  unique = un;
  serial_positive = next_serial-ne-zero c.control.next_refresh_serial;
}

started_entry-EntryValid :
    (e : Entry) (now serial : ℕ) (u : Bool)
    → serial ≢ 0
    → e.occupied ≡ true
    → EntryValid e
    → EntryValid (started_entry e now serial u)
unfolding started_entry
started_entry-EntryValid e now serial u s occ v = ground arith

started_new-EntryValid :
    (k : Bytes) (now serial : ℕ) (u : Bool)
    → serial ≢ 0
    → valid_key k ≡ true
    → EntryValid (started_entry (new_entry k now) now serial u)
unfolding started_entry
started_new-EntryValid k now serial u s h = ground arith

pub started_entry-key :
    (e : Entry) (now serial : ℕ) (u : Bool)
    → ((started_entry e now serial u).key ≡ e.key)
      × ((started_entry e now serial u).occupied ≡ e.occupied)
unfolding started_entry
started_entry-key e now serial u = ground arith

pub begin_vacant-IsValid :
    (c : Cache) (k : Bytes) (now : ℕ) (u : Bool) (i : ℕ)
    → valid_key k ≡ true
    → Absent k c.entries
    → IsValid c
    → IsValid (start_refresh c i (new_entry k now) now u).cache
begin_vacant-IsValid c k now u i hk a v =
    let serial = c.control.next_refresh_serial in
    let e : Entry = started_entry (new_entry k now) now serial u in
    let key_is : e.key ≡ k = (started_entry-key (new_entry k now) now serial u).0 in
    start_refresh-IsValid c i (new_entry k now) now u
      (started_new-EntryValid k now serial u v.serial_positive hk)
      (Unique-set_new c.entries i e (rw key_is a) v.unique) v

pub begin_existing-IsValid :
    (c : Cache) (now : ℕ) (u : Bool) (i : ℕ)
    → (get_or c.entries i blank).occupied ≡ true
    → IsValid c
    → IsValid (start_refresh c i (get_or c.entries i blank) now u).cache
begin_existing-IsValid c now u i occ v =
    let serial = c.control.next_refresh_serial in
    let e : Entry = get_or c.entries i blank in
    start_refresh-IsValid c i e now u
      (started_entry-EntryValid e now serial u v.serial_positive occ
        (get_or-EntryValid c.entries i v.entries_valid))
      (Unique-set c.entries i (started_entry e now serial u)
        (λ _. (occ, (started_entry-key e now serial u).0)) v.unique)
      v

begin_at-IsValid :
    (c : Cache) (k : Bytes) (now : ℕ) (u : Bool) (cooldown : ℕ) (s : Slot)
    → valid_key k ≡ true
    → Finds c k now s
    → IsValid c
    → IsValid (begin_at c k now u cooldown s).cache
unfolding begin_at count_failure count_suppression count_eviction same_key
begin_at-IsValid c k now u cooldown full hk f v = control-IsValid c _ v v.serial_positive
begin_at-IsValid c k now u cooldown (existing i) hk f v = ground (
  arith,
  begin_existing-IsValid c now u i,
  control-IsValid c (count_suppression c).control v v.serial_positive,
)
begin_at-IsValid c k now u cooldown (vacant i) hk f v =
    elim (Bool-cases (get_or c.entries i blank).occupied) [
      | inl e ↦ rw e (
          begin_vacant-IsValid (count_eviction c) k now u i hk f.2
            (control-IsValid c (count_eviction c).control v v.serial_positive))
      | inr e ↦ rw e (begin_vacant-IsValid c k now u i hk f.2 v)
    ]

pub begin_refresh-IsValid :
    (c : Cache) (k : Option Bytes) (now : ℤ) (u : Bool) (cooldown : ℤ)
    → IsValid c
    → IsValid (begin_refresh c k now u cooldown).cache
unfolding begin_refresh
begin_refresh-IsValid c none now u cooldown v = v
begin_refresh-IsValid c (some k) (negsuc n) u cooldown v = v
begin_refresh-IsValid c (some k) (pos now) u (negsuc m) v = v
begin_refresh-IsValid c (some k) (pos now) u (pos m) v = elim (Bool-cases (valid_key k)) [
  | inl e ↦ rw e (begin_at-IsValid c k now u m _ e (find_refresh_slot-Finds c k now) v)
  | inr e ↦ rw e v
]
