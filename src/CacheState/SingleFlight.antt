-- ===== src/CacheState/SingleFlight.antt =====
-- One backend fetches a document at a time: what a started refresh guarantees until it completes.
use pg_oauth_validator.CacheState.Preserve.{begin_refresh-IsValid}
use pg_oauth_validator.CacheState.View.{refreshing_from-entry_of, entry_of-at}
use pg_oauth_validator.CacheState.Ownership.{Owned, Refreshing, Leaves, run-Owned}
use pg_oauth_validator.CacheState.Invariant.{Unique, IsValid}
use pg_oauth_validator.CacheState.Begin.{
  start_refresh, begin_at, begin_refresh, Slot, existing, vacant, full, Begin, started_entry,
  new_entry,
}
use pg_oauth_validator.CacheState.Rules.{begin_refresh_rule}
use pg_oauth_validator.CacheState.Lookup.{refreshing_from, is_refreshing}
use pg_oauth_validator.CacheState.Slots.{
  Holds, Finds, Absent-Holds, find_refresh_slot-Finds, Unique-index,
}
use pg_oauth_validator.CacheState.History.{Op, run, InRange, run-IsValid}
use pg_oauth_validator.CacheState.Types.{
  Cache, Entry, blank, same_key, count_refresh, count_failure, count_suppression, count_eviction,
  started, valid_key, in_progress,
}
use pg_oauth_validator.Base.{
  ℕ, Bytes, ◌<◌, length, some, ◌≡◌, get_or, true, set, length-set, get_or-set_self, ℤ, arith, Bool,
  inl, inr, List, All, Bool-cases, ◌∙◌, refl, ◌&&◌, bytes_eq_refl, ltb, ◌+◌, eq_of_some, negsuc,
  pos, subst,
}

-- What a started refresh hands out.
abbrev pub StartedOwned : Bytes → Begin → Type 0
StartedOwned k b =
    b.result ≡ started
    → (i : ℕ) × (b.refresh.entry_index ≡ some i) × Owned i b.refresh.serial k b.cache.entries

Owned-set_self :
    (es : List Entry) (j serial : ℕ) (k : Bytes) (e : Entry)
    → j < length es
    → Refreshing k serial e
    → Owned j serial k (set es j e)
Owned-set_self es j serial k e lt o =
    let inside : j < length (set es j e) = rw length-set lt in
    (inside, rw (get_or-set_self es j e blank lt) o)

started_entry-Refreshing :
    (e : Entry) (k : Bytes) (n serial : ℕ) (u : Bool)
    → Holds k e
    → Refreshing k serial (started_entry e n serial u)
unfolding started_entry same_key
started_entry-Refreshing e k n serial u h = ground arith

start_refresh-StartedOwned :
    (c : Cache) (j : ℕ) (e : Entry) (k : Bytes) (n : ℕ) (u : Bool)
    → j < length c.entries
    → Holds k e
    → StartedOwned k (start_refresh c j e n u)
unfolding start_refresh count_refresh
start_refresh-StartedOwned c j e k n u lt h s =
    let serial = c.control.next_refresh_serial in
    (
      j,
      refl,
      Owned-set_self c.entries j serial k (started_entry e n serial u) lt
          (started_entry-Refreshing e k n serial u h),
    )

new_entry-Holds : (k : Bytes) (n : ℕ) → Holds k (new_entry k n)
unfolding same_key
new_entry-Holds k n = bytes_eq_refl k

begin_at-StartedOwned :
    (c : Cache) (k : Bytes) (n m : ℕ) (u : Bool) (s : Slot)
    → Finds c k n s
    → StartedOwned k (begin_at c k n u m s)
unfolding begin_at count_failure count_suppression count_eviction
begin_at-StartedOwned c k n m u full f = λ h. cc
begin_at-StartedOwned c k n m u (existing j) f =
    elim (Bool-cases (get_or c.entries j blank).refreshing) [
      | inl e ↦ rw e (λ h. cc)
      | inr e ↦
          rw e
            (elim (Bool-cases (
              u
              && (get_or c.entries j blank).has_unknown_kid_refresh
              && ltb n ((get_or c.entries j blank).last_unknown_kid_refresh_ms + m))) [
                | inl x ↦ rw x (λ h. cc)
                | inr x ↦
                    rw x (start_refresh-StartedOwned c j (get_or c.entries j blank) k n u f.0 f.1)
              ])
    ]
begin_at-StartedOwned c k n m u (vacant j) f =
    elim (Bool-cases (get_or c.entries j blank).occupied) [
      | inl e ↦ rw e (
          start_refresh-StartedOwned (count_eviction c) j (new_entry k n) k n u f.0
            (new_entry-Holds k n))
      | inr e ↦
          rw e (start_refresh-StartedOwned c j (new_entry k n) k n u f.0 (new_entry-Holds k n))
    ]

pub begin_refresh-StartedOwned :
    (c : Cache) (k : Bytes) (now : ℤ) (u : Bool) (cooldown : ℤ)
    → StartedOwned k (begin_refresh c (some k) now u cooldown)
begin_refresh-StartedOwned c k now u cooldown =
    begin_refresh_rule (λ b. StartedOwned k b) c (some k) now u cooldown (λ h. cc)
      λ k' n m s e _ f. rw (eq_of_some e) (begin_at-StartedOwned c k' n m u s f)

pub started-valid_key :
    (c : Cache) (k : Bytes) (now : ℤ) (u : Bool) (m : ℤ)
    → (begin_refresh c (some k) now u m).result ≡ started
    → valid_key k ≡ true
unfolding begin_refresh
started-valid_key c k (negsuc n) u m h = cc
started-valid_key c k (pos n) u (negsuc m) h = cc
started-valid_key c k (pos n) u (pos m) h = ground arith

module _ (i serial : ℕ) (k : Bytes) (c : Cache) (o : Owned i serial k c.entries)
    (u : Unique c.entries) where
  refreshing_from-Owned : refreshing_from c.entries k ≡ true
  refreshing_from-Owned =
      refreshing_from-entry_of c.entries k
      ∙ rw (entry_of-at c.entries k i u o.0 o.1.holds) o.1.refreshing

  begin_at-in_progress :
      (n m : ℕ) (v : Bool) (s : Slot) → Finds c k n s → (begin_at c k n v m s).result ≡ in_progress
  unfolding begin_at
  begin_at-in_progress n m v full f = absurd (Absent-Holds c.entries k i f o.0 o.1.holds)
  begin_at-in_progress n m v (vacant j) f = absurd (Absent-Holds c.entries k i f.2 o.0 o.1.holds)
  begin_at-in_progress n m v (existing j) f =
      let same : j ≡ i = Unique-index c.entries k j i u f.0 o.0 f.1 o.1.holds in
      rw (same, o.1.refreshing) refl

  is_refreshing-Owned : valid_key k ≡ true → is_refreshing c (some k) ≡ true
  unfolding is_refreshing
  is_refreshing-Owned h = rw h refreshing_from-Owned

  begin_refresh-in_progress :
      (n m : ℕ) (v : Bool)
      → valid_key k ≡ true
      → (begin_refresh c (some k) (pos n) v (pos m)).result ≡ in_progress
  unfolding begin_refresh
  begin_refresh-in_progress n m v h =
      rw h (begin_at-in_progress n m v _ (find_refresh_slot-Finds c k n))

-- The owner keeps the entry through every history in which it does not complete.
pub run-started-Owned :
    (c : Cache) (k : Bytes) (now : ℤ) (u : Bool) (m : ℤ) (ops : List Op)
    → (begin_refresh c (some k) now u m).result ≡ started
    → All (Leaves (begin_refresh c (some k) now u m).refresh) ops
    → (i : ℕ) × ((begin_refresh c (some k) now u m).refresh.entry_index ≡ some i)
      × Owned i
          (begin_refresh c (some k) now u m).refresh.serial
          k
          (run (begin_refresh c (some k) now u m).cache ops).entries
run-started-Owned c k now u m ops s l =
    let b = begin_refresh c (some k) now u m in
    let (i, ix, o) = begin_refresh-StartedOwned c k now u m s in
    let l' =
      subst (λ x. All (Leaves (record { entry_index = x; serial = b.refresh.serial })) ops) ix l in
    (i, ix, run-Owned i b.refresh.serial k b.cache ops l' o)

-- In a sound cache, from the start of a refresh, and whatever calls the backends make meanwhile
-- that are not its owner's completion and whose times are in range, the key is reported as being
-- refreshed, and another begin of its refresh, at any time and with any cooldown that are not
-- negative, answers IN_PROGRESS.
pub single_flight :
    (c : Cache) (k : Bytes) (now : ℤ) (u : Bool) (m : ℤ) (ops : List Op) (n' m' : ℕ) (u' : Bool)
    → IsValid c
    → (begin_refresh c (some k) now u m).result ≡ started
    → All InRange ops
    → All (Leaves (begin_refresh c (some k) now u m).refresh) ops
    → let c' = run (begin_refresh c (some k) now u m).cache ops in
      (is_refreshing c' (some k) ≡ true)
      × ((begin_refresh c' (some k) (pos n') u' (pos m')).result ≡ in_progress)
single_flight c k now u m ops n' m' u' v s r l =
    let hk = started-valid_key c k now u m s in
    let (i, ix, o) = run-started-Owned c k now u m ops s l in
    let v' = run-IsValid _ ops r (begin_refresh-IsValid c (some k) now u m v) in
    (
      is_refreshing-Owned i _ k _ o v'.unique hk,
      begin_refresh-in_progress i _ k _ o v'.unique n' m' u' hk,
    )
