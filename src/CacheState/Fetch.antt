-- ===== src/CacheState/Fetch.antt =====
-- A document that was fetched is the one that lookups find.
use pg_oauth_validator.CacheState.SingleFlight.{run-started-Owned, started-valid_key}
use pg_oauth_validator.CacheState.Lookup.{lookup, is_refreshing}
use pg_oauth_validator.CacheState.Begin.{begin_refresh}
use pg_oauth_validator.CacheState.Preserve.{begin_refresh-IsValid}
use pg_oauth_validator.CacheState.PreserveComplete.{store-Keeps, complete_refresh-IsValid}
use pg_oauth_validator.CacheState.Invariant.{Unique, IsValid, Unique-set, EntryValid}
use pg_oauth_validator.CacheState.History.{Op, InRange, run, run-IsValid}
use pg_oauth_validator.CacheState.View.{updated, entry_of, entry_of-set, refreshing_from-entry_of}
use pg_oauth_validator.CacheState.Ownership.{Owned, Leaves}
use pg_oauth_validator.CacheState.Answers.{reply, answer_of, lookup-answer_of}
use pg_oauth_validator.CacheState.Types.{
  Cache, bounded_add, Entry, LookupResult, Refresh, fresh, same_key, stale, miss, blank, with_entry,
  started, valid_key,
}
use pg_oauth_validator.CacheState.Complete.{
  Outcome, store, complete_refresh, complete_entry, complete_at, bad_outcome, payload_bytes, owns,
}
use pg_oauth_validator.Base.{
  [], ℕ, if◌then◌else◌, Bool, Bytes, ltb, pos, ◌&&◌, ◌≡◌, some, false, ◌≢◌, true, get_or, refl,
  arith, ℤ, List, set, ◌∙◌, All, ◌≤◌, int64_max, All-get_or, sym, ap, magnitude,
}

-- Until when a stored document is fresh, and until when it may be served stale.
abbrev pub fresh_end : ℕ → Outcome → ℕ
fresh_end t o = bounded_add t (magnitude o.ttl_ms)

abbrev pub stale_end : ℕ → Outcome → ℕ
stale_end t o =
    if o.revalidation_required
    then fresh_end t o
    else bounded_add (fresh_end t o) (magnitude o.stale_grace_ms)

abbrev pub stored_reply : ℕ → Outcome → ℕ → Bool → LookupResult × Bytes
stored_reply t o n allow_stale =
    if ltb n (fresh_end t o)
    then (fresh, payload_bytes o.payload)
    else if allow_stale && ltb n (stale_end t o)
    then (stale, payload_bytes o.payload)
    else (miss, [])

store-reply :
    (e : Entry) (t : ℕ) (o : Outcome) (n : ℕ) (allow : Bool)
    → reply (store e t o) n allow ≡ stored_reply t o n allow
unfolding store
store-reply e t o n allow = ground arith

module _ (c : Cache) (i : ℕ) (k : Bytes) (r : Refresh) (t : ℕ) (o : Outcome) where
  completion_by_owner :
      r.entry_index ≡ some i
      → r.serial ≢ 0
      → Owned i r.serial k c.entries
      → complete_refresh c r (pos t) o ≡ complete_entry c i (get_or c.entries i blank) (pos t) o
  unfolding complete_refresh complete_at owns same_key
  completion_by_owner ix s w = rw (ix, complete_refresh) (ground (arith, w.0, w.1))

  stored_entries :
      bad_outcome (pos t) o ≡ false
      → o.success ≡ true
      → o.cacheable ≡ true
      → complete_entry c i (get_or c.entries i blank) (pos t) o
        ≡ record { cache = with_entry c i (store (get_or c.entries i blank) t o); result = true }
  unfolding complete_entry
  stored_entries b s a = rw (b, s, a) refl

-- After a successful completion the map holds the new document at the key.
stored_entry_of :
    (c : Cache) (i : ℕ) (k : Bytes) (t : ℕ) (o : Outcome) (serial : ℕ)
    → Unique c.entries
    → Owned i serial k c.entries
    → entry_of (set c.entries i (store (get_or c.entries i blank) t o)) k
      ≡ store (get_or c.entries i blank) t o
unfolding updated store same_key
stored_entry_of c i k t o serial u w =
    let e : Entry = store (get_or c.entries i blank) t o in
    entry_of-set c.entries i e k u
      (Unique-set c.entries i e (store-Keeps (get_or c.entries i blank) t o) u) w.0
    ∙ ground (arith, w.1.holds)

reply-answer_of : (e : Entry) (n : ℕ) (allow : Bool) → (reply e n allow).0 ≡ answer_of e n allow
reply-answer_of e n allow = ground arith

module _ (c : Cache) (i : ℕ) (k : Bytes) (r : Refresh) (t : ℕ) (o : Outcome) where
  fetch_by_owner :
      (n : ℕ) (allow : Bool)
      → IsValid c
      → valid_key k ≡ true
      → r.entry_index ≡ some i
      → Owned i r.serial k c.entries
      → t ≤ int64_max
      → bad_outcome (pos t) o ≡ false
      → o.success ≡ true
      → o.cacheable ≡ true
      → let done = complete_refresh c r (pos t) o in
        (done.result ≡ true)
        × (reply (entry_of done.cache.entries k) n allow ≡ stored_reply t o n allow)
        × ((lookup done.cache (some k) (pos n) allow).freshness ≡ (stored_reply t o n allow).0)
  fetch_by_owner n allow v hk ix w ht hb hs hc =
      let old = get_or c.entries i blank in
      let live = All-get_or EntryValid c.entries i blank v.entries_valid w.0 in
      let serial = λ (z : r.serial ≡ 0). live.owned w.1.refreshing (w.1.serial_is ∙ z) in
      let e = completion_by_owner c i k r t o ix serial w ∙ stored_entries c i k r t o hb hs hc in
      let seen : reply (entry_of (set c.entries i (store old t o)) k) n allow
          ≡ stored_reply t o n allow =
        rw (stored_entry_of c i k t o r.serial v.unique w) (store-reply old t o n allow) in
      let v' = rw e at (complete_refresh-IsValid c r (pos t) o ht v) in
      rw e (
        refl,
        seen,
        lookup-answer_of (with_entry c i (store old t o)) k n allow v' hk
            ∙ sym (reply-answer_of (entry_of (set c.entries i (store old t o)) k) n allow)
            ∙ ap (λ x. x.0) seen,
      )

-- A backend starts to refresh a key in a sound cache, the others make any calls with times in
-- range, and the backend completes with a cacheable document, at an int64 time and with values that
-- are not refused. Then the completion is accepted; a lookup of the key at a time that is not
-- negative answers FRESH up to the end of the time to live, STALE through the grace where the
-- caller allows it and the provider demanded no revalidation, and MISS from then on; and the
-- entry's document is the one that was fetched.
pub fetched_document :
    (c : Cache) (k : Bytes) (now : ℤ) (u : Bool) (m : ℤ) (ops : List Op) (t : ℕ) (o : Outcome)
    (n : ℕ) (allow : Bool)
    → IsValid c
    → (begin_refresh c (some k) now u m).result ≡ started
    → All InRange ops
    → All (Leaves (begin_refresh c (some k) now u m).refresh) ops
    → t ≤ int64_max
    → bad_outcome (pos t) o ≡ false
    → o.success ≡ true
    → o.cacheable ≡ true
    → let b = begin_refresh c (some k) now u m in
      let done = complete_refresh (run b.cache ops) b.refresh (pos t) o in
      (done.result ≡ true)
      × (reply (entry_of done.cache.entries k) n allow ≡ stored_reply t o n allow)
      × ((lookup done.cache (some k) (pos n) allow).freshness ≡ (stored_reply t o n allow).0)
fetched_document c k now u m ops t o n allow v s r l ht hb hs hc =
    let b = begin_refresh c (some k) now u m in
    let (i, ix, w) = run-started-Owned c k now u m ops s l in
    let v' = run-IsValid b.cache ops r (begin_refresh-IsValid c (some k) now u m v) in
    fetch_by_owner (run b.cache ops) i k b.refresh t o n allow v' (started-valid_key c k now u m s)
      ix w ht hb hs hc

idle_by_owner :
    (c : Cache) (i : ℕ) (k : Bytes) (r : Refresh) (t : ℕ) (o : Outcome)
    → IsValid c
    → valid_key k ≡ true
    → r.entry_index ≡ some i
    → Owned i r.serial k c.entries
    → bad_outcome (pos t) o ≡ false
    → o.success ≡ true
    → o.cacheable ≡ true
    → is_refreshing (complete_refresh c r (pos t) o).cache (some k) ≡ false
unfolding is_refreshing store
idle_by_owner c i k r t o v hk ix w hb hs hc =
    let old = get_or c.entries i blank in
    let live = All-get_or EntryValid c.entries i blank v.entries_valid w.0 in
    let serial = λ (z : r.serial ≡ 0). live.owned w.1.refreshing (w.1.serial_is ∙ z) in
    let e = completion_by_owner c i k r t o ix serial w ∙ stored_entries c i k r t o hb hs hc in
    rw (e, hk)
      (refreshing_from-entry_of (set c.entries i (store old t o)) k
        ∙ rw (stored_entry_of c i k t o r.serial v.unique w) refl)

-- With the same conditions, the key is no longer being refreshed.
pub fetched-idle :
    (c : Cache) (k : Bytes) (now : ℤ) (u : Bool) (m : ℤ) (ops : List Op) (t : ℕ) (o : Outcome)
    → IsValid c
    → (begin_refresh c (some k) now u m).result ≡ started
    → All InRange ops
    → All (Leaves (begin_refresh c (some k) now u m).refresh) ops
    → bad_outcome (pos t) o ≡ false
    → o.success ≡ true
    → o.cacheable ≡ true
    → let b = begin_refresh c (some k) now u m in
      is_refreshing (complete_refresh (run b.cache ops) b.refresh (pos t) o).cache (some k) ≡ false
fetched-idle c k now u m ops t o v s r l hb hs hc =
    let b = begin_refresh c (some k) now u m in
    let (i, ix, w) = run-started-Owned c k now u m ops s l in
    let v' = run-IsValid b.cache ops r (begin_refresh-IsValid c (some k) now u m v) in
    idle_by_owner (run b.cache ops) i k b.refresh t o v' (started-valid_key c k now u m s) ix w hb
      hs hc
