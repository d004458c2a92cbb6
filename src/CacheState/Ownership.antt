-- ===== src/CacheState/Ownership.antt =====
-- One owner for each refresh: from the call that starts it to the completion with its serial, no
-- call of any backend takes the entry, ends the refresh or starts a second one.
use pg_oauth_validator.CacheState.Complete.{
  complete_entry, owns, Outcome, complete_refresh, release_entry, store,
}
use pg_oauth_validator.CacheState.Begin.{
  start_refresh, begin_at, begin_refresh, Slot, existing, vacant, full,
}
use pg_oauth_validator.CacheState.Rules.{lookup_rule, begin_refresh_rule, complete_refresh_rule}
use pg_oauth_validator.CacheState.Lookup.{answer, lookup}
use native.Mathlib.Decide.{ℕ_discrete}
use pg_oauth_validator.CacheState.Slots.{Holds, Finds, Available}
use pg_oauth_validator.CacheState.History.{Op, completes, looks_up, begins, step, run}
use pg_oauth_validator.CacheState.Types.{
  Cache, Entry, blank, count_lookup, same_key, LookupResult, miss, fresh, stale, Refresh,
  count_refresh, count_failure, count_suppression, count_eviction,
}
use pg_oauth_validator.Base.{
  [], ℕ, Bytes, ◌<◌, length, ◌≢◌, some, ◌≡◌, ◌⊎◌, get_or, true, set, length-set, get_or-set_self,
  get_or-set_ne, Option, ℤ, arith, Bool, inl, inr, List, All, ◌∷◌, Bool-cases, sym, ◌∙◌, magnitude,
}

-- The entry holds the key and is being refreshed under the serial.
pub record Refreshing (k : Bytes) (serial : ℕ) (e : Entry) : Type 0 where
  pub holds : Holds k e
  pub refreshing : e.refreshing ≡ true
  pub serial_is : e.refresh_serial ≡ serial

abbrev pub Owned : ℕ → ℕ → Bytes → List Entry → Type 0
Owned i serial k es = (i < length es) × Refreshing k serial (get_or es i blank)

-- A call that completes no refresh of this entry under this serial.
abbrev pub Leaves : Refresh → Op → Type 0
Leaves r (completes r' now o) = (r'.entry_index ≢ r.entry_index) ⊎ (r'.serial ≢ r.serial)
Leaves r (looks_up k now allow_stale) = Unit {0}
Leaves r (begins k now unknown_kid cooldown) = Unit {0}

still_unavailable : {k : Bytes} {serial n : ℕ} {e : Entry} → Refreshing k serial e → ¬ Available n e
unfolding same_key
still_unavailable o (inl free) = ground (arith, o.holds, free)
still_unavailable o (inr (idle, _)) = cc (idle, o.refreshing)

owns-serial : (e : Entry) (s : ℕ) → owns e s ≡ true → e.refresh_serial ≡ s
unfolding owns
owns-serial e s h = ground arith

module _ (i serial : ℕ) (k : Bytes) where
  Owned-set :
      (es : List Entry) (j : ℕ) (e : Entry)
      → (j ≡ i → Refreshing k serial e)
      → Owned i serial k es
      → Owned i serial k (set es j e)
  Owned-set es j e h (lt, o) = elim (ℕ_discrete j i) [
    | yes same ↦ (rw length-set lt, rw (same, get_or-set_self es i e blank lt) (h same))
    | no other ↦ (rw length-set lt, rw (get_or-set_ne es j i e blank other) o)
  ]

  touch-Owned :
      (es : List Entry) (now j : ℕ)
      → Owned i serial k es
      → Owned i serial k (set es j (record (get_or es j blank) { last_used_ms = now }))
  unfolding same_key
  touch-Owned es now j o = Owned-set es j _ (λ e. rw e (ground (arith, o.1))) o

  answer-Owned :
      (c : Cache) (now : ℕ) (f : LookupResult) (j : ℕ)
      → Owned i serial k c.entries
      → Owned i serial k (answer c now f j).cache.entries
  unfolding answer count_lookup
  answer-Owned c now miss j o = o
  answer-Owned c now fresh j o = touch-Owned c.entries now j o
  answer-Owned c now stale j o = touch-Owned c.entries now j o

  lookup-Owned :
      (c : Cache) (k' : Option Bytes) (now : ℤ) (allow : Bool)
      → Owned i serial k c.entries
      → Owned i serial k (lookup c k' now allow).cache.entries
  lookup-Owned c k' now allow o =
      lookup_rule (λ r. Owned i serial k r.cache.entries) c allow k' now o
        λ n f j. answer-Owned c n f j o

  start_refresh-Owned :
      (c : Cache) (j : ℕ) (e : Entry) (n : ℕ) (u : Bool)
      → j ≢ i
      → Owned i serial k c.entries
      → Owned i serial k (start_refresh c j e n u).cache.entries
  unfolding start_refresh count_refresh
  start_refresh-Owned c j e n u other o = Owned-set c.entries j _ (λ q. absurd (other q)) o

  -- The entry of another refresh is neither given up nor started again.
  begin_at-Owned :
      (c : Cache) (k' : Bytes) (n m : ℕ) (u : Bool) (s : Slot)
      → Finds c k' n s
      → Owned i serial k c.entries
      → Owned i serial k (begin_at c k' n u m s).cache.entries
  unfolding begin_at count_failure count_suppression count_eviction
  begin_at-Owned c k' n m u full f o = o
  begin_at-Owned c k' n m u (existing j) f o =
      elim (Bool-cases (get_or c.entries j blank).refreshing) [
        | inl e ↦ rw e o
        | inr e ↦ rw e (
            ground (
              arith,
              o,
              start_refresh-Owned c j (get_or c.entries j blank) n u
                  (λ q. absurd (cc (rw q at e, o.1.refreshing))) o,
            ))
      ]
  begin_at-Owned c k' n m u (vacant j) f o =
      let other : j ≢ i = (λ q. still_unavailable o.1 (rw q at (f.1))) in
      elim (Bool-cases (get_or c.entries j blank).occupied) [
        | inl e ↦ rw e (start_refresh-Owned (count_eviction c) j _ n u other o)
        | inr e ↦ rw e (start_refresh-Owned c j _ n u other o)
      ]

  begin_refresh-Owned :
      (c : Cache) (k' : Option Bytes) (now : ℤ) (u : Bool) (cooldown : ℤ)
      → Owned i serial k c.entries
      → Owned i serial k (begin_refresh c k' now u cooldown).cache.entries
  begin_refresh-Owned c k' now u cooldown o =
      begin_refresh_rule (λ r. Owned i serial k r.cache.entries) c k' now u cooldown o
        λ k'' n m s _ _ f. begin_at-Owned c k'' n m u s f o

  complete_entry-Owned :
      (c : Cache) (j : ℕ) (e : Entry) (now : ℤ) (x : Outcome)
      → j ≢ i
      → Owned i serial k c.entries
      → Owned i serial k (complete_entry c j e now x).cache.entries
  unfolding complete_entry count_failure
  complete_entry-Owned c j e now x other o = ground (
    arith,
    Owned-set c.entries j (release_entry e) (λ q. absurd (other q)) o,
    Owned-set c.entries j blank (λ q. absurd (other q)) o,
    Owned-set c.entries j (store e (magnitude now) x) (λ q. absurd (other q)) o,
  )

  owner_is :
      (c : Cache) (r : Refresh) (j : ℕ)
      → (r.entry_index ≢ some i) ⊎ (r.serial ≢ serial)
      → r.entry_index ≡ some j
      → owns (get_or c.entries j blank) r.serial ≡ true
      → Owned i serial k c.entries
      → j ≢ i
  owner_is c r j (inl l) e own o q = l (rw q at e)
  owner_is c r j (inr l) e own o q =
      l (sym (owns-serial (get_or c.entries i blank) r.serial (rw q at own)) ∙ o.1.serial_is)

  complete_refresh-Owned :
      (c : Cache) (r : Refresh) (now : ℤ) (x : Outcome)
      → (r.entry_index ≢ some i) ⊎ (r.serial ≢ serial)
      → Owned i serial k c.entries
      → Owned i serial k (complete_refresh c r now x).cache.entries
  complete_refresh-Owned c r now x l o =
      complete_refresh_rule (λ y. Owned i serial k y.cache.entries) c r now x o
        λ j e _ own.
          complete_entry-Owned c j (get_or c.entries j blank) now x (owner_is c r j l e own o) o

  step-Owned :
      (c : Cache) (op : Op)
      → Leaves (record { entry_index = some i; serial = serial }) op
      → Owned i serial k c.entries
      → Owned i serial k (step c op).entries
  unfolding step
  step-Owned c (looks_up k' now allow) l o = lookup-Owned c k' now allow o
  step-Owned c (begins k' now u cooldown) l o = begin_refresh-Owned c k' now u cooldown o
  step-Owned c (completes r now x) l o = complete_refresh-Owned c r now x l o

  pub run-Owned :
      (c : Cache) (ops : List Op)
      → All (Leaves (record { entry_index = some i; serial = serial })) ops
      → Owned i serial k c.entries
      → Owned i serial k (run c ops).entries
  unfolding run
  run-Owned c [] l o = o
  run-Owned c (op ∷ ops) l o = run-Owned (step c op) ops l.1 (step-Owned c op l.0 o)
