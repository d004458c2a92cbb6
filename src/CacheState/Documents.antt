-- ===== src/CacheState/Documents.antt =====
-- What the end of a refresh does to the documents of the cache.
use pg_oauth_validator.CacheState.Preserve.{begin_refresh-IsValid}
use pg_oauth_validator.CacheState.PreserveComplete.{release_entry-Keeps}
use pg_oauth_validator.CacheState.Rules.{complete_refresh_rule, complete_refresh-cases}
use pg_oauth_validator.CacheState.View.{entry_of}
use pg_oauth_validator.CacheState.Invariant.{IsValid, Unique-set}
use pg_oauth_validator.CacheState.Slots.{Holds}
use pg_oauth_validator.CacheState.Answers.{SameReplies, set-SameReplies}
use pg_oauth_validator.CacheState.Eviction.{begin_refresh-SameReplies}
use pg_oauth_validator.CacheState.Begin.{begin_refresh}
use pg_oauth_validator.Base.{Option, Bool, pos, ◌∙◌}
use pg_oauth_validator.CacheState.Types.{Cache, Entry, same_key, count_failure, Refresh, blank}
use pg_oauth_validator.CacheState.Complete.{
  release_entry, complete_entry, owns, Outcome, store, bad_outcome, complete_refresh, complete_at,
}
use pg_oauth_validator.Base.{
  ℕ, Bytes, ℤ, ◌≡◌, false, ◌<◌, arith, ◌⊎◌, length, get_or, true, set, get_or-set_self, refl, some,
  inl, inr, magnitude,
}

release_entry-SameReplies : (e : Entry) (t : ℕ) → SameReplies t (release_entry e) e
unfolding release_entry
release_entry-SameReplies e t n allow le = ground arith

released-SameReplies :
    (e : Entry) (k : Bytes) (t : ℕ)
    → Holds k e
    → same_key (release_entry e) k ≡ false
    → SameReplies t blank e
unfolding release_entry same_key
released-SameReplies e k t h f n allow le = ground arith

released-Holds :
    (e : Entry) (k : Bytes) → same_key e k ≡ false → same_key (release_entry e) k ≡ false
unfolding release_entry same_key
released-Holds e k h = ground arith

failed_entries :
    (c : Cache) (i : ℕ) (e : Entry) (now : ℤ) (o : Outcome)
    → (o.success ≡ false) ⊎ (bad_outcome now o ≡ true)
    → (complete_entry c i e now o).cache.entries ≡ set c.entries i (release_entry e)
unfolding complete_entry count_failure
failed_entries c i e now o h = ground arith

-- In a sound cache, the completion of a refresh that fails, or that is reported with values that are
-- refused, changes no answer for any key at any time: the documents that the cache holds right before
-- the completion stay.
pub complete_refresh-SameReplies :
    (c : Cache) (r : Refresh) (now : ℤ) (o : Outcome) (k : Bytes)
    → IsValid c
    → (o.success ≡ false) ⊎ (bad_outcome now o ≡ true)
    → SameReplies 0 (entry_of (complete_refresh c r now o).cache.entries k) (entry_of c.entries k)
complete_refresh-SameReplies c r now o k v h =
    complete_refresh_rule (λ y. SameReplies 0 (entry_of y.cache.entries k) (entry_of c.entries k)) c
      r now o (λ n allow le. refl)
      λ i _ lt own.
        let e = get_or c.entries i blank in
        rw (failed_entries c i e now o h) (
          set-SameReplies c.entries i 0 (release_entry e) k v.unique
            (Unique-set c.entries i (release_entry e) (release_entry-Keeps e) v.unique) lt
            (λ _ _. release_entry-SameReplies e 0) (λ a b. released-SameReplies e k 0 a b)
            (λ a b. absurd (cc (b, released-Holds e k a))))

-- The entry that is no longer being refreshed belongs to nobody.
not_owned :
    (c : Cache) (i serial : ℕ) (e : Entry) (now : ℤ) (o : Outcome)
    → i < length c.entries
    → owns (get_or (complete_entry c i e now o).cache.entries i blank) serial ≡ false
unfolding complete_entry count_failure owns release_entry store
not_owned c i serial e now o lt = ground (
  arith,
  get_or-set_self c.entries i (release_entry e) blank lt,
  get_or-set_self c.entries i blank blank lt,
  get_or-set_self c.entries i (store e (magnitude now) o) blank lt,
)

refused_unless_owned :
    (c : Cache) (r : Refresh) (i : ℕ) (now : ℤ) (o : Outcome)
    → r.entry_index ≡ some i
    → owns (get_or c.entries i blank) r.serial ≡ false
    → complete_refresh c r now o ≡ record { cache = c; result = false }
unfolding complete_refresh complete_at
refused_unless_owned c r i now o e h = rw (e, complete_refresh) (ground (arith, h))

-- A refresh completes once: after a completion, accepted or not, a second one under the same
-- serial is refused and changes nothing.
pub completes_once :
    (c : Cache) (r : Refresh) (now now' : ℤ) (o o' : Outcome)
    → let c' = (complete_refresh c r now o).cache in
      complete_refresh c' r now' o' ≡ record { cache = c'; result = false }
completes_once c r now now' o o' = elim (complete_refresh-cases c r) [
  | inl e ↦ rw (e now o) (e now' o')
  | inr (i, ix, lt, own, e) ↦ rw (e now o) (
      refused_unless_owned _ r i now' o' ix
        (not_owned c i r.serial (get_or c.entries i blank) now o lt))
]

-- In a sound cache, a refresh that is begun at a time and then reported as failed or with values that
-- are refused, with no other call between the two, loses nothing: from
-- that time on every key has the answers that it had before the refresh was begun.
pub failed_refresh-SameReplies :
    (c : Cache) (key : Option Bytes) (now : ℕ) (u : Bool) (cooldown : ℤ) (t : ℤ) (o : Outcome)
    (k : Bytes)
    → IsValid c
    → (o.success ≡ false) ⊎ (bad_outcome t o ≡ true)
    → let b = begin_refresh c key (pos now) u cooldown in
      SameReplies now
        (entry_of (complete_refresh b.cache b.refresh t o).cache.entries k)
        (entry_of c.entries k)
failed_refresh-SameReplies c key now u cooldown t o k v h n allow le =
    let b = begin_refresh c key (pos now) u cooldown in
    complete_refresh-SameReplies b.cache b.refresh t o k
      (begin_refresh-IsValid c key (pos now) u cooldown v) h n allow (omega arith)
    ∙ begin_refresh-SameReplies c key now u cooldown k v n allow le
