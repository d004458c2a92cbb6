-- ===== src/CacheState/PreserveComplete.antt =====
-- Completing a refresh keeps the invariant.
use pg_oauth_validator.CacheState.Complete.{
  complete_entry, Outcome, release_entry, store, bad_outcome, owns, complete_at, complete_refresh,
  bad_payload,
}
use pg_oauth_validator.CacheState.Invariant.{
  EntryValid, IsValid, Keeps, blank-EntryValid, release_entry-EntryValid, store-EntryValid,
}
use pg_oauth_validator.CacheState.Types.{Entry, Cache, blank, count_failure, with_entry, Refresh}
use pg_oauth_validator.Base.{
  ℕ, ◌≡◌, ℤ, get_or, false, true, Bool-cases, inl, inr, arith, ◌≤◌, int64_max, Option-cases,
  magnitude,
}
use pg_oauth_validator.CacheState.Preserve.{get_or-EntryValid, set-IsValid}

pub release_entry-Keeps : (e : Entry) → Keeps e (release_entry e)
unfolding release_entry
release_entry-Keeps e = ground arith

pub store-Keeps : (e : Entry) (now : ℕ) (o : Outcome) → Keeps e (store e now o)
unfolding store
store-Keeps e now o = ground arith

bad_outcome-payload :
    (now : ℤ) (o : Outcome)
    → bad_outcome now o ≡ false
    → o.success ≡ true
    → o.cacheable ≡ true
    → bad_payload o.payload ≡ false
unfolding bad_outcome
bad_outcome-payload now o h s k = ground arith

module _ (c : Cache) (i : ℕ) (v : IsValid c) where
  write-IsValid :
      (e' : Entry)
      → EntryValid e'
      → Keeps (get_or c.entries i blank) e'
      → IsValid (with_entry c i e')
  write-IsValid e' ve h = set-IsValid c i e' c.control v ve h v.serial_positive

  write_failed-IsValid :
      (e' : Entry)
      → EntryValid e'
      → Keeps (get_or c.entries i blank) e'
      → IsValid (count_failure (with_entry c i e'))
  unfolding count_failure
  write_failed-IsValid e' ve h =
      set-IsValid c i e' (count_failure c).control v ve h v.serial_positive

  pub complete_entry-IsValid :
      (now : ℤ) (o : Outcome)
      → magnitude now ≤ int64_max
      → (get_or c.entries i blank).occupied ≡ true
      → IsValid (complete_entry c i (get_or c.entries i blank) now o).cache
  unfolding complete_entry
  complete_entry-IsValid now o hn occ =
      let e : Entry = get_or c.entries i blank in
      let ve : EntryValid e = get_or-EntryValid c.entries i v.entries_valid in
      let released =
        write_failed-IsValid (release_entry e) (release_entry-EntryValid e ve)
          (release_entry-Keeps e) in
      ground (
        arith,
        released,
        write-IsValid blank blank-EntryValid (λ h. absurd (cc h)),
        bad_outcome-payload now o,
        λ (p : bad_payload o.payload ≡ false).
            write-IsValid (store e (magnitude now) o)
              (store-EntryValid e (magnitude now) o hn p occ ve) (store-Keeps e (magnitude now) o),
      )

pub owns-occupied : (e : Entry) (serial : ℕ) → owns e serial ≡ true → e.occupied ≡ true
unfolding owns
owns-occupied e serial h = ground arith

complete_at-IsValid :
    (c : Cache) (i serial : ℕ) (now : ℤ) (o : Outcome)
    → magnitude now ≤ int64_max
    → IsValid c
    → IsValid (complete_at c i serial now o).cache
unfolding complete_at
complete_at-IsValid c i serial now o hn v =
    elim (Bool-cases (owns (get_or c.entries i blank) serial)) [
      | inl e ↦ rw e (complete_entry-IsValid c i v now o hn (owns-occupied _ serial e))
      | inr e ↦ rw e v
    ]

pub complete_refresh-IsValid :
    (c : Cache) (r : Refresh) (now : ℤ) (o : Outcome)
    → magnitude now ≤ int64_max
    → IsValid c
    → IsValid (complete_refresh c r now o).cache
unfolding complete_refresh
complete_refresh-IsValid c r now o hn v = elim (Option-cases r.entry_index) [
  | inl e ↦ rw (e, complete_refresh) v
  | inr (i, e) ↦
      rw (e, complete_refresh) (ground (arith, v, complete_at-IsValid c i r.serial now o hn v))
]
