-- ===== src/CacheState/Eviction.antt =====
-- Starting a refresh takes no document away: what is given up has expired.
use pg_oauth_validator.CacheState.Preserve.{
  begin_existing-IsValid, started_entry-key, begin_vacant-IsValid, get_or-EntryValid,
  control-IsValid,
}
use pg_oauth_validator.CacheState.View.{entry_of, entry_of-Absent}
use pg_oauth_validator.CacheState.Slots.{
  Available, Finds, Holds, Absent, Holds-key, Absent-Holds, find_refresh_slot-Finds,
}
use pg_oauth_validator.CacheState.Invariant.{EntryValid, IsValid}
use pg_oauth_validator.CacheState.Answers.{SameReplies, set-SameReplies}
use pg_oauth_validator.CacheState.Types.{
  Entry, Cache, valid_key, blank, count_failure, count_suppression, count_eviction, same_key,
  count_refresh,
}
use pg_oauth_validator.CacheState.Begin.{
  started_entry, new_entry, begin_at, Slot, existing, vacant, full, start_refresh, begin_refresh,
  find_refresh_slot,
}
use pg_oauth_validator.Base.{
  ℕ, Bytes, Bool, arith, ◌≡◌, true, inl, inr, Bool-cases, get_or, ◌<◌, ◌&&◌, length, ltb, ◌+◌, sym,
  ◌∙◌, Option, refl, ℤ, pos, some, negsuc, none,
}

started_entry-SameReplies :
    (e : Entry) (now serial t : ℕ) (u : Bool) → SameReplies t (started_entry e now serial u) e
unfolding started_entry
started_entry-SameReplies e now serial t u n allow le = ground arith

started_new-SameReplies :
    (k : Bytes) (now serial t : ℕ) (u : Bool)
    → SameReplies t (started_entry (new_entry k now) now serial u) blank
unfolding started_entry
started_new-SameReplies k now serial t u n allow le = ground arith

-- An expired entry answers as if it were gone.
Available-SameReplies :
    (e : Entry) (now : ℕ) → EntryValid e → Available now e → SameReplies now blank e
Available-SameReplies e now v (inl free) n allow le = ground arith
Available-SameReplies e now v (inr (idle, old)) n allow le = ground arith

started_entry-same_key :
    (e : Entry) (now serial : ℕ) (u : Bool) (k : Bytes)
    → same_key (started_entry e now serial u) k ≡ same_key e k
unfolding started_entry same_key
started_entry-same_key e now serial u k = ground arith

module _ (c : Cache) (k k' : Bytes) (now : ℕ) (u : Bool) (v : IsValid c) where
  start_existing-SameReplies :
      (j : ℕ)
      → j < length c.entries
      → Holds k (get_or c.entries j blank)
      → SameReplies now
          (entry_of (start_refresh c j (get_or c.entries j blank) now u).cache.entries k')
          (entry_of c.entries k')
  unfolding start_refresh count_refresh
  start_existing-SameReplies j lt h =
      let old = get_or c.entries j blank in
      let serial = c.control.next_refresh_serial in
      let same = started_entry-same_key old now serial u k' in
      set-SameReplies c.entries j now (started_entry old now serial u) k' v.unique
        (begin_existing-IsValid c now u j (Holds-key old k h).0 v).unique lt
        (λ _ _. started_entry-SameReplies old now serial now u) (λ a b. absurd (cc (a, b, same)))
        (λ a b. absurd (cc (a, b, same)))

  start_vacant-SameReplies :
      (j : ℕ)
      → valid_key k ≡ true
      → j < length c.entries
      → Available now (get_or c.entries j blank)
      → Absent k c.entries
      → SameReplies now
          (entry_of (start_refresh c j (new_entry k now) now u).cache.entries k')
          (entry_of c.entries k')
  unfolding start_refresh count_refresh
  start_vacant-SameReplies j hk lt av ab =
      let old = get_or c.entries j blank in
      let serial = c.control.next_refresh_serial in
      let new = started_entry (new_entry k now) now serial u in
      let is_k = λ (h : Holds k' new).
        sym (started_entry-key (new_entry k now) now serial u).0 ∙ (Holds-key new k' h).1 in
      set-SameReplies c.entries j now new k' v.unique
        (begin_vacant-IsValid c k now u j hk ab v).unique lt
        (λ a b. absurd (Absent-Holds c.entries k j ab lt (rw (is_k b) a)))
        (λ _ _. Available-SameReplies old now (get_or-EntryValid c.entries j v.entries_valid) av)
        (λ a b.
          rw (← (is_k b), entry_of-Absent c.entries k ab)
            (started_new-SameReplies k now serial now u))

module _ (c : Cache) (k k' : Bytes) (now : ℕ) (u : Bool) (v : IsValid c) where
  begin_at-SameReplies :
      (m : ℕ) (s : Slot)
      → valid_key k ≡ true
      → Finds c k now s
      → SameReplies now (entry_of (begin_at c k now u m s).cache.entries k') (entry_of c.entries k')
  unfolding begin_at count_failure count_suppression count_eviction
  begin_at-SameReplies m full hk f = λ n allow le. refl
  begin_at-SameReplies m (existing j) hk f =
      elim (Bool-cases (get_or c.entries j blank).refreshing) [
        | inl e ↦ rw e (λ n allow le. refl)
        | inr e ↦
            rw e
              (elim (Bool-cases (
                u
                && (get_or c.entries j blank).has_unknown_kid_refresh
                && ltb now ((get_or c.entries j blank).last_unknown_kid_refresh_ms + m))) [
                  | inl x ↦ rw x (λ n allow le. refl)
                  | inr x ↦ rw x (start_existing-SameReplies c k k' now u v j f.0 f.1)
                ])
      ]
  begin_at-SameReplies m (vacant j) hk f = elim (Bool-cases (get_or c.entries j blank).occupied) [
    | inl e ↦ rw e (
        start_vacant-SameReplies (count_eviction c) k k' now u
          (control-IsValid c (count_eviction c).control v v.serial_positive) j hk f.0 f.1 f.2)
    | inr e ↦ rw e (start_vacant-SameReplies c k k' now u v j hk f.0 f.1 f.2)
  ]

-- In a sound cache and at a time that is not negative, starting a refresh, or failing to, changes
-- no answer: every lookup from then on, for this key or another, with or without stale answers,
-- finds what it would have found before.
pub begin_refresh-SameReplies :
    (c : Cache) (k : Option Bytes) (now : ℕ) (u : Bool) (cooldown : ℤ) (k' : Bytes)
    → IsValid c
    → SameReplies now
        (entry_of (begin_refresh c k (pos now) u cooldown).cache.entries k')
        (entry_of c.entries k')
unfolding begin_refresh
begin_refresh-SameReplies c none now u cooldown k' v = λ n allow le. refl
begin_refresh-SameReplies c (some k) now u (negsuc m) k' v = λ n allow le. refl
begin_refresh-SameReplies c (some k) now u (pos m) k' v = elim (Bool-cases (valid_key k)) [
  | inl h ↦ rw h (
      begin_at-SameReplies c k k' now u v m (find_refresh_slot c k now) h
        (find_refresh_slot-Finds c k now))
  | inr h ↦ rw h (λ n allow le. refl)
]
