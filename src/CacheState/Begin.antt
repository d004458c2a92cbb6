-- ===== src/CacheState/Begin.antt =====
-- `pg_oauth_cache_begin_refresh`: the entry that a refresh takes, and who becomes its owner.
use pg_oauth_validator.Base.{
  ℕ, suc, ◌+◌, Bool, true, not, ◌&&◌, ◌||◌, List, [], ◌∷◌, Option, none, some, ltb, leb,
  if◌then◌else◌, is_none, get_or, set, ℤ, pos, negsuc, int64_max, Bytes,
}
use pg_oauth_validator.CacheState.Types.{
  RefreshResult, started, in_progress, suppressed, capacity_full, invalid_argument, Entry, Cache,
  Refresh, blank, no_refresh, valid_key, same_key, next_serial, count_failure, count_suppression,
  count_eviction, count_refresh,
}

-- the locals of `find_refresh_slot`
pub record Slots : Type 0 where
  pub empty : Option ℕ
  pub victim : Option ℕ
  pub victim_last_used : ℕ

pub data Slot : Type 0 where
  existing : ℕ → Slot
  vacant : ℕ → Slot
  full : Slot

-- the `if`/`else if` of the loop's body on an entry of another key
unfoldable pub note_slot : ℕ → Entry → ℕ → Slots → Slots
note_slot i e now s =
    if not e.occupied && is_none s.empty
    then record s { empty = some i }
    else if e.occupied
        && not e.refreshing
        && leb e.stale_until_ms now
        && (is_none s.victim || ltb e.last_used_ms s.victim_last_used)
    then record s { victim = some i; victim_last_used = e.last_used_ms }
    else s

-- `empty != SIZE_MAX ? empty : victim`
unfoldable pub choose_slot : Option ℕ → Option ℕ → Slot
choose_slot (some i) victim = vacant i
choose_slot none (some i) = vacant i
choose_slot none none = full

unfoldable pub find_slot : ℕ → List Entry → Bytes → ℕ → Slots → Slot
find_slot i [] k now s = choose_slot s.empty s.victim
find_slot i (e ∷ es) k now s =
    let rest = find_slot (suc i) es k now (note_slot i e now s) in
    if same_key e k then existing i else rest

abbrev pub no_slots : Slots
no_slots = record { empty = none; victim = none; victim_last_used = int64_max }

unfoldable pub find_refresh_slot : Cache → Bytes → ℕ → Slot
find_refresh_slot c k now = find_slot 0 c.entries k now no_slots

pub record Begin : Type 0 where
  pub cache : Cache
  pub result : RefreshResult
  pub refresh : Refresh

-- the entry that a started refresh leaves
unfoldable pub started_entry : Entry → ℕ → ℕ → Bool → Entry
started_entry e now serial unknown_kid =
    let e' : Entry =
      if unknown_kid
      then record e { has_unknown_kid_refresh = true; last_unknown_kid_refresh_ms = now }
      else e in
    record e' { refreshing = true; refresh_serial = serial }

-- the part of `pg_oauth_cache_begin_refresh` after its refusals, on the entry to be refreshed
unfoldable pub start_refresh : Cache → ℕ → Entry → ℕ → Bool → Begin
start_refresh c i e now unknown_kid =
    let serial = c.control.next_refresh_serial in
    let c' : Cache = record c {
      entries = set c.entries i (started_entry e now serial unknown_kid);
      control = record (c.control) { next_refresh_serial = next_serial serial };
    } in
    record {
      cache = count_refresh c';
      result = started;
      refresh = record { entry_index = some i; serial = serial };
    }

-- `!existing`: the entry that takes the place of a free or an expired one
abbrev pub new_entry : Bytes → ℕ → Entry
new_entry k now = record blank { key = k; occupied = true; last_used_ms = now }

unfoldable pub begin_at : Cache → Bytes → ℕ → Bool → ℕ → Slot → Begin
begin_at c k now unknown_kid cooldown full = record {
  cache = count_failure c;
  result = capacity_full;
  refresh = no_refresh;
}
begin_at c k now unknown_kid cooldown (existing i) =
    let e = get_or c.entries i blank in
    if e.refreshing
    then record { cache = count_suppression c; result = in_progress; refresh = no_refresh }
    else if unknown_kid
        && e.has_unknown_kid_refresh
        && ltb now (e.last_unknown_kid_refresh_ms + cooldown)
    then record { cache = count_suppression c; result = suppressed; refresh = no_refresh }
    else start_refresh c i e now unknown_kid
begin_at c k now unknown_kid cooldown (vacant i) =
    start_refresh (if (get_or c.entries i blank).occupied then count_eviction c else c) i
      (new_entry k now) now unknown_kid

abbrev pub no_begin : Cache → Begin
no_begin c = record { cache = c; result = invalid_argument; refresh = no_refresh }

unfoldable pub begin_refresh : Cache → Option Bytes → ℤ → Bool → ℤ → Begin
begin_refresh c none now unknown_kid cooldown = no_begin c
begin_refresh c (some k) (negsuc _) unknown_kid cooldown = no_begin c
begin_refresh c (some k) (pos now) unknown_kid (negsuc _) = no_begin c
begin_refresh c (some k) (pos now) unknown_kid (pos cooldown) =
    if not (valid_key k)
    then no_begin c
    else begin_at c k now unknown_kid cooldown (find_refresh_slot c k now)
