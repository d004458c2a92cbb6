-- ===== src/CacheState/Types.antt =====
-- cache_state.h and the helpers of cache_state.c: entries, counters, and how a cache is set up.
-- A key or a payload is the list of the bytes that its length counts. A NULL key or payload is
-- `none`, and so is the index SIZE_MAX, which stands for no entry. The stored times come from
-- arguments that the guards found nonnegative, so they are numbers.
use pg_oauth_validator.Base.{
  ℕ, ◌+◌, ◌-◌, ◌%◌, ◌^◌, Bool, false, ◌&&◌, ◌||◌, List, [], Option, none, some, ltb, leb, ◌==◌,
  if◌then◌else◌, length, set, replicate, int64_max, uint64_max, Bytes, bytes_eq,
}

abbrev pub max_key_size : ℕ
max_key_size = 4096

abbrev pub max_payload_size : ℕ
max_payload_size = 65536

pub data LookupResult : Type 0 where
  miss fresh stale : LookupResult

pub data RefreshResult : Type 0 where
  started in_progress suppressed capacity_full invalid_argument : RefreshResult

pub data CopyResult : Type 0 where
  copy_ok copy_not_found copy_too_small copy_invalid_argument : CopyResult

pub record Entry : Type 0 where
  pub key : Bytes
  pub payload : Bytes
  pub refresh_serial : ℕ
  pub fresh_until_ms : ℕ
  pub stale_until_ms : ℕ
  pub last_used_ms : ℕ
  pub last_unknown_kid_refresh_ms : ℕ
  pub occupied : Bool
  pub has_value : Bool
  pub refreshing : Bool
  pub has_unknown_kid_refresh : Bool

pub record Stats : Type 0 where
  pub fresh_hits : ℕ
  pub stale_hits : ℕ
  pub misses : ℕ
  pub refreshes : ℕ
  pub refresh_suppressions : ℕ
  pub evictions : ℕ
  pub failures : ℕ

pub record Control : Type 0 where
  pub next_refresh_serial : ℕ
  pub stats : Stats

pub record Cache : Type 0 where
  pub entries : List Entry
  pub control : Control

pub record Refresh : Type 0 where
  pub entry_index : Option ℕ
  pub serial : ℕ

-- `memset(entry, 0, sizeof(*entry))`
abbrev pub blank : Entry
blank = record {
  key = [];
  payload = [];
  refresh_serial = 0;
  fresh_until_ms = 0;
  stale_until_ms = 0;
  last_used_ms = 0;
  last_unknown_kid_refresh_ms = 0;
  occupied = false;
  has_value = false;
  refreshing = false;
  has_unknown_kid_refresh = false;
}

abbrev pub no_stats : Stats
no_stats = record {
  fresh_hits = 0;
  stale_hits = 0;
  misses = 0;
  refreshes = 0;
  refresh_suppressions = 0;
  evictions = 0;
  failures = 0;
}

-- the entry index and the serial that a refused refresh leaves
abbrev pub no_refresh : Refresh
no_refresh = record { entry_index = none; serial = 0 }

unfoldable pub valid_key : Bytes → Bool
valid_key k = ltb 0 (length k) && leb (length k) max_key_size

unfoldable pub same_key : Entry → Bytes → Bool
same_key e k = e.occupied && bytes_eq e.key k

unfoldable pub bounded_add : ℕ → ℕ → ℕ
bounded_add value duration =
    if ltb (int64_max - value) duration then int64_max else value + duration

unfoldable pub increment : ℕ → ℕ
increment counter = if counter == uint64_max then counter else counter + 1

-- `(*serial)++` on a uint64_t, and 1 instead of 0 after the wrap
unfoldable pub next_serial : ℕ → ℕ
next_serial n = let n' = (n + 1) % 2 ^ 64 in if n' == 0 then 1 else n'

abbrev pub with_entry : Cache → ℕ → Entry → Cache
with_entry c i e = record c { entries = set c.entries i e }

abbrev pub with_stats : Cache → Stats → Cache
with_stats c s = record c { control = record (c.control) { stats = s } }

unfoldable pub count_failure : Cache → Cache
count_failure c =
    with_stats c (record (c.control.stats) { failures = increment c.control.stats.failures })

unfoldable pub count_suppression : Cache → Cache
count_suppression c = with_stats c (record (c.control.stats) {
  refresh_suppressions = increment c.control.stats.refresh_suppressions;
})

unfoldable pub count_eviction : Cache → Cache
count_eviction c =
    with_stats c (record (c.control.stats) { evictions = increment c.control.stats.evictions })

unfoldable pub count_refresh : Cache → Cache
count_refresh c =
    with_stats c (record (c.control.stats) { refreshes = increment c.control.stats.refreshes })

unfoldable pub count_lookup : LookupResult → Cache → Cache
count_lookup fresh c =
    with_stats c (record (c.control.stats) { fresh_hits = increment c.control.stats.fresh_hits })
count_lookup stale c =
    with_stats c (record (c.control.stats) { stale_hits = increment c.control.stats.stale_hits })
count_lookup miss c =
    with_stats c (record (c.control.stats) { misses = increment c.control.stats.misses })

-- `pg_oauth_cache_init`: `none` where the capacity is 0
unfoldable pub init : ℕ → Option Cache
init capacity =
    if capacity == 0
    then none
    else some (record {
      entries = replicate capacity blank;
      control = record { next_refresh_serial = 1; stats = no_stats };
    })

-- `pg_oauth_cache_attach`: a view of entries and a control that already exist
unfoldable pub attach : List Entry → Control → Option Cache
attach entries control =
    if length entries == 0 || control.next_refresh_serial == 0
    then none
    else some (record { entries = entries; control = control })
