-- ===== src/CacheState/Complete.antt =====
-- `pg_oauth_cache_complete_refresh`: the owner of a refresh stores what it got, or gives up.
use pg_oauth_validator.Base.{
  ℕ, Bool, true, false, not, ◌&&◌, ◌||◌, Option, none, some, ltb, leb, ◌==◌, if◌then◌else◌, length,
  get_or, ℤ, Bytes, [], is_negative, magnitude,
}
use pg_oauth_validator.CacheState.Types.{
  Entry, Cache, Refresh, blank, bounded_add, with_entry, count_failure, max_payload_size,
}

-- What the owner reports. A NULL payload is `none`.
pub record Outcome : Type 0 where
  pub success : Bool
  pub cacheable : Bool
  pub revalidation_required : Bool
  pub ttl_ms : ℤ
  pub stale_grace_ms : ℤ
  pub payload : Option Bytes

-- the refusal of an entry that the caller does not own
unfoldable pub owns : Entry → ℕ → Bool
owns e serial = e.occupied && e.refreshing && e.refresh_serial == serial

-- `refreshing = false`, and a blank entry if it never had a value
unfoldable pub release_entry : Entry → Entry
release_entry e = if e.has_value then record e { refreshing = false } else blank

unfoldable pub bad_payload : Option Bytes → Bool
bad_payload none = true
bad_payload (some p) = length p == 0 || ltb max_payload_size (length p)

abbrev pub payload_bytes : Option Bytes → Bytes
payload_bytes none = []
payload_bytes (some p) = p

-- the arguments that the owner may not report
unfoldable pub bad_outcome : ℤ → Outcome → Bool
bad_outcome now o =
    is_negative now
    || is_negative o.ttl_ms
    || is_negative o.stale_grace_ms
    || (o.success && o.cacheable && bad_payload o.payload)

-- the entry that holds a new value
unfoldable pub store : Entry → ℕ → Outcome → Entry
store e now o =
    let fresh = bounded_add now (magnitude o.ttl_ms) in
    record e {
      refreshing = false;
      has_value = true;
      payload = payload_bytes o.payload;
      last_used_ms = now;
      fresh_until_ms = fresh;
      stale_until_ms =
          if not o.revalidation_required
          then bounded_add fresh (magnitude o.stale_grace_ms)
          else fresh;
    }

pub record Completion : Type 0 where
  pub cache : Cache
  pub result : Bool

unfoldable pub complete_entry : Cache → ℕ → Entry → ℤ → Outcome → Completion
complete_entry c i e now o =
    if bad_outcome now o
    then record { cache = count_failure (with_entry c i (release_entry e)); result = false }
    else if not o.success
    then record { cache = count_failure (with_entry c i (release_entry e)); result = true }
    else if not o.cacheable
    then record { cache = with_entry c i blank; result = true }
    else record { cache = with_entry c i (store e (magnitude now) o); result = true }

unfoldable pub complete_at : Cache → ℕ → ℕ → ℤ → Outcome → Completion
complete_at c i serial now o =
    let e = get_or c.entries i blank in
    if not (owns e serial) then record { cache = c; result = false } else complete_entry c i e now o

unfoldable pub complete_refresh : Cache → Refresh → ℤ → Outcome → Completion
complete_refresh c r now o = elim r.entry_index [
  | none ↦ record { cache = c; result = false }
  | some i ↦
      if leb (length c.entries) i || r.serial == 0
      then record { cache = c; result = false }
      else complete_at c i r.serial now o
]
