-- ===== src/CacheState/Lookup.antt =====
-- `pg_oauth_cache_lookup`, `pg_oauth_cache_is_refreshing` and `pg_oauth_cache_copy_payload`.
use pg_oauth_validator.Base.{
  ℕ, suc, Bool, false, not, ◌&&◌, ◌||◌, List, [], ◌∷◌, Option, none, some, ltb, leb, if◌then◌else◌,
  length, get_or, ℤ, pos, negsuc, Bytes,
}
use pg_oauth_validator.CacheState.Types.{
  LookupResult, miss, fresh, stale, CopyResult, copy_ok, copy_not_found, copy_too_small,
  copy_invalid_argument, Entry, Cache, blank, valid_key, same_key, with_entry, count_lookup,
}

-- the two tests of the loop of `pg_oauth_cache_lookup` on the entry that it stops at
unfoldable pub freshness : Entry → ℕ → Bool → LookupResult
freshness e now allow_stale =
    if ltb now e.fresh_until_ms
    then fresh
    else if allow_stale && ltb now e.stale_until_ms
    then stale
    else miss

-- the loop, from the index `i` on: the first entry with the key and a value
unfoldable pub scan : ℕ → List Entry → Bytes → Option ℕ
scan i [] k = none
scan i (e ∷ es) k =
    let rest = scan (suc i) es k in if not (same_key e k) || not e.has_value then rest else some i

pub record Lookup : Type 0 where
  pub cache : Cache
  pub freshness : LookupResult
  pub entry_index : Option ℕ

-- what follows for that entry: its last use, the index that is handed out, the counter
unfoldable pub answer : Cache → ℕ → LookupResult → ℕ → Lookup
answer c now miss i = record { cache = count_lookup miss c; freshness = miss; entry_index = none }
answer c now f i = record {
  cache =
      count_lookup f (with_entry c i (record (get_or c.entries i blank) { last_used_ms = now }));
  freshness = f;
  entry_index = some i;
}

unfoldable pub lookup_at : Cache → ℕ → Bool → Option ℕ → Lookup
lookup_at c now allow_stale none = answer c now miss 0
lookup_at c now allow_stale (some i) =
    answer c now (freshness (get_or c.entries i blank) now allow_stale) i

abbrev pub no_lookup : Cache → Lookup
no_lookup c = record { cache = c; freshness = miss; entry_index = none }

unfoldable pub lookup : Cache → Option Bytes → ℤ → Bool → Lookup
lookup c none now allow_stale = no_lookup c
lookup c (some k) (negsuc _) allow_stale = no_lookup c
lookup c (some k) (pos now) allow_stale =
    if not (valid_key k) then no_lookup c else lookup_at c now allow_stale (scan 0 c.entries k)

-- the loop of `pg_oauth_cache_is_refreshing`: the first entry with the key answers
unfoldable pub refreshing_from : List Entry → Bytes → Bool
refreshing_from [] k = false
refreshing_from (e ∷ es) k =
    let rest = refreshing_from es k in if same_key e k then e.refreshing else rest

unfoldable pub is_refreshing : Cache → Option Bytes → Bool
is_refreshing c none = false
is_refreshing c (some k) = if not (valid_key k) then false else refreshing_from c.entries k

-- The output is `none` if no buffer is given, or else the bytes that a copy writes.
pub record Copy : Type 0 where
  pub result : CopyResult
  pub output : Bytes
  pub payload_length : ℕ

abbrev pub no_copy : CopyResult → Copy
no_copy r = record { result = r; output = []; payload_length = 0 }

unfoldable pub copy_entry : Entry → Option ℕ → Copy
copy_entry e output_size =
    let too_small : Copy = record {
      result = copy_too_small;
      output = [];
      payload_length = length e.payload;
    } in
    if not e.occupied || not e.has_value then no_copy copy_not_found else elim output_size [
      | none ↦ too_small
      | some size ↦
          if ltb size (length e.payload)
          then too_small
          else record { result = copy_ok; output = e.payload; payload_length = length e.payload }
    ]

-- `output_size` is `none` for a NULL output.
unfoldable pub copy_payload : Cache → Option ℕ → Option ℕ → Copy
copy_payload c none output_size = no_copy copy_invalid_argument
copy_payload c (some i) output_size =
    if leb (length c.entries) i
    then no_copy copy_invalid_argument
    else copy_entry (get_or c.entries i blank) output_size
