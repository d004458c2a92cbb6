-- ===== src/SharedCache/State.antt =====
-- The shared segment, the static variables of a backend, and how it attaches.
use pg_oauth_validator.CacheState.Types.{Cache, attach, no_stats, blank}
use pg_oauth_validator.Base.{
  none, some, ℕ, ℤ, pos, Bool, Option, ◌==◌, if◌then◌else◌, ◌||◌, ◌+◌, ◌*◌, ◌/◌, ◌-◌, true, false,
  not, ltb, ltb_ℤ, replicate, uint64_max, is_none, magnitude,
}

abbrev pub cache_magic : ℕ
cache_magic = 1346850627

abbrev pub cache_version : ℕ
cache_version = 3

-- `entries` and `control` are one cache. The lock, its tranche and the condition variable are
-- PostgreSQL's.
pub record Segment : Type 0 where
  pub magic : ℕ
  pub version : ℕ
  pub capacity : ℕ
  pub cache : Cache

-- `attached` says that `shared_state` is not NULL.
pub record Backend : Type 0 where
  pub attached : Bool
  pub configured_capacity : ℕ

abbrev pub new_backend : Backend
new_backend = record { attached = false; configured_capacity = 32 }

-- The sizes that the compiler gives to the header and to an entry.
pub record Sizes : Type 0 where
  pub header : ℕ
  pub entry : ℕ

unfoldable pub shared_cache_size : Sizes → ℤ → Option ℕ
shared_cache_size s capacity =
    if ltb_ℤ capacity (pos 8)
      || ltb_ℤ (pos 256) capacity
      || ltb ((uint64_max - s.header) / s.entry) (magnitude capacity)
    then none
    else some (s.header + magnitude capacity * s.entry)

-- The segment that the callback leaves.
abbrev pub initialize_shared_cache : ℕ → Segment
initialize_shared_cache capacity = record {
  magic = cache_magic;
  version = cache_version;
  capacity = capacity;
  cache = record {
    entries = replicate capacity blank;
    control = record { next_refresh_serial = 1; stats = no_stats };
  };
}

pub record Attach : Type 0 where
  pub backend : Backend
  pub segment : Option Segment
  pub result : Bool

abbrev pub agrees : Backend → Option Segment → Bool
agrees b none = false
agrees b (some s) = s.capacity == b.configured_capacity

abbrev pub attach_refused : Backend → Option Segment → Attach
attach_refused b segment = record {
  backend = record b { attached = false };
  segment = segment;
  result = false;
}

unfoldable pub attach_view : Backend → Segment → Option Cache → Attach
attach_view b s none = attach_refused b (some s)
attach_view b s (some view) = record {
  backend = record b { attached = true };
  segment = some s;
  result = true;
}

unfoldable pub attach_segment : Backend → Option Segment → Option Segment → Attach
attach_segment b old none = attach_refused b old
attach_segment b old (some s) =
    if not (s.magic == cache_magic)
      || not (s.version == cache_version)
      || not (s.capacity == b.configured_capacity)
    then attach_refused b (some s)
    else attach_view b s (attach s.cache.entries s.cache.control)

-- PostgreSQL raises an error where the segment that is there has another size than the one asked for.
-- Here it is handed out, and the check of its capacity refuses it: the backend is not attached either
-- way.
--
-- PostgreSQL's registry of named segments: GetNamedDSMSegment on the segment that is there and the
-- one that the callback would leave.
pub record Registry : Type 0 where
  pub get_named_segment : Option Segment → Segment → Option Segment

module _ (sizes : Sizes) (registry : Registry) where
  unfoldable pub configure_capacity : Backend → Option Segment → ℤ → Backend × Bool
  configure_capacity b segment capacity =
      if is_none (shared_cache_size sizes capacity)
      then (b, false)
      else let b' : Backend = record b { configured_capacity = magnitude capacity } in
        (b', not b.attached || agrees b' segment)

  unfoldable pub attach_when : Bool → Backend → Option Segment → Attach
  attach_when attached b segment =
      if attached
      then record { backend = b; segment = segment; result = agrees b segment }
      else if is_none (shared_cache_size sizes (pos b.configured_capacity))
      then record { backend = b; segment = segment; result = false }
      else attach_segment b segment
          (registry.get_named_segment segment (initialize_shared_cache b.configured_capacity))

  abbrev pub shared_cache_attach : Backend → Option Segment → Attach
  shared_cache_attach b segment = attach_when b.attached b segment
