-- ===== src/CacheState/Answers.antt =====
-- What a lookup answers, as a function of the map: the array, its scan and its indices are gone.
use pg_oauth_validator.CacheState.Slots.{Holds}
use pg_oauth_validator.CacheState.View.{
  ScanOk, entry_of, scan-ScanOk, entry_of-at, updated, entry_of-set,
}
use pg_oauth_validator.CacheState.Invariant.{Unique, IsValid}
use pg_oauth_validator.CacheState.Lookup.{answer, lookup_at, lookup, freshness}
use pg_oauth_validator.CacheState.Types.{
  Entry, Cache, LookupResult, miss, fresh, stale, valid_key, blank, same_key,
}
use pg_oauth_validator.Base.{
  [], ℕ, Bool, Bytes, if◌then◌else◌, ◌≡◌, Option, not, ltb, ◌&&◌, refl, true, some, pos, arith,
  none, ◌≤◌, List, get_or, ◌<◌, set, length, false, Bool-cases, inl, inr,
}

-- The abstract lookup.
abbrev pub answer_of : Entry → ℕ → Bool → LookupResult
answer_of e now allow_stale =
    if not e.has_value
    then miss
    else if ltb now e.fresh_until_ms
    then fresh
    else if allow_stale && ltb now e.stale_until_ms
    then stale
    else miss

answer-freshness : (c : Cache) (n : ℕ) (f : LookupResult) (i : ℕ) → (answer c n f i).freshness ≡ f
unfolding answer
answer-freshness c n miss i = refl
answer-freshness c n fresh i = refl
answer-freshness c n stale i = refl

freshness-answer_of :
    (e : Entry) (n : ℕ) (allow : Bool)
    → e.has_value ≡ true
    → freshness e n allow ≡ answer_of e n allow
unfolding freshness
freshness-answer_of e n allow v = ground arith

pub lookup_at-answer_of :
    (c : Cache) (k : Bytes) (n : ℕ) (allow : Bool) (r : Option ℕ)
    → Unique c.entries
    → ScanOk 0 c.entries k r
    → (lookup_at c n allow r).freshness ≡ answer_of (entry_of c.entries k) n allow
unfolding lookup_at
lookup_at-answer_of c k n allow none u s = ground (arith, answer-freshness c n miss 0)
lookup_at-answer_of c k n allow (some j) u (m, e, lt, h, v) =
    let same : j ≡ m = omega arith in
    rw (same, answer-freshness, entry_of-at c.entries k m u lt h)
      (freshness-answer_of (get_or c.entries m blank) n allow v)

-- In a sound cache, a lookup of a valid key at a time that is not negative answers as the map from
-- keys to entries does: FRESH before the entry's fresh end, STALE before its stale end where the
-- caller allows it, and MISS otherwise.
pub lookup-answer_of :
    (c : Cache) (k : Bytes) (n : ℕ) (allow : Bool)
    → IsValid c
    → valid_key k ≡ true
    → (lookup c (some k) (pos n) allow).freshness ≡ answer_of (entry_of c.entries k) n allow
unfolding lookup
lookup-answer_of c k n allow v h =
    rw h (lookup_at-answer_of c k n allow _ v.unique (scan-ScanOk 0 c.entries k v.unique))

-- The answer with the document that goes with it.
abbrev pub reply : Entry → ℕ → Bool → LookupResult × Bytes
reply e n allow_stale = elim (answer_of e n allow_stale) [
  | miss ↦ (miss, [])
  | fresh ↦ (fresh, e.payload)
  | stale ↦ (stale, e.payload)
]

-- Two entries that a lookup cannot tell apart from the time `now` on.
abbrev pub SameReplies : ℕ → Entry → Entry → Type 0
SameReplies now e e' = (n : ℕ) (allow : Bool) → now ≤ n → reply e n allow ≡ reply e' n allow

updated-SameReplies :
    (es : List Entry) (i now : ℕ) (e' : Entry) (k : Bytes)
    → Unique es
    → i < length es
    → (Holds k (get_or es i blank) → Holds k e' → SameReplies now e' (get_or es i blank))
    → (Holds k (get_or es i blank)
        → same_key e' k ≡ false
        → SameReplies now blank (get_or es i blank))
    → (same_key (get_or es i blank) k ≡ false → Holds k e' → SameReplies now e' (entry_of es k))
    → SameReplies now (updated e' (get_or es i blank) (entry_of es k) k) (entry_of es k)
unfolding updated
updated-SameReplies es i now e' k u lt both gone new = elim (Bool-cases (same_key e' k)) [
  | inl h' ↦ elim (Bool-cases (same_key (get_or es i blank) k)) [
    | inl h ↦ rw (h', entry_of-at es k i u lt h) (both h h')
    | inr h ↦ rw h' (new h h')
  ]
  | inr h' ↦ elim (Bool-cases (same_key (get_or es i blank) k)) [
    | inl h ↦ rw (h', h, entry_of-at es k i u lt h) (gone h h')
    | inr h ↦ rw (h', h) (λ n allow le. refl)
  ]
]

-- A write seen through the map, for a caller who knows how old and new entry compare.
pub set-SameReplies :
    (es : List Entry) (i now : ℕ) (e' : Entry) (k : Bytes)
    → Unique es
    → Unique (set es i e')
    → i < length es
    → (Holds k (get_or es i blank) → Holds k e' → SameReplies now e' (get_or es i blank))
    → (Holds k (get_or es i blank)
        → same_key e' k ≡ false
        → SameReplies now blank (get_or es i blank))
    → (same_key (get_or es i blank) k ≡ false → Holds k e' → SameReplies now e' (entry_of es k))
    → SameReplies now (entry_of (set es i e') k) (entry_of es k)
set-SameReplies es i now e' k u u' lt both gone new =
    rw (entry_of-set es i e' k u u' lt) (updated-SameReplies es i now e' k u lt both gone new)
