-- ===== src/CacheState/View.antt =====
-- The cache as a map from keys to entries, in which the order of the array is forgotten.
use pg_oauth_validator.CacheState.Slots.{Absent, Holds, head_only, Holds-key}
use pg_oauth_validator.CacheState.Invariant.{Unique, EntryValid, blank-EntryValid}
use pg_oauth_validator.CacheState.Lookup.{refreshing_from, scan}
use pg_oauth_validator.CacheState.Types.{Entry, blank, same_key}
use pg_oauth_validator.Base.{
  zero, [], List, ℕ, Bytes, ◌≡◌, All, Option, ◌∷◌, false, if◌then◌else◌, arith, some, suc, ◌+◌,
  refl, ◌<◌, length, none, get_or, Bool-cases, inl, true, inr, not, set, length-set,
  get_or-set_self,
}

-- The entry of a key, or a blank one.
unfoldable pub entry_of : List Entry → Bytes → Entry
entry_of [] k = blank
entry_of (e ∷ es) k = if same_key e k then e else entry_of es k

pub entry_of-at :
    (es : List Entry) (k : Bytes) (i : ℕ)
    → Unique es
    → i < length es
    → Holds k (get_or es i blank)
    → entry_of es k ≡ get_or es i blank
unfolding entry_of
entry_of-at [] k i u lt h = absurd (omega arith)
entry_of-at (e ∷ es) k zero u lt h = rw h
entry_of-at (e ∷ es) k (suc i) u lt h = elim (Bool-cases (same_key e k)) [
  | inl first ↦ absurd (head_only e es k i u (omega arith) first h)
  | inr other ↦ rw other (entry_of-at es k i u.1 (omega arith) h)
]

pub entry_of-Absent : (es : List Entry) (k : Bytes) → Absent k es → entry_of es k ≡ blank
unfolding entry_of
entry_of-Absent [] k a = refl
entry_of-Absent (e ∷ es) k a = rw a.0 (entry_of-Absent es k a.1)

pub refreshing_from-entry_of :
    (es : List Entry) (k : Bytes) → refreshing_from es k ≡ (entry_of es k).refreshing
unfolding refreshing_from entry_of
refreshing_from-entry_of [] k = refl
refreshing_from-entry_of (e ∷ es) k = ground (arith, refreshing_from-entry_of es k)

pub entry_of-EntryValid :
    (es : List Entry) (k : Bytes) → All EntryValid es → EntryValid (entry_of es k)
unfolding entry_of
entry_of-EntryValid [] k v = blank-EntryValid
entry_of-EntryValid (e ∷ es) k v = elim (Bool-cases (same_key e k)) [
  | inl h ↦ rw h v.0
  | inr h ↦ rw h (entry_of-EntryValid es k v.1)
]

-- What the loop of a lookup stops at, from the index `i` on.
abbrev pub ScanOk : ℕ → List Entry → Bytes → Option ℕ → Type 0
ScanOk i es k none = (entry_of es k).has_value ≡ false
ScanOk i es k (some j) =
    (m : ℕ) × (j ≡ i + m)
    × (m < length es)
    × Holds k (get_or es m blank)
    × ((get_or es m blank).has_value ≡ true)

scan-Absent : (i : ℕ) (es : List Entry) (k : Bytes) → Absent k es → scan i es k ≡ none
unfolding scan
scan-Absent i [] k a = refl
scan-Absent i (e ∷ es) k a = rw a.0 (scan-Absent (suc i) es k a.1)

ScanOk-cons :
    (i : ℕ) (e : Entry) (es : List Entry) (k : Bytes) (r : Option ℕ)
    → same_key e k ≡ false
    → ScanOk (suc i) es k r
    → ScanOk i (e ∷ es) k r
unfolding entry_of
ScanOk-cons i e es k none f h = rw f h
ScanOk-cons i e es k (some j) f (m, eq, lt, h, v) = (suc m, omega arith, omega arith, h, v)

scan_hit :
    (i : ℕ) (e : Entry) (es : List Entry) (k : Bytes)
    → Unique (e ∷ es)
    → same_key e k ≡ true
    → ScanOk i (e ∷ es) k (if not e.has_value then scan (suc i) es k else some i)
unfolding entry_of
scan_hit i e es k u h =
    let (occ, key_is) = Holds-key e k h in
    elim (Bool-cases e.has_value) [
      | inl v ↦ simp v (0, omega arith, omega arith, h, v)
      | inr v ↦ simp (v, scan-Absent (suc i) es k (rw key_is at (u.0 occ)), h)
    ]

pub scan-ScanOk : (i : ℕ) (es : List Entry) (k : Bytes) → Unique es → ScanOk i es k (scan i es k)
unfolding scan
scan-ScanOk i [] k u = unfold entry_of in refl
scan-ScanOk i (e ∷ es) k u = elim (Bool-cases (same_key e k)) [
  | inl h ↦ rw h (scan_hit i e es k u h)
  | inr h ↦ rw h (ScanOk-cons i e es k _ h (scan-ScanOk (suc i) es k u.1))
]

-- One write as an update of the map.
unfoldable pub updated : Entry → Entry → Entry → Bytes → Entry
updated e' old before k = if same_key e' k then e' else if same_key old k then blank else before

head_false :
    (e : Entry) (es : List Entry) (k : Bytes) (i : ℕ)
    → Unique (e ∷ es)
    → i < length es
    → same_key e k ≡ true
    → same_key (get_or es i blank) k ≡ false
head_false e es k i u lt h = elim (Bool-cases (same_key (get_or es i blank) k)) [
  | inl x ↦ absurd (head_only e es k i u lt h x)
  | inr x ↦ x
]

head_Absent :
    (e : Entry) (es : List Entry) (k : Bytes) → Unique (e ∷ es) → same_key e k ≡ true → Absent k es
head_Absent e es k u h = let (occ, key_is) = Holds-key e k h in rw key_is at (u.0 occ)

pub entry_of-set :
    (es : List Entry) (i : ℕ) (e' : Entry) (k : Bytes)
    → Unique es
    → Unique (set es i e')
    → i < length es
    → entry_of (set es i e') k ≡ updated e' (get_or es i blank) (entry_of es k) k
unfolding entry_of updated
entry_of-set [] i e' k u u' lt = absurd (omega arith)
entry_of-set (e ∷ es) zero e' k u u' lt = elim (Bool-cases (same_key e k)) [
  | inl h ↦ ground (arith, entry_of-Absent es k (head_Absent e es k u h))
  | inr h ↦ ground (arith, h)
]
entry_of-set (e ∷ es) (suc i) e' k u u' lt = elim (Bool-cases (same_key e k)) [
  | inl h ↦
      let old = head_false e es k i u (omega arith) h in
      let inside : i < length (set es i e') = rw length-set (omega arith) in
      let new =
        rw (get_or-set_self es i e' blank (omega arith)) at
          (head_false e (set es i e') k i u' inside h) in
      rw (h, old, new) refl
  | inr h ↦ rw h (entry_of-set es i e' k u.1 u'.1 (omega arith))
]
