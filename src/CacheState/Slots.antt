-- ===== src/CacheState/Slots.antt =====
-- What `find_refresh_slot` finds: the entry of the key, or else one that may be given up.
use pg_oauth_validator.CacheState.Invariant.{Unique}
use native.Mathlib.Nat.{zero-add}
use pg_oauth_validator.CacheState.Begin.{
  note_slot, choose_slot, find_slot, find_refresh_slot, Slot, Slots, existing, vacant, no_slots,
  full,
}
use pg_oauth_validator.CacheState.Types.{Entry, Cache, same_key, blank}
use pg_oauth_validator.Base.{
  zero, [], ℕ, Bytes, List, Option, some, none, ◌≡◌, All, false, true, ◌<◌, ◌⊎◌, ◌+◌, suc, length,
  ◌≤◌, get_or, ◌∷◌, arith, Bool-cases, inl, inr, subst, All-get_or, eq_of_bytes_eq, ap, refl,
}

-- Free, or expired and not being refreshed.
abbrev pub Available : ℕ → Entry → Type 0
Available now e = (e.occupied ≡ false) ⊎ ((e.refreshing ≡ false) × (e.stale_until_ms ≤ now))

abbrev pub Holds : Bytes → Entry → Type 0
Holds k e = same_key e k ≡ true

abbrev pub Absent : Bytes → List Entry → Type 0
Absent k es = All (λ e. same_key e k ≡ false) es

abbrev OptAll : (ℕ → Type 0) → Option ℕ → Type 0
OptAll P none = Unit {0}
OptAll P (some j) = P j

abbrev SlotOk : (ℕ → Type 0) → Bytes → ℕ → List Entry → Slot → Type 0
SlotOk P k i es (existing j) = (m : ℕ) × (j ≡ i + m) × (m < length es) × Holds k (get_or es m blank)
SlotOk P k i es (vacant j) = P j × Absent k es
SlotOk P k i es full = Absent k es

module _ (P : ℕ → Type 0) where
  note_slot-OptAll :
      (i : ℕ) (e : Entry) (now : ℕ) (s : Slots)
      → (Available now e → P i)
      → OptAll P s.empty × OptAll P s.victim
      → OptAll P (note_slot i e now s).empty × OptAll P (note_slot i e now s).victim
  unfolding note_slot
  note_slot-OptAll i e now s h o = ground (
    arith,
    λ (p : e.occupied ≡ false). h (inl p),
    λ (p : e.refreshing ≡ false) (q : e.stale_until_ms ≤ now). h (inr (p, q)),
  )

  choose_slot-SlotOk :
      (k : Bytes) (i : ℕ) (a b : Option ℕ)
      → OptAll P a × OptAll P b
      → SlotOk P k i [] (choose_slot a b)
  unfolding choose_slot
  choose_slot-SlotOk k i (some x) b h = (h.0, tt)
  choose_slot-SlotOk k i none (some x) h = (h.1, tt)
  choose_slot-SlotOk k i none none h = tt

  SlotOk-cons :
      (k : Bytes) (i : ℕ) (e : Entry) (es : List Entry) (r : Slot)
      → same_key e k ≡ false
      → SlotOk P k (suc i) es r
      → SlotOk P k i (e ∷ es) r
  SlotOk-cons k i e es (existing j) f (m, eq, lt, h) = (suc m, omega arith, omega arith, h)
  SlotOk-cons k i e es (vacant j) f (p, a) = (p, (f, a))
  SlotOk-cons k i e es full f a = (f, a)

  find_slot-SlotOk :
      (k : Bytes) (now : ℕ) (es : List Entry) (i : ℕ) (s : Slots)
      → ((m : ℕ) → m < length es → Available now (get_or es m blank) → P (i + m))
      → OptAll P s.empty × OptAll P s.victim
      → SlotOk P k i es (find_slot i es k now s)
  unfolding find_slot
  find_slot-SlotOk k now [] i s h o = choose_slot-SlotOk k i s.empty s.victim o
  find_slot-SlotOk k now (e ∷ es) i s h o = elim (Bool-cases (same_key e k)) [
    | inl found ↦ rw found (0, omega arith, omega arith, found)
    | inr other ↦ rw other (
        SlotOk-cons k i e es _ other (
          find_slot-SlotOk k now es (suc i) (note_slot i e now s)
            (λ m lt a. subst P (omega arith) (h (suc m) (omega arith) a))
            (note_slot-OptAll i e now s (λ a. subst P (omega arith) (h 0 (omega arith) a)) o)))
  ]

-- Where the key has an entry, that is the one; otherwise it is an entry that may be given up.
abbrev pub Finds : Cache → Bytes → ℕ → Slot → Type 0
Finds c k now (existing i) = (i < length c.entries) × Holds k (get_or c.entries i blank)
Finds c k now (vacant i) =
    (i < length c.entries) × Available now (get_or c.entries i blank) × Absent k c.entries
Finds c k now full = Absent k c.entries

pub find_refresh_slot-Finds :
    (c : Cache) (k : Bytes) (now : ℕ) → Finds c k now (find_refresh_slot c k now)
unfolding find_refresh_slot
find_refresh_slot-Finds c k now = convert (find_slot 0 c.entries k now no_slots) (
    find_slot-SlotOk (λ i. (i < length c.entries) × Available now (get_or c.entries i blank)) k now
      c.entries 0 no_slots (λ m lt a. rw zero-add (lt, a)) (tt, tt))
  where
    convert :
        (r : Slot)
        → SlotOk
            (λ i. (i < length c.entries) × Available now (get_or c.entries i blank))
            k
            0
            c.entries
            r
        → Finds c k now r
    convert (existing j) (m, e, lt, h) = let e' : j ≡ m = omega arith in rw e' (lt, h)
    convert (vacant j) ((lt, a), f) = (lt, a, f)
    convert full f = f

pub Absent-Holds :
    (es : List Entry) (k : Bytes) (i : ℕ)
    → Absent k es
    → i < length es
    → ¬ Holds k (get_or es i blank)
Absent-Holds es k i a lt h = cc (h, All-get_or (λ e. same_key e k ≡ false) es i blank a lt)

pub Holds-key : (e : Entry) (k : Bytes) → Holds k e → (e.occupied ≡ true) × (e.key ≡ k)
unfolding same_key
Holds-key e k h = ground (arith, eq_of_bytes_eq e.key k)

pub head_only :
    (e : Entry) (es : List Entry) (k : Bytes) (j : ℕ)
    → Unique (e ∷ es)
    → j < length es
    → Holds k e
    → ¬ Holds k (get_or es j blank)
head_only e es k j u lt h h' =
    let (occ, key_is) = Holds-key e k h in Absent-Holds es k j (rw key_is at (u.0 occ)) lt h'

-- A key has one entry at most.
pub Unique-index :
    (es : List Entry) (k : Bytes) (i j : ℕ)
    → Unique es
    → i < length es
    → j < length es
    → Holds k (get_or es i blank)
    → Holds k (get_or es j blank)
    → i ≡ j
Unique-index [] k i j u li lj hi hj = absurd (omega arith)
Unique-index (e ∷ es) k zero zero u li lj hi hj = refl
Unique-index (e ∷ es) k zero (suc j) u li lj hi hj =
    absurd (head_only e es k j u (omega arith) hi hj)
Unique-index (e ∷ es) k (suc i) zero u li lj hi hj =
    absurd (head_only e es k i u (omega arith) hj hi)
Unique-index (e ∷ es) k (suc i) (suc j) u li lj hi hj =
    ap suc (Unique-index es k i j u.1 (omega arith) (omega arith) hi hj)
